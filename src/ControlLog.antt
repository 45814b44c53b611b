-- ===== src/ControlLog.antt =====
-- The log of authenticated control packets: firmware/radio/src/control_log.c. The lists are the bytes
-- that are read, `n` is the length given; `now` is the time that `esp_timer_get_time` returns.
pub mod Hidden
pub mod Frozen
mod Examples
use open_ull_receiver.Base.{
  ℕ, zero, suc, ◌+◌, ◌-◌, ◌*◌, ◌%◌, ◌^◌, Bool, true, false, not, ◌&&◌, ◌||◌, none, some, Option,
  List, [], ◌∷◌, take, drop, put_at, ltb, leb, ◌==◌, if◌then◌else◌,
}
use open_ull_receiver.ParentAck.{byte_at, is_wheel, is_media, is_mic}

abbrev pub log_capacity : ℕ
log_capacity = 32

-- ORIGIN_AIR and ORIGIN_ACL
pub data Origin : Type 0 where
  air acl : Origin

-- `struct record`: `payload` holds the `copied` bytes.
pub record Entry : Type 0 where
  pub us : ℕ
  pub size : ℕ
  pub origin : Origin
  pub header : ℕ
  pub opcode : ℕ
  pub opcode_valid : Bool
  pub copied : ℕ
  pub payload : List ℕ

-- The file's static variables.
pub record Log : Type 0 where
  pub records : List Entry
  pub enabled : Bool
  pub generation : ℕ
  pub head : ℕ
  pub tail : ℕ
  pub count : ℕ
  pub dropped : ℕ
  pub suppressed : ℕ
  pub total : ℕ

abbrev pub setup_opcode : ℕ → Bool
setup_opcode op = op == 14 || op == 15 || leb 224 op && leb op 228

-- The length of a payload that may be copied.
unfoldable pub safe_payload : List ℕ → ℕ → ℕ
safe_payload p n =
    if is_wheel (some p) n
    then 6
    else if is_media (some p) n
    then 2
    else if is_mic (some p) n
    then 3
    else if n == 6
        && byte_at p 0 == 4
        && (byte_at p 1 == 1 || byte_at p 1 == 2)
        && byte_at p 2 == 0
        && leb (byte_at p 3) 100
        && leb (byte_at p 4) 100
        && byte_at p 5 == 0
    then 6
    else if n == 3
        && (byte_at p 0 == 5 || byte_at p 0 == 6)
        && (byte_at p 1 == 1 || byte_at p 1 == 2)
        && byte_at p 2 == 0
    then 3
    else 0

-- The control message of a packet: `none` is the null pointer.
pub control_of : Origin → ℕ → List ℕ → ℕ → Option (List ℕ × ℕ)
control_of Origin.acl header p n = some (p, n)
control_of Origin.air header p n =
    let l = byte_at p 0 + 256 * byte_at p 1 in
    if header % 4 == 2 && leb 4 n && (l == n - 4 && byte_at p 2 == 1 && byte_at p 3 == 1)
    then some (drop 4 p, l)
    else none

-- The opcode of a link layer control packet, and whether it is hidden.
pub llcp_opcode : Origin → ℕ → List ℕ → ℕ → Option (ℕ × Bool)
llcp_opcode Origin.acl header p n = none
llcp_opcode Origin.air header p n =
    let op = byte_at p 0 in
    if header % 4 == 3 && not (n == 0)
    then some (op, op == 3 || op == 4 || setup_opcode op)
    else none

-- What `publish` makes of a packet: the record, and whether it is hidden.
abbrev pub classify : Entry → Option (ℕ × Bool) → Option (List ℕ × ℕ) → Entry × Bool
classify e (some (op, hide)) _ = (record e { opcode = op; opcode_valid = true }, hide)
classify e none none = (e, false)
classify e none (some (control, l)) =
    let op = byte_at control 0 in
    let copied = safe_payload control l in
    if l == 0
    then (e, false)
    else if setup_opcode op
    then (record e { opcode = op; opcode_valid = true }, true)
    else (
      record e { opcode = op; opcode_valid = true; copied = copied; payload = take copied control },
      false,
    )

pub entry_of : Origin → ℕ → List ℕ → ℕ → ℕ → Entry × Bool
entry_of origin header p n now =
    let blank : Entry = record {
      us = now;
      size = n % 2 ^ 16;
      origin = origin;
      header = header;
      opcode = 0;
      opcode_valid = false;
      copied = 0;
      payload = [];
    } in
    classify blank (llcp_opcode origin header p n) (control_of origin header p n)

-- The section of `publish` under the lock.
pub log_commit : Log → ℕ → Entry × Bool → Log
log_commit l capture (e, hide) =
    if not (l.enabled && capture == l.generation)
    then l
    else if hide
    then record l { suppressed = l.suppressed + 1 }
    else if l.count == log_capacity
    then record l { dropped = l.dropped + 1 }
    else record l {
      records = put_at l.head (e ∷ []) l.records;
      head = (l.head + 1) % log_capacity;
      count = l.count + 1;
      total = l.total + 1;
    }

-- `publish`, which reads the flag and the generation in the state `before` and takes the lock in `l`.
pub log_publish : Log → Log → Origin → ℕ → List ℕ → ℕ → ℕ → Log
log_publish before l origin header p n now =
    if not before.enabled
    then l
    else log_commit l before.generation (entry_of origin header p n now)

-- `ull_control_log_enable`
pub log_enable : Log → Bool → Log
log_enable l value =
    let g = (l.generation + 1) % 2 ^ 32 in
    if value
    then record l {
      enabled = true;
      generation = g;
      head = 0;
      tail = 0;
      count = 0;
      dropped = 0;
      suppressed = 0;
      total = 0;
    }
    else record l { enabled = false; generation = g }

-- One turn of the loop of `ull_control_log_drain`: the record at `tail`, when there is one.
pub take_record : Log → Log × List Entry
take_record l = if l.count == 0 then (l, []) else (
  record l { tail = (l.tail + 1) % log_capacity; count = l.count - 1 },
  take 1 (drop l.tail l.records),
)
