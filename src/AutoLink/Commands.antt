-- ===== src/AutoLink/Commands.antt =====
-- The commands of firmware/radio/src/auto_link.c, and the checks made with them. While a command waits for
-- its completion, the other events go to `process`.
use open_ull_receiver.Base.{
  ℕ, ◌+◌, ◌-◌, ◌^◌, Bool, false, not, ◌&&◌, ◌||◌, none, some, Option, List, [], ◌∷◌, ◌++◌, length,
  drop, put_at, same_bytes, ltb, leb, ◌==◌, if◌then◌else◌,
}
use open_ull_receiver.AirSession.{put16}
use open_ull_receiver.AutoLink.Peer.{Bond, Link, le16, byte_at, send_packet}
use open_ull_receiver.AutoLink.Events.{process, on_peer}

-- What `command` returns: the status, and the reply parameters, if the event carries them.
pub record Reply : Type 0 where
  pub good : Bool
  pub bytes : Option (List ℕ)

abbrev pub refusal : Reply
refusal = record { good = false; bytes = none }

abbrev pub reset_opcode : ℕ
reset_opcode = 0x0c03

abbrev pub is_event : List ℕ → Bool
is_event e = leb 7 (length e) && byte_at e 0 == 4 && length e == 3 + byte_at e 2

-- The completion of the command, if the event is one; `room` is the size of the reply buffer.
unfoldable pub answer_of : ℕ → ℕ → List ℕ → Option Reply
answer_of opcode room e =
    if is_event e && byte_at e 1 == 14 && le16 (drop 4 e) == opcode
    then (if ltb room (length e - 6)
        then some refusal
        else some (record { good = byte_at e 6 == 0; bytes = some (drop 6 e) }))
    else if is_event e && byte_at e 1 == 15 && le16 (drop 5 e) == opcode
    then some (record { good = byte_at e 3 == 0; bytes = none })
    else none

-- The wait of `command`, over the queue.
unfoldable pub await : Bond → ℕ → ℕ → Link → List (Option (ℕ × List ℕ)) → Link × Reply
await b opcode room l [] = (record l { incoming = [] }, refusal)
await b opcode room l (none ∷ es) = (record l { incoming = es }, refusal)
await b opcode room l (some (now, e) ∷ es) =
    let l' = if opcode == reset_opcode then l else process b l now e in
    let rest = await b opcode room l' es in
    elim (answer_of opcode room e) [
      | some r ↦ (record l { incoming = es }, r)
      | none ↦ if l.lost then (record l' { incoming = es }, refusal) else rest
    ]

-- `command`. An argument `reply` of NULL accepts any number of bytes.
unfoldable pub command : Bond → Link → ℕ → List ℕ → ℕ → Link × Reply
unfolding await
command b l opcode params room =
    let sent = send_packet l ((1 ∷ put16 opcode) ++ (length params ∷ params)) in
    if ltb 60 (length params)
    then (l, refusal)
    else if not sent.1
    then (sent.0, refusal)
    else await b opcode room sent.0 sent.0.incoming

abbrev pub unbounded : ℕ
unbounded = 2 ^ 16

-- A good reply whose bytes pass a test; the bytes of no reply fail it.
abbrev pub bytes_pass : (List ℕ → Bool) → Option (List ℕ) → Bool
bytes_pass test none = false
bytes_pass test (some p) = test p

abbrev pub passes : (List ℕ → Bool) → Reply → Bool
passes test r = r.good && bytes_pass test r.bytes

abbrev pub clean_map : List ℕ
clean_map = 0xff ∷ 0xff ∷ 0x01 ∷ 0xe0 ∷ 0x13 ∷ []

-- The comparison of the reply of `verify_map`.
abbrev pub is_clean : ℕ → List ℕ → Bool
is_clean handle p = le16 (drop 1 p) == handle && same_bytes 5 (drop 3 p) clean_map

-- `verify_map`. A command status writes no reply and leaves `n` at 8: what is compared then is what the array held.
unfoldable pub verify_map : Bond → Link → Link × Bool
verify_map b l =
    let r = command b l 0x2015 (put16 l.peer.handle) 8 in
    let clean : Bool = elim r.1.bytes [
      | none ↦ is_clean r.0.peer.handle b.unset
      | some p ↦ length p == 8 && is_clean r.0.peer.handle p
    ] in
    (r.0, r.1.good && clean)

abbrev pub advertising : ℕ → List ℕ
advertising set =
    set ∷ 0 ∷ 0 ∷ 160 ∷ 0 ∷ 0 ∷ 160 ∷ 0 ∷ 0 ∷ 7 ∷ 0 ∷ 0 ∷ 0 ∷ 0 ∷ 0 ∷ 0 ∷ 0 ∷ 0 ∷ 0 ∷ 127 ∷ 1 ∷ 0
    ∷ 1 ∷ 0 ∷ 0 ∷ []

-- The question for the controller's activities: a fresh answer with the control link in slot 0.
unfoldable pub ask_activity : Bond → Link → Link × Bool
ask_activity b l =
    let r =
      command b (on_peer l (record (l.peer) { activity_valid = false })) 0xfcfa [] unbounded in
    (r.0, r.1.good && r.0.peer.activity_valid && r.0.peer.control_slot == 0)

-- One turn of the loop of `reserve_audio`.
unfoldable pub reserve_slot : Bond → Link → ℕ → List ℕ → Link × Bool
unfolding ask_activity
reserve_slot b l set expected =
    let r =
      command b (on_peer l (record (l.peer) { activity_valid = false })) 0x2036 (advertising set)
        unbounded in
    let q = command b r.0 0xfcfa [] unbounded in
    if not r.1.good then (r.0, false) else (
      q.0,
      q.1.good
          && q.0.peer.activity_valid
          && q.0.peer.control_slot == 0
          && same_bytes 30 q.0.peer.activity expected,
    )

abbrev pub unused : List ℕ
unused = 0 ∷ 0 ∷ 255 ∷ 0 ∷ 0 ∷ []

abbrev pub reserved : ℕ → List ℕ
reserved set = 1 ∷ 1 ∷ set ∷ 0 ∷ 0 ∷ []

-- `reserve_audio`
unfoldable pub reserve_audio : Bond → Link → Link × Bool
unfolding ask_activity reserve_slot
reserve_audio b l =
    let asked = ask_activity b l in
    let e0 = asked.0.peer.activity in
    let e1 = put_at 5 (reserved 0xee) e0 in
    let e2 = put_at 10 (reserved 0xef) e1 in
    let e3 = put_at 15 (reserved 0xed) e2 in
    let s1 = reserve_slot b asked.0 0xee e1 in
    let s2 = reserve_slot b s1.0 0xef e2 in
    let s3 = reserve_slot b s2.0 0xed e3 in
    if not asked.1
      || not (same_bytes 5 (drop 5 e0) unused)
      || not (same_bytes 5 (drop 10 e0) unused)
      || not (same_bytes 5 (drop 15 e0) unused)
    then (asked.0, false)
    else if not s1.1
    then (s1.0, false)
    else if not s2.1
    then (s2.0, false)
    else s3
