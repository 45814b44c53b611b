-- ===== src/ControlLog/Hidden.antt =====
-- What firmware/radio/src/control_log.c may hold: no opcode of a key-bearing message.
use open_ull_receiver.Base.{
  ℕ, zero, suc, ◌+◌, ◌%◌, ◌≤◌, ◌<◌, ◌^◌, ◌≡◌, refl, Bool, true, false, not, ◌&&◌, ◌||◌, List, [],
  ◌∷◌, length, put_at, length-put_at, replicate, ◌==◌, Bool-cases, inl, inr, arith,
}
use open_ull_receiver.ControlLog.{
  Entry, Log, Origin, log_capacity, setup_opcode, llcp_opcode, control_of, entry_of, log_commit,
  log_publish, log_enable, take_record,
}

-- A record that may be shown: an opcode it holds is not a setup opcode, and a link layer one is not
-- LL_ENC_REQ or LL_ENC_RSP.
abbrev pub link_control : Origin → ℕ → Bool
link_control Origin.acl header = false
link_control Origin.air header = header % 4 == 3

abbrev pub shown : Entry → Bool
shown e = not (
    e.opcode_valid
    && (setup_opcode e.opcode
        || link_control e.origin e.header && (e.opcode == 3 || e.opcode == 4)))

unfoldable pub all_shown : List Entry → Bool
all_shown [] = true
all_shown (e ∷ es) = shown e && all_shown es

all_shown-put_at :
    (n : ℕ) (e : Entry) (es : List Entry)
    → shown e ≡ true
    → all_shown es ≡ true
    → all_shown (put_at n (e ∷ []) es) ≡ true
unfolding all_shown
all_shown-put_at zero e [] h k = refl
all_shown-put_at zero e (x ∷ es) h k = ground arith
all_shown-put_at (suc n) e [] h k = refl
all_shown-put_at (suc n) e (x ∷ es) h k = ground (arith, all_shown-put_at n e es)

-- A packet that is not hidden leaves a record that may be shown.
entry_of-shown :
    (origin : Origin) (header : ℕ) (p : List ℕ) (n now : ℕ)
    → (entry_of origin header p n now).1 ≡ false
    → shown (entry_of origin header p n now).0 ≡ true
unfolding entry_of llcp_opcode control_of
entry_of-shown Origin.acl header p n now h = ground arith
entry_of-shown Origin.air header p n now h = ground arith

-- The ring of records.
pub record IsValid (l : Log) : Type 0 where
  pub hidden : all_shown l.records ≡ true
  pub size : length l.records ≡ log_capacity
  pub fill : l.count ≤ log_capacity
  pub start : l.tail < log_capacity
  pub end : l.head ≡ (l.tail + l.count) % log_capacity
  pub turn : l.generation < 2 ^ 32

pub log_commit-IsValid :
    (l : Log) (g : ℕ) (e : Entry) (hide : Bool)
    → (hide ≡ false → shown e ≡ true)
    → IsValid l
    → IsValid (log_commit l g (e, hide))
unfolding log_commit
log_commit-IsValid l g e hide s v = record {
  hidden = ground (arith, all_shown-put_at l.head e l.records);
  size = ground (arith, length-put_at l.head (e ∷ []) l.records);
  fill = ground arith;
  start = ground arith;
  end = ground arith;
  turn = ground arith;
}

published-IsValid :
    (before l : Log) (origin : Origin) (header : ℕ) (p : List ℕ) (n now : ℕ)
    → IsValid l
    → IsValid (log_publish before l origin header p n now)
unfolding log_publish
published-IsValid before l origin header p n now v =
    let e = entry_of origin header p n now in
    elim (Bool-cases before.enabled) [
      | inl on ↦
          rw on (
            log_commit-IsValid l before.generation e.0 e.1 (entry_of-shown origin header p n now) v)
      | inr off ↦ rw off v
    ]

pub log_enable-IsValid : (l : Log) (value : Bool) → IsValid l → IsValid (log_enable l value)
unfolding log_enable
log_enable-IsValid l true v = record {
  hidden = v.hidden;
  size = v.size;
  fill = omega arith;
  start = omega arith;
  end = refl;
  turn = omega arith;
}
log_enable-IsValid l false v = record {
  hidden = v.hidden;
  size = v.size;
  fill = v.fill;
  start = v.start;
  end = v.end;
  turn = omega arith;
}

take_record-IsValid : (l : Log) → IsValid l → IsValid (take_record l).0
unfolding take_record
take_record-IsValid l v = record {
  hidden = ground (arith, v.hidden);
  size = ground (arith, v.size);
  fill = ground arith;
  start = ground arith;
  end = ground arith;
  turn = ground arith;
}

-- The static variables when the program starts.
abbrev pub log_init : Log
log_init = record {
  records = replicate 32 (record {
    us = 0;
    size = 0;
    origin = Origin.acl;
    header = 0;
    opcode = 0;
    opcode_valid = false;
    copied = 0;
    payload = [];
  });
  enabled = false;
  generation = 0;
  head = 0;
  tail = 0;
  count = 0;
  dropped = 0;
  suppressed = 0;
  total = 0;
}

-- The states of the program. A publisher may have read the flag and the generation in any state.
pub data Reachable : Log → Type 0 where
  started : Reachable log_init
  published :
      {l : Log} (before : Log) (origin : Origin) (header : ℕ) (p : List ℕ) (n now : ℕ)
      → Reachable l
      → Reachable (log_publish before l origin header p n now)
  switched : {l : Log} (value : Bool) → Reachable l → Reachable (log_enable l value)
  drained : {l : Log} → Reachable l → Reachable (take_record l).0

-- In every state the program reaches, whatever is published and however publishers, switches and
-- drains are interleaved, no record holds the opcode of a setup message, and none of a link layer
-- packet holds that of LL_ENC_REQ or LL_ENC_RSP; the ring has at most 32 records and its places agree.
pub Reachable-IsValid : (l : Log) → Reachable l → IsValid l
unfolding log_publish all_shown
Reachable-IsValid _ Reachable.started = record {
  hidden = refl;
  size = refl;
  fill = omega arith;
  start = omega arith;
  end = refl;
  turn = omega arith;
}
Reachable-IsValid _ (Reachable.published {l} before origin header p n now r) =
    published-IsValid before l origin header p n now (Reachable-IsValid l r)
Reachable-IsValid _ (Reachable.switched {l} value r) =
    log_enable-IsValid l value (Reachable-IsValid l r)
Reachable-IsValid _ (Reachable.drained {l} r) = take_record-IsValid l (Reachable-IsValid l r)
