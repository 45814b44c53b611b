-- ===== src/TrialPump/Drained.antt =====
-- How the frozen trace of firmware/radio/src/trial_pump.c is read.
use mathlib.Core.List.{append_assoc, append-nil}
use open_ull_receiver.Base.{
  ℕ, zero, suc, ◌+◌, ◌-◌, ◌≤◌, ◌≡◌, inl, inr, refl, sym, ap, ◌∙◌, Bool, true, false, not, Option,
  none, some, List, [], ◌∷◌, ◌++◌, length, drop, put_at, arith, length-append, length-put_at, ltb,
  ◌==◌, if◌then◌else◌, Bool-cases, drop_over, drop-add, drop-put_at_le, replicate, length-replicate,
}
use open_ull_receiver.TrialPump.{Build, Trace, trace_record, trace_next, trace_freeze, trace_begin}
use open_ull_receiver.TrialPump.Entries.{
  Message, encode, encode_all, Holds, first_read, length-encode,
}
use open_ull_receiver.TrialPump.Recorded.{stored, stored_facts, extended, trace_record-Follows}

abbrev pub is_empty : List Message → Bool
is_empty [] = true
is_empty (m ∷ ms) = false

last_read :
    (b : Build) (t : Trace) (delta : ℕ) (p : List ℕ) (ms : List Message)
    → Holds b t ((delta, p) ∷ ms)
    → (t.read + 5 + length p == t.used) ≡ is_empty ms
last_read b t delta p [] v =
    ground (arith, v.extent, length-append (encode (delta, p)) [], length-encode delta p)
last_read b t delta p ((d, q) ∷ ms) v = ground (
  arith,
  v.extent,
  length-append (encode (delta, p)) (encode (d, q) ++ encode_all ms),
  length-append (encode (d, q)) (encode_all ms),
  length-encode delta p,
  length-encode d q,
)

rest_of :
    {b : Build} {t : Trace} {m : Message} {ms : List Message}
    → (v : Holds b t (m ∷ ms)) → drop t.read t.buffer ≡ encode m ++ (encode_all ms ++ v.tail)
rest_of {b} {t} {m} {ms} v = v.shape ∙ append_assoc (encode m) (encode_all ms) v.tail

-- The state after the first message is read.
abbrev passed : Trace → List ℕ → List Message → Trace
passed t p ms = record t {
  buffer = put_at t.read (replicate (5 + length p) 0) t.buffer;
  read = t.read + 5 + length p;
  frozen = if is_empty ms then false else true;
}

passed-Holds :
    (b : Build) (t : Trace) (delta : ℕ) (p : List ℕ) (ms : List Message)
    → Holds b t ((delta, p) ∷ ms)
    → Holds b (passed t p ms) ms
passed-Holds b t delta p ms v =
    let n = 5 + length p in
    let e = length-append (encode (delta, p)) (encode_all ms) in
    let split = drop-add t.read n (t.read + 5 + length p) t.buffer (omega arith) in
    let erased : drop (t.read + 5 + length p) (put_at t.read (replicate n 0) t.buffer)
        ≡ drop (t.read + 5 + length p) t.buffer =
      drop-put_at_le (t.read + 5 + length p) t.read (replicate n 0) t.buffer
        (omega (arith, length-replicate {A = ℕ} n 0)) in
    record {
      tail = v.tail;
      shape =
          erased
          ∙ split
          ∙ ap (λ (l : List ℕ). drop n l) (rest_of v)
          ∙ drop_over n 0 n (encode (delta, p)) (encode_all ms ++ v.tail) (length-encode delta p)
              (omega arith);
      extent = omega (arith, v.extent, e, length-encode delta p);
      room = length-put_at t.read (replicate n 0) t.buffer ∙ v.room;
      within = v.within;
      messages = v.messages.1;
    }

next_first :
    (b : Build) (t : Trace) (delta room : ℕ) (p : List ℕ) (ms : List Message)
    → Holds b t ((delta, p) ∷ ms)
    → t.frozen ≡ true
    → length p ≤ room
    → trace_next t room ≡ (passed t p ms, some (t.base + delta, p))
unfolding trace_next
next_first b t delta room p ms v f h =
    let (d, n, q, _) = first_read delta p (encode_all ms ++ v.tail) (v.messages.0.0) in
    let e = length-append (encode (delta, p)) (encode_all ms) in
    let more : t.read + 5 + length p ≤ t.used = omega (arith, v.extent, e, length-encode delta p) in
    let unread : (t.read == t.used) ≡ false = ground (arith, more) in
    let fits : ltb room (length p) ≡ false = ground arith in
    let whole : ltb t.used (t.read + 5 + length p) ≡ false = ground arith in
    rw (rest_of v, d, n, q, f, unread, fits, whole, last_read b t delta p ms v) refl

next_none : (b : Build) (t : Trace) (room : ℕ) → Holds b t [] → trace_next t room ≡ (t, none)
unfolding trace_next
next_none b t room v =
    let all_read : (t.read == t.used) ≡ true = ground (arith, v.extent) in
    elim (Bool-cases t.frozen) [ inl f ↦ rw (f, all_read) refl | inr f ↦ rw f refl ]

abbrev after_read : (Trace → List (ℕ × List ℕ)) → Trace × Option (ℕ × List ℕ) → List (ℕ × List ℕ)
after_read rest (u, none) = []
after_read rest (u, some m) = m ∷ rest u

-- Calls of `ull_trial_trace_next` until one fails, `n` at most.
unfoldable pub drain : ℕ → Trace → ℕ → List (ℕ × List ℕ)
drain zero t room = []
drain (suc n) t room = after_read (λ u. drain n u room) (trace_next t room)

abbrev pub dated : ℕ → List Message → List (ℕ × List ℕ)
dated base [] = []
dated base ((delta, p) ∷ ms) = (base + delta, p) ∷ dated base ms

pub drain_all :
    (n room : ℕ) (b : Build) (t : Trace) (ms : List Message)
    → Holds b t ms
    → t.frozen ≡ not (is_empty ms)
    → length ms ≤ n
    → 103 ≤ room
    → drain n t room ≡ dated t.base ms
unfolding drain
drain_all zero room b t [] v f h r = refl
drain_all zero room b t (m ∷ ms) v f h r = absurd (omega arith)
drain_all (suc n) room b t [] v f h r = rw (next_none b t room v) refl
drain_all (suc n) room b t ((delta, p) ∷ ms) v f h r =
    let step = next_first b t delta room p ms v f (omega (arith, v.messages.0)) in
    let rest =
      drain_all n room b (passed t p ms) ms (passed-Holds b t delta p ms v) (ground arith)
        (omega arith) r in
    rw step (ap (λ (l : List (ℕ × List ℕ)). (t.base + delta, p) ∷ l) rest)

-- The calls of `ull_trial_trace_record` in a recording, each with its time.
pub record_all : Build → Trace → List (ℕ × List ℕ) → Trace
record_all b t [] = t
record_all b t ((now, p) ∷ calls) = record_all b (trace_record b t p now).0 calls

-- Those that are stored.
pub kept : Build → Trace → List (ℕ × List ℕ) → List (ℕ × List ℕ)
kept b t [] = []
kept b t ((now, p) ∷ calls) =
    let rest = kept b (trace_record b t p now).0 calls in
    if stored b t p now then (now, p) ∷ rest else rest

dated-append :
    (base : ℕ) (ms : List Message) (delta : ℕ) (p : List ℕ)
    → dated base (ms ++ ((delta, p) ∷ [])) ≡ dated base ms ++ ((base + delta, p) ∷ [])
dated-append base [] delta p = refl
dated-append base ((d, q) ∷ ms) delta p =
    ap (λ (l : List (ℕ × List ℕ)). (base + d, q) ∷ l) (dated-append base ms delta p)

-- The messages of a trace that has made these calls.
abbrev Records : Build → Trace → List Message → List (ℕ × List ℕ) → Type 0
Records b t ms calls =
    let u = record_all b t calls in
    (ms' : List Message) × Holds b u ms'
    × (u.base ≡ t.base)
    × (u.read ≡ t.read)
    × (dated t.base ms' ≡ dated t.base ms ++ kept b t calls)
    × (length ms' ≤ length ms + length calls)

one_kept :
    (b : Build) (t : Trace) (ms : List Message) (p : List ℕ) (now : ℕ) (rest : List (ℕ × List ℕ))
    → (dated t.base (extended b t ms p now) ++ rest
        ≡ dated t.base ms ++ (if stored b t p now then (now, p) ∷ rest else rest))
      × (length (extended b t ms p now) ≤ length ms + 1)
one_kept b t ms p now rest = elim (Bool-cases (stored b t p now)) [
  | inl s ↦
      let (_, late, _) = stored_facts b t p now s in
      let time : t.base + (now - t.base) ≡ now = omega arith in
      rw s (
        (rw (dated-append t.base ms (now - t.base) p, time)
            (append_assoc (dated t.base ms) ((now, p) ∷ []) rest)),
        omega (arith, length-append ms ((now - t.base, p) ∷ [])),
      )
  | inr s ↦ rw s (refl, omega arith)
]

record_all-Records :
    (b : Build) (t : Trace) (ms : List Message) (calls : List (ℕ × List ℕ))
    → Holds b t ms
    → t.recording ≡ true
    → Records b t ms calls
unfolding record_all kept
record_all-Records b t ms [] v r =
    (ms, v, refl, refl, sym (append-nil (dated t.base ms)), omega arith)
record_all-Records b t ms ((now, p) ∷ calls) v r =
    let (w, base, going, place) = trace_record-Follows b t ms p now v r in
    let u = (trace_record b t p now).0 in
    let (ns, held, base', place', out, few) =
      record_all-Records b u (extended b t ms p now) calls w going in
    let (one, more) = one_kept b t ms p now (kept b u calls) in
    (
      ns,
      held,
      base' ∙ base,
      place' ∙ place,
      ap (λ (n : ℕ). dated n ns) (sym base)
          ∙ out
          ∙ ap (λ (n : ℕ). dated n (extended b t ms p now) ++ kept b u calls) base
          ∙ one,
      omega (arith, few, more),
    )

freeze-Holds :
    (b : Build) (t : Trace) (ms : List Message) → Holds b t ms → Holds b (trace_freeze t) ms
unfolding trace_freeze
freeze-Holds b t ms v = record {
  tail = v.tail;
  shape = v.shape;
  extent = v.extent;
  room = v.room;
  within = v.within;
  messages = v.messages;
}

freeze_frozen :
    (b : Build) (t : Trace) (ms : List Message)
    → Holds b t ms
    → t.read ≡ 0
    → (trace_freeze t).frozen ≡ not (is_empty ms)
unfolding trace_freeze
freeze_frozen b t [] v e = ground (arith, v.extent)
freeze_frozen b t ((d, p) ∷ ms) v e =
    ground (arith, v.extent, length-append (encode (d, p)) (encode_all ms), length-encode d p)

drain_recorded :
    (b : Build) (t : Trace) (room n : ℕ) (calls : List (ℕ × List ℕ))
    → Holds b t []
    → t.recording ≡ true
    → t.read ≡ 0
    → 103 ≤ room
    → length calls ≤ n
    → drain n (trace_freeze (record_all b t calls)) room ≡ kept b t calls
unfolding trace_freeze
drain_recorded b t room n calls v r z h e =
    let (ms, held, base, place, out, few) = record_all-Records b t [] calls v r in
    let u = record_all b t calls in
    drain_all n room b (trace_freeze u) ms (freeze-Holds b u ms held)
      (freeze_frozen b u ms held (place ∙ z)) (omega (arith, few)) h
    ∙ ap (λ (k : ℕ). dated k ms) base
    ∙ out

-- Round trip of the trace. Whatever is recorded between `ull_trial_pump_start` and
-- `ull_trial_pump_finish`, at most as many calls of `ull_trial_trace_next` as there were messages, into
-- a buffer of at least 103 bytes, give back exactly the messages that were stored, in order, each with
-- its bytes and the time at which it was recorded.
pub drain-record_all :
    (b : Build) (t : Trace) (start room n : ℕ) (calls : List (ℕ × List ℕ))
    → length t.buffer ≡ b.trace_capacity
    → t.recording ≡ false
    → t.frozen ≡ false
    → 103 ≤ room
    → length calls ≤ n
    → let begun = (trace_begin t start).0 in
      drain n (trace_freeze (record_all b begun calls)) room ≡ kept b begun calls
unfolding trace_begin
drain-record_all b t start room n calls size r f h e =
    rw (r, f)
      (drain_recorded b _ room n calls
        (record {
          tail = t.buffer;
          shape = refl;
          extent = omega arith;
          room = size;
          within = omega arith;
          messages = tt;
        })
        refl refl h e)
