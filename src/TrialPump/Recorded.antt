-- ===== src/TrialPump/Recorded.antt =====
-- The trace of firmware/radio/src/trial_pump.c while it records.
use mathlib.Core.List.{append_assoc}
use open_ull_receiver.Base.{
  ℕ, ◌+◌, ◌-◌, ◌≤◌, ◌≡◌, ◌⊎◌, inl, inr, refl, sym, ap, ◌∙◌, Bool, true, false, not, ◌&&◌, List, [],
  ◌∷◌, ◌++◌, length, drop, put_at, arith, All-append, length-append, length-put_at, length-drop,
  inc32, if◌then◌else◌, drop-add, drop-put_at_lt, put_at-append,
}
use open_ull_receiver.AirSession.{put32}
use open_ull_receiver.TrialPump.{Build, Trace, trace_terminal, trace_refused, trace_record}
use open_ull_receiver.TrialPump.Entries.{
  Message, encode, encode_all, IsMessage, Holds, encode_all-append, length-put32,
}

-- A write behind a first part of the array.
appended :
    (k : ℕ) (front tail p : List ℕ)
    → length front ≡ k
    → length p ≤ length tail
    → put_at k p (front ++ tail) ≡ (front ++ p) ++ drop (length p) tail
appended k front tail p e h =
    put_at-append k p front tail e h ∙ sym (append_assoc front p (drop (length p) tail))

-- The three writes of a message.
written :
    (k : ℕ) (front tail d p : List ℕ)
    → length front ≡ k
    → length d ≡ 4
    → 5 + length p ≤ length tail
    → put_at (k + 5) p (put_at (k + 4) (length p ∷ []) (put_at k d (front ++ tail)))
      ≡ (front ++ (d ++ (length p ∷ p))) ++ drop (5 + length p) tail
written k front tail d p e f h =
    let t1 = drop (length d) tail in
    let first = appended k front tail d e (omega arith) in
    let second =
      appended (k + 4) (front ++ d) t1 (length p ∷ []) (omega (arith, length-append front d))
        (omega (arith, length-drop (length d) tail)) in
    let third =
      appended (k + 5) ((front ++ d) ++ (length p ∷ [])) (drop 1 t1) p
        (omega (arith, length-append front d, length-append (front ++ d) (length p ∷ [])))
        (omega (arith, length-drop (length d) tail, length-drop 1 t1)) in
    let rest : drop (length p) (drop 1 t1) ≡ drop (5 + length p) tail = sym (
      drop-add 4 (1 + length p) (5 + length p) tail (omega arith)
      ∙ drop-add 1 (length p) (1 + length p) (drop 4 tail) refl
      ∙ ap (λ (n : ℕ). drop (length p) (drop 1 (drop n tail))) (sym f)) in
    let joined : ((front ++ d) ++ (length p ∷ [])) ++ p ≡ front ++ (d ++ (length p ∷ p)) =
      append_assoc (front ++ d) (length p ∷ []) p ∙ append_assoc front d (length p ∷ p) in
    rw (first, second, third, rest, joined) refl

-- What the code tests before it stores a message.
abbrev pub stored : Build → Trace → List ℕ → ℕ → Bool
stored b t p now = not (b.live && not (trace_terminal p)) && not (trace_refused b t p now)

pub stored_facts :
    (b : Build) (t : Trace) (p : List ℕ) (now : ℕ)
    → stored b t p now ≡ true
    → IsMessage (now - t.base, p) × (t.base ≤ now) × (t.used + 5 + length p ≤ b.trace_capacity)
unfolding trace_refused
stored_facts b t p now h = ground arith

abbrev store : Trace → List ℕ → ℕ → Trace
store t p now = record t {
  buffer =
      put_at (t.used + 5) p
        (put_at (t.used + 4) (length p ∷ []) (put_at t.used (put32 (now - t.base)) t.buffer));
  used = t.used + 5 + length p;
}

store-Holds :
    (b : Build) (t : Trace) (ms : List Message) (p : List ℕ) (now : ℕ)
    → Holds b t ms
    → IsMessage (now - t.base, p)
    → t.used + 5 + length p ≤ b.trace_capacity
    → Holds b (store t p now) (ms ++ ((now - t.base, p) ∷ []))
store-Holds b t ms p now v m fits =
    let k = length (encode_all ms) in
    let d = put32 (now - t.base) in
    let size : k + length v.tail ≡ b.trace_capacity - t.read = omega (
      arith,
      v.room,
      length-drop t.read t.buffer,
      ap (λ (l : List ℕ). length l) v.shape,
      length-append (encode_all ms) v.tail,
    ) in
    let x1 = put_at t.used d t.buffer in
    let x2 = put_at (t.used + 4) (length p ∷ []) x1 in
    let s1 : drop t.read x1 ≡ put_at k d (encode_all ms ++ v.tail) =
      drop-put_at_lt t.read k t.used d t.buffer (omega (arith, v.extent))
      ∙ ap (λ (l : List ℕ). put_at k d l) v.shape in
    let s2 =
      drop-put_at_lt t.read (k + 4) (t.used + 4) (length p ∷ []) x1 (omega (arith, v.extent)) in
    let s3 = drop-put_at_lt t.read (k + 5) (t.used + 5) p x2 (omega (arith, v.extent)) in
    record {
      tail = drop (5 + length p) v.tail;
      shape =
          s3
          ∙ ap (λ (l : List ℕ). put_at (k + 5) p l)
              (s2 ∙ ap (λ (l : List ℕ). put_at (k + 4) (length p ∷ []) l) s1)
          ∙ written k (encode_all ms) v.tail d p refl (length-put32 (now - t.base))
              (omega (arith, size, v.extent))
          ∙ ap (λ (l : List ℕ). l ++ drop (5 + length p) v.tail)
              (sym (encode_all-append ms (now - t.base, p)));
      extent = omega (
        arith,
        v.extent,
        ap (λ (l : List ℕ). length l) (encode_all-append ms (now - t.base, p)),
        length-append (encode_all ms) (encode (now - t.base, p)),
        length-append d (length p ∷ p),
        length-put32 (now - t.base),
      );
      room =
          length-put_at (t.used + 5) p x2
          ∙ length-put_at (t.used + 4) (length p ∷ []) x1
          ∙ length-put_at t.used d t.buffer
          ∙ v.room;
      within = fits;
      messages = All-append IsMessage ms ((now - t.base, p) ∷ []) v.messages (m, tt);
    }

record_cases :
    (b : Build) (t : Trace) (p : List ℕ) (now : ℕ)
    → t.recording ≡ true
    → ((stored b t p now ≡ true) × ((trace_record b t p now).0 ≡ store t p now))
      ⊎ ((stored b t p now ≡ false) × ((trace_record b t p now).0 ≡ t))
      ⊎ ((stored b t p now ≡ false)
          × ((trace_record b t p now).0 ≡ record t { lost = inc32 t.lost }))
unfolding trace_record
record_cases b t p now r = ground arith

-- What one call does to the messages of a trace that records.
abbrev pub Follows : Build → Trace → List Message → Trace → Type 0
Follows b t ms u = Holds b u ms × (u.base ≡ t.base) × (u.recording ≡ true) × (u.read ≡ t.read)

abbrev pub extended : Build → Trace → List Message → List ℕ → ℕ → List Message
extended b t ms p now = if stored b t p now then ms ++ ((now - t.base, p) ∷ []) else ms

pub trace_record-Follows :
    (b : Build) (t : Trace) (ms : List Message) (p : List ℕ) (now : ℕ)
    → Holds b t ms
    → t.recording ≡ true
    → Follows b t (extended b t ms p now) (trace_record b t p now).0
trace_record-Follows b t ms p now v r = elim (record_cases b t p now r) [
  | inl (s, e) ↦
      let (m, _, fits) = stored_facts b t p now s in
      rw (e, s) (store-Holds b t ms p now v m fits, refl, r, refl)
  | inr (inl (s, e)) ↦ rw (e, s) (v, refl, r, refl)
  | inr (inr (s, e)) ↦
      rw (e, s)
        (
          record {
            tail = v.tail;
            shape = v.shape;
            extent = v.extent;
            room = v.room;
            within = v.within;
            messages = v.messages;
          },
          refl,
          r,
          refl,
        )
]
