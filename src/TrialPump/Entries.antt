-- ===== src/TrialPump/Entries.antt =====
-- The trace of firmware/radio/src/trial_pump.c as a list of its messages.
use mathlib.Core.List.{append_assoc, append-nil}
use open_ull_receiver.Base.{
  ℕ, ◌+◌, ◌≤◌, ◌<◌, ◌^◌, ◌≡◌, refl, sym, ap, ◌∙◌, List, [], ◌∷◌, ◌++◌, length, take, drop, arith,
  All, take_over, drop_over,
}
use open_ull_receiver.AirSession.{put16, put32}
use open_ull_receiver.SpiFrame.{get32_at}
use open_ull_receiver.TrialPump.{Build, Trace, byte_at}

-- The time since the base, and the bytes.
abbrev pub Message : Type 0
Message = ℕ × List ℕ

abbrev pub encode : Message → List ℕ
encode (delta, p) = put32 delta ++ (length p ∷ p)

abbrev pub encode_all : List Message → List ℕ
encode_all [] = []
encode_all (m ∷ ms) = encode m ++ encode_all ms

abbrev pub IsMessage : Message → Type 0
IsMessage (delta, p) = (delta < 2 ^ 32) × (0 < length p) × (length p ≤ 103)

-- The trace holds exactly these messages that have not been read.
pub record Holds (b : Build) (t : Trace) (ms : List Message) : Type 0 where
  pub tail : List ℕ
  pub shape : drop t.read t.buffer ≡ encode_all ms ++ tail
  pub extent : t.read + length (encode_all ms) ≡ t.used
  pub room : length t.buffer ≡ b.trace_capacity
  pub within : t.used ≤ b.trace_capacity
  pub messages : All IsMessage ms

pub encode_all-append :
    (ms : List Message) (m : Message) → encode_all (ms ++ (m ∷ [])) ≡ encode_all ms ++ encode m
encode_all-append [] m = append-nil (encode m)
encode_all-append (n ∷ ms) m =
    ap (λ (l : List ℕ). encode n ++ l) (encode_all-append ms m)
    ∙ sym (append_assoc (encode n) (encode_all ms) (encode m))

pub length-put32 : (v : ℕ) → length (put32 v) ≡ 4
unfolding put32 put16
length-put32 v = refl

pub length-encode : (delta : ℕ) (p : List ℕ) → length (encode (delta, p)) ≡ 5 + length p
unfolding put32 put16
length-encode delta p = omega arith

-- The first message as it is read.
pub first_read :
    (delta : ℕ) (p rest : List ℕ)
    → delta < 2 ^ 32
    → let s = encode (delta, p) ++ rest in
      (get32_at 0 s ≡ delta)
      × (byte_at s 4 ≡ length p)
      × (take (length p) (drop 5 s) ≡ p)
      × (drop (5 + length p) s ≡ rest)
unfolding put32 put16
first_read delta p rest h = (
  omega arith,
  refl,
  take_over (length p) p rest refl,
  drop_over (5 + length p) 0 (5 + length p) (encode (delta, p)) rest (omega arith) (omega arith),
)
