-- ===== src/AudioSource/Contents.antt =====
-- The frames that a `struct ull_audio_source` of firmware/radio/src/audio_source.c holds, oldest
-- first, and its representation invariant.
use open_ull_receiver.Base.{
  ℕ, zero, suc, ◌+◌, ◌-◌, ◌%◌, ◌^◌, ◌≤◌, ◌<◌, ◌≡◌, refl, ap, ap₂, ◌≢◌, ◌∙◌, List, [], ◌∷◌, ◌++◌,
  length, get_or, set, drop, sub32, arith,
}
use open_ull_receiver.Base.Bits.{bit_and_ones}
use open_ull_receiver.AudioSource.{Source, Frame, silence, index, init}

pub index_mod : (n : ℕ) → index n ≡ n % 4
index_mod n = bit_and_ones 2 n

-- `n` frames from slot `h` on, going round at four.
abbrev pub window : List Frame → ℕ → ℕ → List Frame
window q h zero = []
window q h (suc n) = get_or q h silence ∷ window q ((h + 1) % 4) n

abbrev pub occupancy : Source → ℕ
occupancy s = sub32 s.written s.read

abbrev pub contents : Source → List Frame
contents s = window s.queue (s.read % 4) (occupancy s)

pub record IsValid (s : Source) : Type 0 where
  pub storage : length s.queue ≡ 4
  pub written : s.written < 2 ^ 32
  pub read : s.read < 2 ^ 32
  pub selected : s.selected < 2 ^ 32
  pub discarded : s.discarded < 2 ^ 32
  pub underflows : s.underflows < 2 ^ 32
  pub fits : occupancy s ≤ 4

pub length-window : (q : List Frame) (h n : ℕ) → length (window q h n) ≡ n
length-window q h zero = refl
length-window q h (suc n) = ap suc (length-window q ((h + 1) % 4) n)

get_or-set_here :
    (q : List Frame) (i : ℕ) (f : Frame) → i < length q → get_or (set q i f) i silence ≡ f
get_or-set_here [] i f h = absurd (omega arith)
get_or-set_here (x ∷ q) zero f h = refl
get_or-set_here (x ∷ q) (suc i) f h = get_or-set_here q i f (omega arith)

get_or-set_elsewhere :
    (q : List Frame) (i j : ℕ) (f : Frame)
    → i ≢ j
    → get_or (set q i f) j silence ≡ get_or q j silence
get_or-set_elsewhere [] i j f h = refl
get_or-set_elsewhere (x ∷ q) zero zero f h = absurd (h refl)
get_or-set_elsewhere (x ∷ q) zero (suc j) f h = refl
get_or-set_elsewhere (x ∷ q) (suc i) zero f h = refl
get_or-set_elsewhere (x ∷ q) (suc i) (suc j) f h = get_or-set_elsewhere q i j f (λ e. h (ap suc e))

-- A write to the slot just behind a window appends to it.
pub window_append :
    (q : List Frame) (f : Frame) (n h i : ℕ)
    → length q ≡ 4
    → h < 4
    → n < 4
    → i ≡ (h + n) % 4
    → window (set q i f) h (suc n) ≡ window q h n ++ (f ∷ [])
window_append q f zero h i l p r e =
    let here : i ≡ h = omega arith in
    rw here (ap (λ (x : Frame). x ∷ []) (get_or-set_here q h f (omega arith)))
window_append q f (suc n) h i l p r e =
    ap₂ ◌∷◌ (get_or-set_elsewhere q i h f (omega arith))
      (window_append q f n ((h + 1) % 4) i l (omega arith) (omega arith) (omega arith))

-- Skipping slots drops the oldest frames.
pub window_skip :
    (q : List Frame) (d n h : ℕ)
    → h < 4
    → d ≤ n
    → window q ((h + d) % 4) (n - d) ≡ drop d (window q h n)
window_skip q zero n h p r = ap₂ (λ (a b : ℕ). window q a b) (omega arith) (omega arith)
window_skip q (suc d) zero h p r = absurd (omega arith)
window_skip q (suc d) (suc n) h p r =
    ap₂ (λ (a b : ℕ). window q a b) (omega arith) (omega arith)
    ∙ window_skip q d n ((h + 1) % 4) (omega arith) (omega arith)

pub init-IsValid : IsValid init × (contents init ≡ [])
unfolding init
init-IsValid = (
  record {
    storage = refl;
    written = omega arith;
    read = omega arith;
    selected = omega arith;
    discarded = omega arith;
    underflows = omega arith;
    fits = omega arith;
  },
  refl,
)
