-- ===== src/PcmStream/Ordered.antt =====
-- The order of the numbers of requests and accepted responses in firmware/radio/src/pcm_stream.c.
use open_ull_receiver.Base.{
  ℕ, suc, ◌+◌, ◌%◌, ◌^◌, ◌≤◌, ◌<◌, ◌≡◌, ap, true, false, ◌⊎◌, List, [], ◌∷◌, arith, inl, inr,
  if◌then◌else◌,
}
use open_ull_receiver.PcmStream.{Stream, Phase}
use open_ull_receiver.PcmStream.Due.{is_busy}

-- Numbers that fall from below a bound.
abbrev pub Falls : ℕ → List ℕ → Type 0
Falls bound [] = Unit
Falls bound (n ∷ ns) = (n < bound) × Falls n ns

pub Falls-more : (a b : ℕ) (ns : List ℕ) → a ≤ b → Falls a ns → Falls b ns
Falls-more a b [] l h = tt
Falls-more a b (n ∷ ns) l h = (omega (arith, l, h.0), h.1)

-- The number below which all accepted ones lie: that of the previous request if there is one, or
-- else of the present or of the next.
abbrev pub limit : Stream → ℕ
limit s =
    if s.have_previous
    then s.previous_seq
    else if is_busy s.phase
    then s.worker.seq
    else suc s.worker.seq

pub record Ordered (s : Stream) (accepted : List ℕ) : Type 0 where
  pub falls : Falls (limit s) accepted
  pub past : s.have_previous ≡ true → s.previous_seq ≤ s.worker.seq
  pub behind : s.have_previous ≡ true → is_busy s.phase ≡ true → s.previous_seq < s.worker.seq
  pub seq : s.worker.seq < 2 ^ 32

pub sent :
    (s u : Stream) (accepted : List ℕ)
    → s.phase ≡ Phase.top
    → s.worker.seq + 1 < 2 ^ 32
    → u.have_previous ≡ s.have_previous
    → u.previous_seq ≡ s.previous_seq
    → u.worker.seq ≡ (s.worker.seq + 1) % 2 ^ 32
    → is_busy u.phase ≡ true
    → Ordered s accepted
    → Ordered u accepted
sent s u accepted top low a b c busy h =
    let idle : is_busy s.phase ≡ false = ap is_busy top in
    let same : limit s ≤ limit u = ground (arith, h.past, low) in
    record {
      falls = Falls-more (limit s) (limit u) accepted same h.falls;
      past = λ e. ground (arith, h.past);
      behind = λ e _. ground (arith, h.past);
      seq = omega (arith, c, low);
    }

-- The previous request stays, or is forgotten, where nothing is in the exchange.
pub rested :
    (s u : Stream) (accepted : List ℕ)
    → u.worker.seq ≡ s.worker.seq
    → (u.have_previous ≡ s.have_previous) ⊎ (u.have_previous ≡ false)
    → u.previous_seq ≡ s.previous_seq
    → (is_busy u.phase ≡ false) ⊎ (u.phase ≡ s.phase)
    → Ordered s accepted
    → Ordered u accepted
rested s u accepted a (inl b) c (inl d) h =
    let low : limit s ≤ limit u = ground (arith, h.past) in
    record {
      falls = Falls-more (limit s) (limit u) accepted low h.falls;
      past = λ e. ground (arith, h.past);
      behind = λ e f. absurd (ground arith);
      seq = omega (arith, a, h.seq);
    }
rested s u accepted a (inl b) c (inr d) h =
    let same : is_busy u.phase ≡ is_busy s.phase = ap is_busy d in
    let low : limit s ≤ limit u = ground (arith, h.past) in
    record {
      falls = Falls-more (limit s) (limit u) accepted low h.falls;
      past = λ e. ground (arith, h.past);
      behind = λ e f. ground (arith, h.behind);
      seq = omega (arith, a, h.seq);
    }
rested s u accepted a (inr b) c d h =
    let low : limit s ≤ limit u = ground (arith, h.past, h.behind) in
    record {
      falls = Falls-more (limit s) (limit u) accepted low h.falls;
      past = λ e. absurd (ground arith);
      behind = λ e f. absurd (ground arith);
      seq = omega (arith, a, h.seq);
    }
