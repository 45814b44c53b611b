-- ===== src/Base/Rings.antt =====
-- What stands in a ring buffer of any size, from a place on, once round its end.
use Prim.Native.Nat.{ℕ, zero, suc, ◌+◌, ◌-◌, ◌<◌}
use mathlib.Core.Path.{◌≡◌, refl, ap, ap₂}
use mathlib.Core.Logic.{◌≢◌}
use mathlib.Core.List.{List, [], ◌∷◌, ◌++◌}
use native.Mathlib.Omega.{arith}
use open_ull_receiver.Base.Tests.{if◌then◌else◌, ◌==◌, leb}
use open_ull_receiver.Base.Lists.{length, get_or, set}

module _ {ℓ} {A : Type ℓ} (d : A) where
  get_or-set_here : (q : List A) (i : ℕ) (x : A) → i < length q → get_or (set q i x) i d ≡ x
  get_or-set_here [] i x h = absurd (omega arith)
  get_or-set_here (y ∷ q) zero x h = refl
  get_or-set_here (y ∷ q) (suc i) x h = get_or-set_here q i x (omega arith)

  get_or-set_elsewhere :
      (q : List A) (i j : ℕ) (x : A) → i ≢ j → get_or (set q i x) j d ≡ get_or q j d
  get_or-set_elsewhere [] i j x h = refl
  get_or-set_elsewhere (y ∷ q) zero zero x h = absurd (h refl)
  get_or-set_elsewhere (y ∷ q) zero (suc j) x h = refl
  get_or-set_elsewhere (y ∷ q) (suc i) zero x h = refl
  get_or-set_elsewhere (y ∷ q) (suc i) (suc j) x h =
      get_or-set_elsewhere q i j x (λ e. h (ap suc e))

  module _ (size : ℕ) where
    -- The place after `a`, and the one `n` further on.
    abbrev pub next_slot : ℕ → ℕ
    next_slot a = if a + 1 == size then 0 else a + 1

    abbrev pub slot : ℕ → ℕ → ℕ
    slot a n = if leb size (a + n) then a + n - size else a + n

    -- `n` entries from place `a` on.
    abbrev pub window : List A → ℕ → ℕ → List A
    window q a zero = []
    window q a (suc n) = get_or q a d ∷ window q (next_slot a) n

    -- A write to the place just behind them appends to them.
    pub window_append :
        (q : List A) (x : A) (n a i : ℕ)
        → length q ≡ size
        → a < size
        → n < size
        → i ≡ slot a n
        → window (set q i x) a (suc n) ≡ window q a n ++ (x ∷ [])
    window_append q x zero a i l p r e =
        let here : i ≡ a = ground arith in
        rw here (ap (λ (y : A). y ∷ []) (get_or-set_here q a x (omega arith)))
    window_append q x (suc n) a i l p r e =
        ap₂ (λ (y : A) (ys : List A). y ∷ ys) (get_or-set_elsewhere q i a x (ground arith))
          (window_append q x n (next_slot a) i l (ground arith) (omega arith) (ground arith))
