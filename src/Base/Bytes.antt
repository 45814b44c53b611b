-- ===== src/Base/Bytes.antt =====
-- Comparison of the first bytes of two arrays, and their reversal.
use Prim.Native.Nat.{ℕ, zero, suc}
use mathlib.Core.Path.{◌≡◌, refl, ap₂}
use mathlib.Core.Bool.{Bool, true, false, ◌&&◌}
use mathlib.Core.List.{List, [], ◌∷◌, ◌++◌}
use native.Mathlib.Omega.{arith}
use open_ull_receiver.Base.Tests.{◌==◌}
use open_ull_receiver.Base.Lists.{length, length-append}

-- `memcmp(xs, ys, n) == 0`
unfoldable pub same_bytes : ℕ → List ℕ → List ℕ → Bool
same_bytes zero xs ys = true
same_bytes (suc n) [] ys = false
same_bytes (suc n) (x ∷ xs) [] = false
same_bytes (suc n) (x ∷ xs) (y ∷ ys) = x == y && same_bytes n xs ys

pub same_bytes_equal :
    (n : ℕ) (xs ys : List ℕ) → length xs ≡ n → length ys ≡ n → same_bytes n xs ys ≡ true → xs ≡ ys
unfolding same_bytes
same_bytes_equal zero [] [] p q h = refl
same_bytes_equal zero [] (y ∷ ys) p q h = absurd (omega arith)
same_bytes_equal zero (x ∷ xs) ys p q h = absurd (omega arith)
same_bytes_equal (suc n) [] ys p q h = absurd (omega arith)
same_bytes_equal (suc n) (x ∷ xs) [] p q h = absurd (omega arith)
same_bytes_equal (suc n) (x ∷ xs) (y ∷ ys) p q h =
    ap₂ (λ (z : ℕ) (zs : List ℕ). z ∷ zs) (ground arith)
      (same_bytes_equal n xs ys (omega arith) (omega arith) (ground arith))

pub same_bytes_refl : (n : ℕ) (xs : List ℕ) → length xs ≡ n → same_bytes n xs xs ≡ true
unfolding same_bytes
same_bytes_refl zero xs h = refl
same_bytes_refl (suc n) [] h = absurd (omega arith)
same_bytes_refl (suc n) (x ∷ xs) h = ground (arith, same_bytes_refl n xs (omega arith))

unfoldable pub reversed : List ℕ → List ℕ
reversed [] = []
reversed (x ∷ xs) = reversed xs ++ (x ∷ [])

pub length-reversed : (xs : List ℕ) → length (reversed xs) ≡ length xs
unfolding reversed
length-reversed [] = refl
length-reversed (x ∷ xs) = omega (arith, length-append (reversed xs) (x ∷ []), length-reversed xs)
