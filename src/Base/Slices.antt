-- ===== src/Base/Slices.antt =====
-- Parts of an array from a place on, and what a write does to them.
use Prim.Native.Nat.{ℕ, zero, suc, ◌+◌, ◌≤◌}
use mathlib.Core.Path.{◌≡◌, refl, ap}
use mathlib.Core.List.{List, [], ◌∷◌, ◌++◌}
use native.Mathlib.Omega.{arith}
use open_ull_receiver.Base.Lists.{length, drop}
use open_ull_receiver.Base.Arrays.{overwrite, put_at}

module _ {ℓ} {A : Type ℓ} where
  -- A drop in two parts.
  pub drop-add : (n m k : ℕ) (xs : List A) → k ≡ n + m → drop k xs ≡ drop m (drop n xs)
  drop-add zero m k xs e = ap (λ (j : ℕ). drop j xs) (omega arith)
  drop-add (suc n) zero zero [] e = refl
  drop-add (suc n) (suc m) zero [] e = refl
  drop-add (suc n) zero (suc k) [] e = refl
  drop-add (suc n) (suc m) (suc k) [] e = refl
  drop-add (suc n) m zero (x ∷ xs) e = absurd (omega arith)
  drop-add (suc n) m (suc k) (x ∷ xs) e = drop-add n m k xs (omega arith)

  -- What is put at a later place, seen from an earlier one.
  pub drop-put_at_lt :
      (n m k : ℕ) (xs ys : List A) → k ≡ n + m → drop n (put_at k xs ys) ≡ put_at m xs (drop n ys)
  drop-put_at_lt zero m k xs ys e = ap (λ (j : ℕ). put_at j xs ys) (omega arith)
  drop-put_at_lt (suc n) m zero xs ys e = absurd (omega arith)
  drop-put_at_lt (suc n) zero (suc k) [] [] e = refl
  drop-put_at_lt (suc n) zero (suc k) (x ∷ xs) [] e = refl
  drop-put_at_lt (suc n) (suc m) (suc k) xs [] e = refl
  drop-put_at_lt (suc n) m (suc k) xs (y ∷ ys) e = drop-put_at_lt n m k xs ys (omega arith)

  -- What is put does not reach what stands behind it.
  pub drop-put_at_le :
      (k n : ℕ) (xs ys : List A) → n + length xs ≤ k → drop k (put_at n xs ys) ≡ drop k ys
  drop-put_at_le k zero [] ys h = refl
  drop-put_at_le k zero (x ∷ xs) [] h = refl
  drop-put_at_le zero zero (x ∷ xs) (y ∷ ys) h = absurd (omega arith)
  drop-put_at_le (suc k) zero (x ∷ xs) (y ∷ ys) h = drop-put_at_le k zero xs ys (omega arith)
  drop-put_at_le k (suc n) xs [] h = refl
  drop-put_at_le zero (suc n) xs (y ∷ ys) h = absurd (omega arith)
  drop-put_at_le (suc k) (suc n) xs (y ∷ ys) h = drop-put_at_le k n xs ys (omega arith)

  overwrite_lem :
      (xs ys : List A) → length xs ≤ length ys → overwrite xs ys ≡ xs ++ drop (length xs) ys
  overwrite_lem [] ys h = refl
  overwrite_lem (x ∷ xs) [] h = absurd (omega arith)
  overwrite_lem (x ∷ xs) (y ∷ ys) h = ap (λ (l : List A). x ∷ l) (overwrite_lem xs ys (omega arith))

  -- A write that begins where a first part ends.
  pub put_at-append :
      (n : ℕ) (xs fs bs : List A)
      → length fs ≡ n
      → length xs ≤ length bs
      → put_at n xs (fs ++ bs) ≡ fs ++ (xs ++ drop (length xs) bs)
  put_at-append zero xs [] bs e h = overwrite_lem xs bs h
  put_at-append (suc n) xs [] bs e h = absurd (omega arith)
  put_at-append zero xs (a ∷ fs) bs e h = absurd (omega arith)
  put_at-append (suc n) xs (a ∷ fs) bs e h =
      ap (λ (l : List A). a ∷ l) (put_at-append n xs fs bs (omega arith) h)
