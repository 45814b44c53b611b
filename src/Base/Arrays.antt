-- ===== src/Base/Arrays.antt =====
-- Writes of one array into another.
use Prim.Native.Nat.{ℕ, zero, suc, ◌+◌, ◌≤◌}
use mathlib.Core.Path.{◌≡◌, refl, ap}
use mathlib.Core.List.{List, [], ◌∷◌}
use native.Mathlib.Omega.{arith}
use open_ull_receiver.Base.Lists.{length, take, drop, replicate, All}

-- `memcpy` of a whole array into another, `n` entries from its start; what does not fit is dropped.
module _ {ℓ} {A : Type ℓ} where
  abbrev pub overwrite : List A → List A → List A
  overwrite [] ys = ys
  overwrite (x ∷ xs) [] = []
  overwrite (x ∷ xs) (y ∷ ys) = x ∷ overwrite xs ys

  abbrev pub put_at : ℕ → List A → List A → List A
  put_at zero xs ys = overwrite xs ys
  put_at (suc n) xs [] = []
  put_at (suc n) xs (y ∷ ys) = y ∷ put_at n xs ys

  pub length-overwrite : (xs ys : List A) → length (overwrite xs ys) ≡ length ys
  length-overwrite [] ys = refl
  length-overwrite (x ∷ xs) [] = refl
  length-overwrite (x ∷ xs) (y ∷ ys) = ap suc (length-overwrite xs ys)

  pub length-put_at : (n : ℕ) (xs ys : List A) → length (put_at n xs ys) ≡ length ys
  length-put_at zero xs ys = length-overwrite xs ys
  length-put_at (suc n) xs [] = refl
  length-put_at (suc n) xs (y ∷ ys) = ap suc (length-put_at n xs ys)

  -- What stood before the place is still there, and what was put there is read back.
  pub take-put_at : (n : ℕ) (xs ys : List A) → take n (put_at n xs ys) ≡ take n ys
  take-put_at zero xs ys = refl
  take-put_at (suc n) xs [] = refl
  take-put_at (suc n) xs (y ∷ ys) = ap (λ (l : List A). y ∷ l) (take-put_at n xs ys)

  take-overwrite :
      (xs ys : List A) → length xs ≤ length ys → take (length xs) (overwrite xs ys) ≡ xs
  take-overwrite [] ys h = refl
  take-overwrite (x ∷ xs) [] h = absurd (omega arith)
  take-overwrite (x ∷ xs) (y ∷ ys) h =
      ap (λ (l : List A). x ∷ l) (take-overwrite xs ys (omega arith))

  pub read-put_at :
      (n : ℕ) (xs ys : List A)
      → n + length xs ≤ length ys
      → take (length xs) (drop n (put_at n xs ys)) ≡ xs
  read-put_at zero xs ys h = take-overwrite xs ys (omega arith)
  read-put_at (suc n) [] [] h = refl
  read-put_at (suc n) (x ∷ xs) [] h = absurd (omega arith)
  read-put_at (suc n) xs (y ∷ ys) h = read-put_at n xs ys (omega arith)

  -- A part that ends before the place is unchanged.
  pub take_below : (k n : ℕ) (xs ys : List A) → k ≤ n → take k (put_at n xs ys) ≡ take k ys
  take_below zero n xs ys h = refl
  take_below (suc k) zero xs ys h = absurd (omega arith)
  take_below (suc k) (suc n) xs [] h = refl
  take_below (suc k) (suc n) xs (y ∷ ys) h =
      ap (λ (l : List A). y ∷ l) (take_below k n xs ys (omega arith))

  pub part_below :
      (m k n : ℕ) (xs ys : List A)
      → m + k ≤ n
      → take k (drop m (put_at n xs ys)) ≡ take k (drop m ys)
  part_below zero k n xs ys h = take_below k n xs ys (omega arith)
  part_below (suc m) k zero xs ys h = absurd (omega arith)
  part_below (suc m) k (suc n) xs [] h = refl
  part_below (suc m) k (suc n) xs (y ∷ ys) h = part_below m k n xs ys (omega arith)

module _ {ℓ κ} {A : Type ℓ} (P : A → Type κ) where
  pub All-put_at : (n : ℕ) (xs ys : List A) → All P xs → All P ys → All P (put_at n xs ys)
  All-put_at zero [] ys p q = q
  All-put_at zero (x ∷ xs) [] p q = tt
  All-put_at zero (x ∷ xs) (y ∷ ys) p q = (p.0, All-put_at zero xs ys (p.1) (q.1))
  All-put_at (suc n) xs [] p q = tt
  All-put_at (suc n) xs (y ∷ ys) p q = (q.0, All-put_at n xs ys p (q.1))

  pub All-take : (n : ℕ) (xs : List A) → All P xs → All P (take n xs)
  All-take zero xs p = tt
  All-take (suc n) [] p = tt
  All-take (suc n) (x ∷ xs) p = (p.0, All-take n xs (p.1))

  pub All-replicate : (n : ℕ) (a : A) → P a → All P (replicate n a)
  All-replicate zero a p = tt
  All-replicate (suc n) a p = (p, All-replicate n a p)
