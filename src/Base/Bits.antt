-- ===== src/Base/Bits.antt =====
-- Laws of `&`, `|` and `^` at variables, from the recursion on binary digits that the native
-- operations stand for.
use Prim.Native.Nat.{
  ℕ, zero, suc, ◌+◌, ◌-◌, ◌*◌, ◌/◌, ◌%◌, ◌^◌, ◌≤◌, ◌<◌, min, max, bit_and, bit_or, bit_xor, digits,
  bitwise, differ, bit_and-bitwise, bit_or-bitwise, bit_xor-bitwise,
}
use mathlib.Core.Path.{◌≡◌, refl, sym, ◌∙◌, ap}
use native.Mathlib.Nat.{
  pow-suc, one-le-pow, add-mul-mod_self_left, mod-eq_of_lt, mod-lt, div-add-mod,
}
use native.Mathlib.Omega.{arith}

module _ (rest : ℕ → ℕ) (op : ℕ → ℕ → ℕ) where
  digits-zero : (n b : ℕ) → digits rest op n 0 b ≡ rest b
  digits-zero zero b = refl
  digits-zero (suc n) b = refl

  -- Any count of digits that covers the first number gives the same result.
  digits_count : (a n m b : ℕ) → a ≤ n → a ≤ m → digits rest op n a b ≡ digits rest op m a b
  digits_count zero n m b p q = digits-zero n b ∙ sym (digits-zero m b)
  digits_count (suc a) zero m b p q = absurd (omega arith)
  digits_count (suc a) (suc n) zero b p q = absurd (omega arith)
  digits_count (suc a) (suc n) (suc m) b p q =
      ap (λ (t : ℕ). t * 2 + op (suc a % 2) (b % 2))
        (digits_count (suc a / 2) n m (b / 2) (omega arith) (omega arith))

  -- The lowest digit, and the rest.
  bitwise_low :
      (a b : ℕ)
      → 0 < a
      → bitwise rest op a b ≡ bitwise rest op (a / 2) (b / 2) * 2 + op (a % 2) (b % 2)
  bitwise_low zero b h = absurd (omega arith)
  bitwise_low (suc a) b h =
      ap (λ (t : ℕ). t * 2 + op (suc a % 2) (b % 2))
        (digits_count (suc a / 2) a (suc a / 2) (b / 2) (omega arith) (omega arith))

pub bit_and_low : (a b : ℕ) → bit_and a b ≡ bit_and (a / 2) (b / 2) * 2 + min (a % 2) (b % 2)
bit_and_low zero b = omega (arith, bit_and-bitwise 0 b, bit_and-bitwise 0 (b / 2))
bit_and_low (suc a) b = omega (
  arith,
  bit_and-bitwise (suc a) b,
  bit_and-bitwise (suc a / 2) (b / 2),
  bitwise_low (λ _. zero) min (suc a) b,
)

pub bit_or_low : (a b : ℕ) → bit_or a b ≡ bit_or (a / 2) (b / 2) * 2 + max (a % 2) (b % 2)
bit_or_low zero b = omega (arith, bit_or-bitwise 0 b, bit_or-bitwise 0 (b / 2))
bit_or_low (suc a) b = omega (
  arith,
  bit_or-bitwise (suc a) b,
  bit_or-bitwise (suc a / 2) (b / 2),
  bitwise_low (λ y. y) max (suc a) b,
)

-- The exclusive or of two digits is their sum modulo two.
differ_digits : (x y : ℕ) → x < 2 → y < 2 → differ x y ≡ (x + y) % 2
differ_digits zero y p q = omega arith
differ_digits (suc zero) zero p q = refl
differ_digits (suc zero) (suc zero) p q = refl
differ_digits (suc zero) (suc (suc y)) p q = absurd (omega arith)
differ_digits (suc (suc x)) y p q = absurd (omega arith)

differ_sum : (a b : ℕ) → differ (a % 2) (b % 2) ≡ (a + b) % 2
differ_sum a b = omega (arith, differ_digits (a % 2) (b % 2) (omega arith) (omega arith))

pub bit_xor_low : (a b : ℕ) → bit_xor a b ≡ bit_xor (a / 2) (b / 2) * 2 + (a + b) % 2
bit_xor_low zero b = omega (arith, bit_xor-bitwise 0 b, bit_xor-bitwise 0 (b / 2))
bit_xor_low (suc a) b = omega (
  arith,
  bit_xor-bitwise (suc a) b,
  bit_xor-bitwise (suc a / 2) (b / 2),
  bitwise_low (λ y. y) differ (suc a) b,
  differ_sum (suc a) b,
)

double-pow : (q k : ℕ) → q * 2 ^ suc k ≡ 2 * (q * 2 ^ k)
double-pow q k = omega (arith, ap (λ (t : ℕ). q * t) (pow-suc 2 k))

bit_and_nothing : (n a : ℕ) → a ≤ n → bit_and a 0 ≡ 0
bit_and_nothing n zero h = refl
bit_and_nothing zero (suc a) h = absurd (omega arith)
bit_and_nothing (suc n) (suc a) h =
    omega (arith, bit_and_low (suc a) 0, bit_and_nothing n (suc a / 2) (omega arith))

pub zero-bit_and : (b : ℕ) → bit_and 0 b ≡ 0
zero-bit_and b = omega (arith, bit_and-bitwise 0 b)

bit_or_nothing : (n a : ℕ) → a ≤ n → bit_or a 0 ≡ a
bit_or_nothing n zero h = refl
bit_or_nothing zero (suc a) h = absurd (omega arith)
bit_or_nothing (suc n) (suc a) h =
    omega (arith, bit_or_low (suc a) 0, bit_or_nothing n (suc a / 2) (omega arith))

pub bit_xor-zero : (n a : ℕ) → a ≤ n → bit_xor a 0 ≡ a
bit_xor-zero n zero h = refl
bit_xor-zero zero (suc a) h = absurd (omega arith)
bit_xor-zero (suc n) (suc a) h =
    omega (arith, bit_xor_low (suc a) 0, bit_xor-zero n (suc a / 2) (omega arith))

-- The remainder by twice a number, digit by digit.
mod_twice : (a t : ℕ) → 0 < t → a % (2 * t) ≡ a / 2 % t * 2 + a % 2
mod_twice a t h =
    ap (λ (x : ℕ). x % (2 * t)) apart
    ∙ add-mul-mod_self_left low (2 * t) (a / 2 / t)
    ∙ mod-eq_of_lt small
  where
    low : ℕ
    low = a / 2 % t * 2 + a % 2

    small : low < 2 * t
    small = omega (arith, mod-lt (a / 2) h)

    apart : a ≡ low + 2 * t * (a / 2 / t)
    apart = omega (arith, div-add-mod (a / 2) t)

-- A mask of `k` ones keeps the `k` low digits.
bit_and_mask : (k a m : ℕ) → m + 1 ≡ 2 ^ k → bit_and a m ≡ a % 2 ^ k
bit_and_mask zero a zero e = omega (arith, bit_and_nothing a a (omega arith))
bit_and_mask zero a (suc m) e = absurd (omega arith)
bit_and_mask (suc k) a m e =
    let small : m / 2 + 1 ≡ 2 ^ k = omega (arith, pow-suc 2 k) in
    ground (
      arith,
      bit_and_low a m,
      bit_and_mask k (a / 2) (m / 2) small,
      pow-suc 2 k,
      mod_twice a (2 ^ k),
    )

pub bit_and_ones : (k a : ℕ) → bit_and a (2 ^ k - 1) ≡ a % 2 ^ k
bit_and_ones k a = bit_and_mask k a (2 ^ k - 1) (omega (arith, one-le-pow k 2))

-- The or of two numbers in different digits is their sum.
bit_or_split : (k q r p : ℕ) → r < 2 ^ k → p ≡ q * 2 ^ k → bit_or p r ≡ p + r
bit_or_split zero q zero p h e = omega (arith, bit_or_nothing p p (omega arith))
bit_or_split zero q (suc r) p h e = absurd (omega arith)
bit_or_split (suc k) q r p h e =
    let whole : p ≡ 2 * (q * 2 ^ k) = omega (arith, double-pow q k) in
    omega (
      arith,
      bit_or_low p r,
      bit_or_split k q (r / 2) (p / 2) (omega (arith, pow-suc 2 k)) (omega arith),
    )

pub bit_or_apart : (k q r : ℕ) → r < 2 ^ k → bit_or (q * 2 ^ k) r ≡ q * 2 ^ k + r
bit_or_apart k q r h = bit_or_split k q r (q * 2 ^ k) h refl

-- Exclusive or is associative, commutative and its own inverse, and stays within a width.
pub bit_xor_assoc :
    (n a b c : ℕ) → a ≤ n → b ≤ n → c ≤ n → bit_xor (bit_xor a b) c ≡ bit_xor a (bit_xor b c)
bit_xor_assoc zero zero zero zero p q r = refl
bit_xor_assoc zero (suc a) b c p q r = absurd (omega arith)
bit_xor_assoc zero zero (suc b) c p q r = absurd (omega arith)
bit_xor_assoc zero zero zero (suc c) p q r = absurd (omega arith)
bit_xor_assoc (suc n) a b c p q r = ground (
  arith,
  bit_xor_low (bit_xor a b) c,
  bit_xor_low a (bit_xor b c),
  bit_xor_low a b,
  bit_xor_low b c,
  bit_xor_assoc n (a / 2) (b / 2) (c / 2) (omega arith) (omega arith) (omega arith),
)

pub bit_xor_comm : (n a b : ℕ) → a ≤ n → b ≤ n → bit_xor a b ≡ bit_xor b a
bit_xor_comm zero zero zero p q = refl
bit_xor_comm zero (suc a) b p q = absurd (omega arith)
bit_xor_comm zero zero (suc b) p q = absurd (omega arith)
bit_xor_comm (suc n) a b p q = omega (
  arith,
  bit_xor_low a b,
  bit_xor_low b a,
  bit_xor_comm n (a / 2) (b / 2) (omega arith) (omega arith),
)

pub bit_xor_self : (n a : ℕ) → a ≤ n → bit_xor a a ≡ 0
bit_xor_self n zero h = refl
bit_xor_self zero (suc a) h = absurd (omega arith)
bit_xor_self (suc n) (suc a) h =
    omega (arith, bit_xor_low (suc a) (suc a), bit_xor_self n (suc a / 2) (omega arith))

pub bit_xor-lt : (k a b : ℕ) → a < 2 ^ k → b < 2 ^ k → bit_xor a b < 2 ^ k
bit_xor-lt zero zero zero p q = omega arith
bit_xor-lt zero (suc a) b p q = absurd (omega arith)
bit_xor-lt zero zero (suc b) p q = absurd (omega arith)
bit_xor-lt (suc k) a b p q = omega (
  arith,
  bit_xor_low a b,
  pow-suc 2 k,
  bit_xor-lt k (a / 2) (b / 2) (omega (arith, pow-suc 2 k)) (omega (arith, pow-suc 2 k)),
)

pub bit_or-lt : (k a b : ℕ) → a < 2 ^ k → b < 2 ^ k → bit_or a b < 2 ^ k
bit_or-lt zero zero zero p q = omega arith
bit_or-lt zero (suc a) b p q = absurd (omega arith)
bit_or-lt zero zero (suc b) p q = absurd (omega arith)
bit_or-lt (suc k) a b p q = omega (
  arith,
  bit_or_low a b,
  pow-suc 2 k,
  bit_or-lt k (a / 2) (b / 2) (omega (arith, pow-suc 2 k)) (omega (arith, pow-suc 2 k)),
)

pub bit_or_comm : (n a b : ℕ) → a ≤ n → b ≤ n → bit_or a b ≡ bit_or b a
bit_or_comm zero zero zero p q = refl
bit_or_comm zero (suc a) b p q = absurd (omega arith)
bit_or_comm zero zero (suc b) p q = absurd (omega arith)
bit_or_comm (suc n) a b p q = omega (
  arith,
  bit_or_low a b,
  bit_or_low b a,
  bit_or_comm n (a / 2) (b / 2) (omega arith) (omega arith),
)
