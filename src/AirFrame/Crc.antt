-- ===== src/AirFrame/Crc.antt =====
-- The checksum of firmware/radio/src/air_frame.c, computed piece by piece.
use open_ull_receiver.Base.{
  ℕ, zero, suc, ◌/◌, ◌^◌, ◌<◌, ◌≡◌, refl, List, [], ◌∷◌, ◌++◌, All, IsByte, bit_xor, bit_and, arith,
  ◌==◌, if◌then◌else◌,
}
use open_ull_receiver.Base.Bits.{bit_xor-lt}
use open_ull_receiver.AirFrame.{crc32_bit, crc32_bits, crc32_bytes, crc32_continue, not32}

crc32_bytes-append :
    (crc : ℕ) (xs ys : List ℕ) → crc32_bytes crc (xs ++ ys) ≡ crc32_bytes (crc32_bytes crc xs) ys
crc32_bytes-append crc [] ys = refl
crc32_bytes-append crc (x ∷ xs) ys = crc32_bytes-append (crc32_bits 8 (bit_xor crc x)) xs ys

crc32_bit-lt : (crc : ℕ) → crc < 2 ^ 32 → crc32_bit crc < 2 ^ 32
crc32_bit-lt crc h =
    bit_xor-lt 32 (crc / 2) (if bit_and crc 1 == 0 then 0 else 0xedb88320) (omega arith)
      (ground arith)

crc32_bits-lt : (n crc : ℕ) → crc < 2 ^ 32 → crc32_bits n crc < 2 ^ 32
crc32_bits-lt zero crc h = h
crc32_bits-lt (suc n) crc h = crc32_bits-lt n (crc32_bit crc) (crc32_bit-lt crc h)

crc32_bytes-lt :
    (crc : ℕ) (xs : List ℕ) → All IsByte xs → crc < 2 ^ 32 → crc32_bytes crc xs < 2 ^ 32
crc32_bytes-lt crc [] a h = h
crc32_bytes-lt crc (x ∷ xs) a h =
    crc32_bytes-lt (crc32_bits 8 (bit_xor crc x)) xs (a.1)
      (crc32_bits-lt 8 (bit_xor crc x) (bit_xor-lt 32 crc x h (omega (arith, a.0))))

-- A checksum of bytes is a number of 32 bits.
pub crc32_continue-lt :
    (seed : ℕ) (xs : List ℕ) → All IsByte xs → seed < 2 ^ 32 → crc32_continue seed xs < 2 ^ 32
unfolding crc32_continue
crc32_continue-lt seed xs a h =
    bit_xor-lt 32 (crc32_bytes (not32 seed) xs) 0xffffffff
      (crc32_bytes-lt (not32 seed) xs a (bit_xor-lt 32 seed 0xffffffff h (omega arith)))
      (omega arith)
