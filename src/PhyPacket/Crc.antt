-- ===== src/PhyPacket/Crc.antt =====
-- The check value of firmware/radio/src/phy_packet.c: a receiver that runs the PDU and the check
-- value through the same register ends at zero.
use open_ull_receiver.Base.{
  ℕ, zero, suc, ◌+◌, ◌*◌, ◌/◌, ◌%◌, ◌^◌, ◌<◌, ◌≡◌, refl, ap, ◌∙◌, bit_and, bit_xor, ◌<<<◌, ◌>>>◌,
  u8, List, [], ◌∷◌, ◌++◌, arith,
}
use open_ull_receiver.Base.Bits.{bit_xor_low, bit_and_ones, bit_xor-lt}
use open_ull_receiver.PhyPacket.{reverse8, crc_bit, crc_bits, crc_bytes, crc_tail, body}
use open_ull_receiver.PhyPacket.Reversal.{reverse8-bit}

-- A bit of data equal to the top bit of the register shifts it out.
crc_bit_match : (crc x : ℕ) → crc < 2 ^ 24 → x % 2 ≡ crc / 2 ^ 23 → crc_bit crc x ≡ crc * 2 % 2 ^ 24
unfolding crc_bit
crc_bit_match crc x h e = ground (
  arith,
  bit_and_ones 1 (bit_xor (crc >>> 23) x),
  bit_and_ones 24 (crc <<< 1),
  bit_xor_low (crc >>> 23) x,
)

pub crc_bit-lt : (crc x : ℕ) → crc_bit crc x < 2 ^ 24
unfolding crc_bit
crc_bit-lt crc x =
    ground (arith, bit_and_ones 24 (crc <<< 1), bit_xor-lt 24 (bit_and (crc <<< 1) 0xffffff) 0x65b)

-- The register after the bits that have been shifted out, one factor of two each.
abbrev shifted : ℕ → ℕ → ℕ
shifted c m = c * m % 2 ^ 24

-- One more of them: `j` bits are out, and `m` is 2 ^ j.
module _ (c x : ℕ) (small : c < 2 ^ 24) (top : x ≡ u8 (c >>> 16)) where
  out_bit :
      (j m : ℕ)
      → (reverse8 x >>> j) % 2 ≡ shifted c m / 2 ^ 23
      → crc_bit (shifted c m) (reverse8 x >>> j) ≡ shifted c (m * 2)
  out_bit j m e = crc_bit_match (shifted c m) (reverse8 x >>> j) (omega arith) e ∙ omega arith

  -- Eight bits equal to the top byte of the register shift that byte out.
  shift_out : crc_bits 8 0 (shifted c 1) (reverse8 x) ≡ shifted c 256
  unfolding crc_bits
  shift_out = rw (
    out_bit 0 1 (omega (arith, reverse8-bit 0 x (omega arith) (omega arith))),
    out_bit 1 2 (omega (arith, reverse8-bit 1 x (omega arith) (omega arith))),
    out_bit 2 4 (omega (arith, reverse8-bit 2 x (omega arith) (omega arith))),
    out_bit 3 8 (omega (arith, reverse8-bit 3 x (omega arith) (omega arith))),
    out_bit 4 16 (omega (arith, reverse8-bit 4 x (omega arith) (omega arith))),
    out_bit 5 32 (omega (arith, reverse8-bit 5 x (omega arith) (omega arith))),
    out_bit 6 64 (omega (arith, reverse8-bit 6 x (omega arith) (omega arith))),
    out_bit 7 128 (omega (arith, reverse8-bit 7 x (omega arith) (omega arith))),
  )

crc_bits-lt : (left bit crc x : ℕ) → crc < 2 ^ 24 → crc_bits left bit crc x < 2 ^ 24
unfolding crc_bits
crc_bits-lt zero bit crc x h = h
crc_bits-lt (suc left) bit crc x h =
    crc_bits-lt left (bit + 1) (crc_bit crc (x >>> bit)) x (crc_bit-lt crc (x >>> bit))

pub crc_bytes-lt : (crc : ℕ) (bytes : List ℕ) → crc < 2 ^ 24 → crc_bytes crc bytes < 2 ^ 24
unfolding crc_bytes
crc_bytes-lt crc [] h = h
crc_bytes-lt crc (x ∷ bytes) h = crc_bytes-lt (crc_bits 8 0 crc x) bytes (crc_bits-lt 8 0 crc x h)

pub crc_bytes-append :
    (crc : ℕ) (xs ys : List ℕ) → crc_bytes crc (xs ++ ys) ≡ crc_bytes (crc_bytes crc xs) ys
unfolding crc_bytes
crc_bytes-append crc [] ys = refl
crc_bytes-append crc (x ∷ xs) ys = crc_bytes-append (crc_bits 8 0 crc x) xs ys

out_byte :
    (c x : ℕ) → c < 2 ^ 24 → x ≡ u8 (c >>> 16) → crc_bits 8 0 c (reverse8 x) ≡ c * 256 % 2 ^ 24
out_byte c x h e = ap (λ (r : ℕ). crc_bits 8 0 r (reverse8 x)) (omega arith) ∙ shift_out c x h e

crc_tail-zero : (c : ℕ) → c < 2 ^ 24 → crc_bytes c (crc_tail c) ≡ 0
unfolding crc_bytes crc_tail
crc_tail-zero c h =
    rw
      (
        out_byte c (u8 (c >>> 16)) h refl,
        out_byte (c * 256 % 2 ^ 24) (u8 (c >>> 8)) (omega arith) (omega arith),
        out_byte (c * 256 % 2 ^ 24 * 256 % 2 ^ 24) (u8 (c >>> 0)) (omega arith) (omega arith),
      )
      (omega arith)

-- The check that a receiver makes: run over the PDU and its check value as they are sent, the
-- register that starts from `crc_init` ends at zero.
pub body-residue :
    (crc_init : ℕ) (pdu : List ℕ) → crc_init < 2 ^ 24 → crc_bytes crc_init (body crc_init pdu) ≡ 0
unfolding body
body-residue crc_init pdu h =
    crc_bytes-append crc_init pdu (crc_tail (crc_bytes crc_init pdu))
    ∙ crc_tail-zero (crc_bytes crc_init pdu) (crc_bytes-lt crc_init pdu h)
