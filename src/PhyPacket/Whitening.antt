-- ===== src/PhyPacket/Whitening.antt =====
-- Whitening of firmware/radio/src/phy_packet.c is its own inverse.
use open_ull_receiver.Base.{
  ℕ, zero, suc, ◌+◌, ◌≤◌, ◌^◌, ◌<◌, ◌≡◌, refl, sym, ap, ◌∙◌, bit_and, bit_xor, ◌<<<◌, true, List,
  [], ◌∷◌, length, arith, ◌==◌, if◌then◌else◌, ltb, ltb→lt, IsByte, all_below, all_below_sound, All,
}
use open_ull_receiver.Base.Bits.{
  bit_xor_assoc, bit_xor_comm, bit_xor_self, bit_xor-zero, bit_xor-lt,
}
use open_ull_receiver.PhyPacket.{lfsr_step, whiten_bits, whiten_bytes}

-- The two laws that the loop needs, at any numbers.
xor_swap : (a b c : ℕ) → bit_xor (bit_xor a b) c ≡ bit_xor (bit_xor a c) b
xor_swap a b c =
    let n = a + b + c in
    bit_xor_assoc n a b c (omega arith) (omega arith) (omega arith)
    ∙ ap (bit_xor a) (bit_xor_comm n b c (omega arith) (omega arith))
    ∙ sym (bit_xor_assoc n a c b (omega arith) (omega arith) (omega arith))

xor_twice : (a b : ℕ) → bit_xor (bit_xor a b) b ≡ a
xor_twice a b =
    let n = a + b in
    bit_xor_assoc n a b b (omega arith) (omega arith) (omega arith)
    ∙ ap (bit_xor a) (bit_xor_self n b (omega arith))
    ∙ bit_xor-zero n a (omega arith)

-- The register does not depend on the data, and a change of the byte stays beside the mask.
whiten_bits-register :
    (left bit l x y : ℕ) → (whiten_bits left bit l x).0 ≡ (whiten_bits left bit l y).0
unfolding whiten_bits
whiten_bits-register zero bit l x y = refl
whiten_bits-register (suc left) bit l x y =
    whiten_bits-register left (bit + 1) (lfsr_step l)
      (if bit_and l 1 == 0 then x else bit_xor x (1 <<< bit))
      (if bit_and l 1 == 0 then y else bit_xor y (1 <<< bit))

whiten_bits-xor :
    (left bit l x m : ℕ)
    → (whiten_bits left bit l (bit_xor x m)).1 ≡ bit_xor (whiten_bits left bit l x).1 m
unfolding whiten_bits
whiten_bits-xor zero bit l x m = refl
whiten_bits-xor (suc left) bit l x m = ground (
  arith,
  xor_swap x m (1 <<< bit),
  whiten_bits-xor left (bit + 1) (lfsr_step l) x m,
  whiten_bits-xor left (bit + 1) (lfsr_step l) (bit_xor x (1 <<< bit)) m,
)

whiten_bits_twice : (left bit l x : ℕ) → (whiten_bits left bit l (whiten_bits left bit l x).1).1 ≡ x
unfolding whiten_bits
whiten_bits_twice zero bit l x = refl
whiten_bits_twice (suc left) bit l x =
    let w : ℕ → ℕ = λ y. (whiten_bits left (bit + 1) (lfsr_step l) y).1 in
    ground (
      arith,
      whiten_bits_twice left (bit + 1) (lfsr_step l) x,
      whiten_bits-xor left (bit + 1) (lfsr_step l) x (1 <<< bit),
      xor_twice (w x) (1 <<< bit),
    )

-- Whitening the same bytes twice from one register gives them back.
pub whiten_bytes_twice : (l : ℕ) (bytes : List ℕ) → whiten_bytes l (whiten_bytes l bytes) ≡ bytes
unfolding whiten_bytes
whiten_bytes_twice l [] = refl
whiten_bytes_twice l (x ∷ bytes) =
    let x' = (whiten_bits 8 0 l x).1 in
    rw (
      whiten_bits_twice 8 0 l x,
      whiten_bits-register 8 0 l x' x,
      whiten_bytes_twice (whiten_bits 8 0 l x).0 bytes,
    )

pub length-whiten_bytes : (l : ℕ) (bytes : List ℕ) → length (whiten_bytes l bytes) ≡ length bytes
unfolding whiten_bytes
length-whiten_bytes l [] = refl
length-whiten_bytes l (x ∷ bytes) = ap suc (length-whiten_bytes (whiten_bits 8 0 l x).0 bytes)

one_bit_table : all_below 8 (λ bit. ltb (1 <<< bit) (2 ^ 8)) ≡ true
unfolding all_below
one_bit_table = refl

one_bit : (bit : ℕ) → bit < 8 → 1 <<< bit < 2 ^ 8
one_bit bit h = ltb→lt _ _ (all_below_sound 8 (λ bit. ltb (1 <<< bit) (2 ^ 8)) bit one_bit_table h)

-- A byte stays a byte.
whiten_bits-lt :
    (left bit l x : ℕ) → left + bit ≤ 8 → x < 2 ^ 8 → (whiten_bits left bit l x).1 < 2 ^ 8
unfolding whiten_bits
whiten_bits-lt zero bit l x h p = p
whiten_bits-lt (suc left) bit l x h p =
    whiten_bits-lt left (bit + 1) (lfsr_step l)
      (if bit_and l 1 == 0 then x else bit_xor x (1 <<< bit)) (omega arith)
      (ground (arith, bit_xor-lt 8 x (1 <<< bit) p (one_bit bit (omega arith))))

pub whiten_bytes-IsByte :
    (l : ℕ) (bytes : List ℕ) → All IsByte bytes → All IsByte (whiten_bytes l bytes)
unfolding whiten_bytes
whiten_bytes-IsByte l [] h = h
whiten_bytes-IsByte l (x ∷ bytes) h = (
  whiten_bits-lt 8 0 l x (omega arith) h.0,
  whiten_bytes-IsByte (whiten_bits 8 0 l x).0 bytes h.1,
)
