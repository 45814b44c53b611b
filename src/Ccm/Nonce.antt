-- ===== src/Ccm/Nonce.antt =====
-- The nonce of firmware/radio/src/tone_packet.c.
use open_ull_receiver.Base.{
  ℕ, ◌+◌, ◌*◌, ◌/◌, ◌^◌, ◌≤◌, ◌<◌, ◌≡◌, ap, ◌∙◌, List, length, get_or, arith, bit_or, u8, ◌<<<◌,
  ◌>>>◌, sym, drop, take_whole, length-take_whole,
}
use open_ull_receiver.Base.Bits.{bit_or_apart, bit_or_comm}
use open_ull_receiver.Ccm.{nonce}

top_byte :
    (counter direction : ℕ)
    → counter < 2 ^ 39
    → direction ≤ 1
    → bit_or (u8 (counter >>> 32)) (direction <<< 7) ≡ direction * 128 + counter / 2 ^ 32
top_byte counter direction p q =
    bit_or_comm (2 ^ 9) (u8 (counter >>> 32)) (direction <<< 7) (omega arith) (omega arith)
    ∙ ap (λ (b : ℕ). bit_or (direction <<< 7) b) fits
    ∙ bit_or_apart 7 direction (counter / 2 ^ 32) (omega arith)
  where
    fits : u8 (counter >>> 32) ≡ counter / 2 ^ 32
    fits = omega arith

-- The nonce has 13 bytes, and no two packets share one: it determines the packet counter, the
-- direction and the IV.
pub nonce_injective :
    (counter counter' direction direction' : ℕ) (iv iv' : List ℕ)
    → counter < 2 ^ 39
    → counter' < 2 ^ 39
    → direction ≤ 1
    → direction' ≤ 1
    → length iv ≡ 8
    → length iv' ≡ 8
    → nonce counter direction iv ≡ nonce counter' direction' iv'
    → (counter ≡ counter')
      × (direction ≡ direction')
      × (iv ≡ iv')
      × (length (nonce counter direction iv) ≡ 13)
unfolding nonce
nonce_injective counter counter' direction direction' iv iv' p p' q q' l l' h =
    let top = top_byte counter direction p q in
    let top' = top_byte counter' direction' p' q' in
    let byte : (i : ℕ)
        → get_or (nonce counter direction iv) i 0 ≡ get_or (nonce counter' direction' iv') i 0 =
      λ i. ap (λ (n : List ℕ). get_or n i 0) h in
    let b0 = byte 0 in
    let b1 = byte 1 in
    let b2 = byte 2 in
    let b3 = byte 3 in
    let b4 = byte 4 in
    (
      omega arith,
      omega arith,
      sym (take_whole 8 iv l) ∙ ap (λ (n : List ℕ). drop 5 n) h ∙ take_whole 8 iv' l',
      omega (arith, length-take_whole 8 iv l),
    )
