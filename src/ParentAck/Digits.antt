-- ===== src/ParentAck/Digits.antt =====
-- The header bits of firmware/radio/src/parent_ack.c as arithmetic, and the range of the
-- sequence bits that the state keeps.
use open_ull_receiver.Base.{
  ℕ, zero, suc, ◌+◌, ◌*◌, ◌/◌, ◌%◌, ◌<◌, ◌^◌, ◌≡◌, refl, bit_and, bit_xor, Bool, true, Option, List,
  arith,
}
use open_ull_receiver.Base.Bits.{bit_and_ones}
use open_ull_receiver.ParentAck.{Ack, header, bootstrap, acknowledge, take_data, receive}

pub bit_and-one : (a : ℕ) → bit_and a 1 ≡ a % 2
bit_and-one a = bit_and_ones 1 a

pub bit_xor-one : (b : ℕ) → b < 2 → bit_xor b 1 + b ≡ 1
bit_xor-one zero h = refl
bit_xor-one (suc zero) h = refl
bit_xor-one (suc (suc b)) h = absurd (omega arith)

-- The sequence bits are bits.
pub record IsValid (s : Ack) : Type 0 where
  pub tx : s.tx_sn < 2
  pub rx : s.rx_nesn < 2

-- The header of a live link, and what the peer reads in it.
header_bits :
    (t r : ℕ)
    → t < 2
    → r < 2
    → (a : Ack) → a.tx_sn ≡ t
    → a.rx_nesn ≡ r
    → a.active ≡ true
    → header a ≡ 1 + 8 * t + 4 * r
unfolding header
header_bits zero zero p q a e f l = rw (e, f, l)
header_bits zero (suc zero) p q a e f l = rw (e, f, l)
header_bits (suc zero) zero p q a e f l = rw (e, f, l)
header_bits (suc zero) (suc zero) p q a e f l = rw (e, f, l)
header_bits (suc (suc t)) r p q a e f l = absurd (omega arith)
header_bits t (suc (suc r)) p q a e f l = absurd (omega arith)

pub header_sum :
    (s : Ack) → IsValid s → s.active ≡ true → header s ≡ 1 + 8 * s.tx_sn + 4 * s.rx_nesn
header_sum s v l = header_bits s.tx_sn s.rx_nesn v.tx v.rx s refl refl l

pub acknowledge-IsValid : (s : Ack) (h : ℕ) → IsValid s → IsValid (acknowledge s h)
unfolding acknowledge
acknowledge-IsValid s h v = ground (arith, bit_xor-one s.tx_sn)

take_data-IsValid :
    (s : Ack) (h : ℕ) (control empty : Bool) → IsValid s → IsValid (take_data s h control empty).0
unfolding take_data
take_data-IsValid s h control empty v = ground (arith, bit_xor-one s.rx_nesn)

bootstrap-IsValid :
    (s : Ack) (h : ℕ) (control empty : Bool) (sent sent_length : ℕ)
    → IsValid s
    → IsValid (bootstrap s h control empty sent sent_length).0
unfolding bootstrap
bootstrap-IsValid s h control empty sent sent_length v =
    ground
      (arith, bit_and-one (h / 2 ^ 2), bit_and-one (h / 2 ^ 3), bit_xor-one (bit_and (h / 2 ^ 3) 1))

-- Receiving any PDU keeps both sequence numbers single bits.
pub receive-IsValid :
    (s : Ack) (h : ℕ) (p : Option (List ℕ)) (n sent sent_length : ℕ)
    → IsValid s
    → IsValid (receive s h p n sent sent_length).0
unfolding receive
receive-IsValid s h p n sent sent_length v =
    grind (arith, acknowledge-IsValid, take_data-IsValid, bootstrap-IsValid)
