-- ===== src/PhyPacket/Reversal.antt =====
-- `reverse8` of firmware/radio/src/phy_packet.c turns a byte round, bit by bit.
use open_ull_receiver.Base.{
  ℕ, ◌-◌, ◌/◌, ◌%◌, ◌^◌, ◌<◌, ◌≡◌, refl, Bool, true, ◌==◌, ==_iff, arith, all_below,
  all_below_sound,
}
use open_ull_receiver.PhyPacket.{reverse8}

turned : ℕ → ℕ → Bool
turned i x = reverse8 x / 2 ^ i % 2 == x / 2 ^ (7 - i) % 2

turned_table : all_below 8 (λ i. all_below 256 (turned i)) ≡ true
unfolding all_below turned reverse8
turned_table = refl

-- Bit `i` of the result is bit `7 - i` of the byte.
pub reverse8-bit : (i x : ℕ) → i < 8 → x < 256 → reverse8 x / 2 ^ i % 2 ≡ x / 2 ^ (7 - i) % 2
unfolding turned
reverse8-bit i x hi hx = (==_iff _ _).0 (
    all_below_sound 256 (turned i) x
      (all_below_sound 8 (λ i. all_below 256 (turned i)) i turned_table hi) hx)

pub reverse8-lt : (x : ℕ) → reverse8 x < 256
unfolding reverse8
reverse8-lt x = omega arith
