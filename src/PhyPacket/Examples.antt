-- ===== src/PhyPacket/Examples.antt =====
-- Runs of firmware/radio/src/phy_packet.c, and the theorems at concrete inputs.
use open_ull_receiver.Base.{
  ℕ, ◌+◌, ◌≤◌, ◌≡◌, refl, true, some, List, [], ◌∷◌, length, take, All, IsByte,
}
use open_ull_receiver.PhyPacket.{
  dtm_start, packet_build, outer_whitening, whiten_bytes, whiten_bits, skip_byte, lfsr_step,
  crc_bytes, crc_bits, crc_bit, crc_tail, reverse8, prefix, address_bytes, body, max_packet,
}
use open_ull_receiver.PhyPacket.Packet.{received, packet_received}
use open_ull_receiver.Clock.{Time}

abbrev pdu : List ℕ
pdu = 0x02 ∷ 0x01 ∷ 0x5a ∷ []

-- The advertising address on channel 37, at one megabit; the whitening of that channel begins
-- 8d d2 57 a1 3d a7.
abbrev packet : List ℕ
packet = 0xaa ∷ 0xd6 ∷ 0xbe ∷ 0x89 ∷ 0x8e ∷ 0x8f ∷ 0xd3 ∷ 0x0d ∷ 0x43 ∷ 0x0a ∷ 0x2e ∷ []

clear_whitened : outer_whitening (some (1 ∷ 2 ∷ 3 ∷ [])) 37 ≡ some (0x56 ∷ 0xa3 ∷ 0x3e ∷ [])
unfolding outer_whitening whiten_bytes whiten_bits skip_byte lfsr_step
clear_whitened = refl

pdu_packed : packet_build true 207 0x8e89bed6 0x555555 37 1 (some pdu) ≡ some packet
unfolding packet_build whiten_bytes whiten_bits lfsr_step prefix address_bytes body crc_tail
    crc_bytes crc_bits crc_bit reverse8
pdu_packed = refl

packet_received_example :
    (length packet ≡ 1 + 4 + length pdu + 3)
    × (length packet ≤ max_packet)
    × (length packet ≤ 207)
    × (take (length pdu) (received 37 1 packet) ≡ pdu)
    × (crc_bytes 0x555555 (received 37 1 packet) ≡ 0)
    × (All IsByte pdu → All IsByte packet)
packet_received_example = packet_received 207 0x8e89bed6 0x555555 37 1 pdu pdu_packed

abbrev inner : Time
inner = record { hs = 0; hus = 10 }

abbrev outer : Time
outer = record { hs = 0x0fffffff; hus = 571 }

wrapped_start : dtm_start inner 2 true ≡ some outer
unfolding dtm_start
wrapped_start = refl
