-- ===== src/Csa2/Examples.antt =====
-- Runs of the model of the channel selection of firmware/radio/src/tone_packet.c, the first at the
-- sample data of the Bluetooth core specification for nine channels.
use open_ull_receiver.Base.{
  ℕ, ◌≤◌, ◌<◌, ◌≡◌, ◌≢◌, ◌↔◌, refl, bit_and, true, none, some, List, [], ◌∷◌, length, get_or, arith,
}
use open_ull_receiver.Csa2.{
  permute, next_prn, in_map, map_channels, first_index, hop, start, csa2_subevent,
}
use open_ull_receiver.Csa2.Channels.{csa2_subevent_iff}

abbrev all : List ℕ
all = 0xff ∷ 0xff ∷ 0xff ∷ 0xff ∷ 0x1f ∷ []

all_channels : length (map_channels all) ≡ 37
unfolding map_channels
all_channels = refl

nine_channels :
    csa2_subevent 0x8e89bed6 6 (some (0x00 ∷ 0x06 ∷ 0xe0 ∷ 0x00 ∷ 0x1e ∷ [])) 0 true ≡ some 23
unfolding csa2_subevent map_channels start first_index next_prn permute hop
nine_channels = refl

all_slot : csa2_subevent 0x8e89bed6 6 (some all) 1 true ≡ some 0
unfolding csa2_subevent map_channels start first_index next_prn permute hop
all_slot = refl

csa2_subevent_iff_example :
    ((csa2_subevent 0x8e89bed6 6 (some all) 1 true ≢ none)
      ↔ ((bit_and (get_or all 4 0) 0xe0 ≡ 0) × (2 ≤ length (map_channels all)) × (1 ≤ 3)))
    × ((channel : ℕ)
        → csa2_subevent 0x8e89bed6 6 (some all) 1 true ≡ some channel
        → (in_map all channel ≡ true) × (channel < 37))
csa2_subevent_iff_example = csa2_subevent_iff 0x8e89bed6 6 all 1

two_channels : 2 ≤ length (map_channels all)
two_channels = omega (arith, all_channels)
