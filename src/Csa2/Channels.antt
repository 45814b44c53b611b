-- ===== src/Csa2/Channels.antt =====
-- What `ull_ble_csa2_subevent` of firmware/radio/src/tone_packet.c promises of the channels.
use open_ull_receiver.Base.{
  ℕ, zero, suc, ◌%◌, ◌≤◌, ◌<◌, ◌≡◌, ◌≢◌, ◌↔◌, bit_and, bit_xor, true, none, some, List, length,
  get_or, arith, Bool-cases, inl, inr,
}
use open_ull_receiver.Base.Bits.{bit_xor-lt}
use open_ull_receiver.Csa2.{
  channel_id, in_map, map_channels, first_prn, first_index, hops, start, csa2_subevent,
}
use open_ull_receiver.Csa2.Hops.{
  map_channels-in_map, length-map_channels, index_of-map_channels, hop_lem, scale_lem, next_prn-lt,
}

module _ (aa counter : ℕ) (map : List ℕ) where
  -- The position in the list at a subevent.
  abbrev index : ℕ → ℕ
  index subevent =
      (hops subevent (channel_id aa) (length (map_channels map))
        (start (channel_id aa) counter map (map_channels map))).1

  start-lt :
      2 ≤ length (map_channels map)
      → (start (channel_id aa) counter map (map_channels map)).1 < length (map_channels map)
  unfolding start first_index
  start-lt h =
      let prn = bit_xor (first_prn (channel_id aa) counter) (channel_id aa) in
      elim (Bool-cases (in_map map (prn % 37))) [
        | inl e ↦ ground (arith, index_of-map_channels map (prn % 37) e (omega arith))
        | inr e ↦ ground (
          arith,
          scale_lem (length (map_channels map)) prn (omega arith) (
              bit_xor-lt 16 (first_prn (channel_id aa) counter) (channel_id aa) (next_prn-lt _ _)
                (omega arith)),
        )
      ]

  index-lt :
      (subevent : ℕ) → 2 ≤ length (map_channels map) → index subevent < length (map_channels map)
  index-lt zero h = start-lt h
  index-lt (suc n) h =
      (hop_lem (channel_id aa) (length (map_channels map)) _ (index n) (omega arith) h
        (length-map_channels map) (index-lt n h)).0

  -- The selection succeeds exactly for a map without reserved bits and with two channels at least
  -- and for a subevent up to 3, and it yields a channel of the map, below 37.
  pub csa2_subevent_iff :
      (subevent : ℕ)
      → ((csa2_subevent aa counter (some map) subevent true ≢ none) ↔ (
          (bit_and (get_or map 4 0) 0xe0 ≡ 0) × (2 ≤ length (map_channels map)) × (subevent ≤ 3)))
        × ((channel : ℕ)
            → csa2_subevent aa counter (some map) subevent true ≡ some channel
            → (in_map map channel ≡ true) × (channel < 37))
  unfolding csa2_subevent
  csa2_subevent_iff subevent = (
    ground arith,
    λ channel h.
        let two : 2 ≤ length (map_channels map) = ground arith in
        let e : channel ≡ get_or (map_channels map) (index subevent) 0 = ground arith in
        rw e (map_channels-in_map map (index subevent) (index-lt subevent two)),
  )
