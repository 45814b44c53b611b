-- ===== src/Csa2.antt =====
-- The channel selection of firmware/radio/src/tone_packet.c: `ull_ble_csa2_subevent` and
-- `ull_ble_csa2_first`. `none` is -1, and `given` is false where the destination is NULL.
pub mod Hops
pub mod Channels
mod Examples
use open_ull_receiver.Base.{
  ℕ, zero, suc, ◌+◌, ◌-◌, ◌*◌, ◌/◌, ◌%◌, ◌^◌, bit_and, bit_or, bit_xor, u16, ◌<<<◌, ◌>>>◌, min, max,
  Bool, true, false, not, ◌||◌, Option, none, some, List, [], ◌∷◌, length, get_or, ltb, ◌==◌,
  if◌then◌else◌,
}
use open_ull_receiver.AirFrame.{index_of}

-- Bit reversal within each byte.
abbrev pub swap_bits : ℕ → ℕ → ℕ → ℕ → ℕ
swap_bits high low k x = u16 (bit_or (bit_and x high >>> k) (bit_and x low <<< k))

unfoldable pub permute : ℕ → ℕ
permute x = swap_bits 0xf0f0 0x0f0f 4 (swap_bits 0xcccc 0x3333 2 (swap_bits 0xaaaa 0x5555 1 x))

-- One step of the generator.
unfoldable pub next_prn : ℕ → ℕ → ℕ
next_prn id prn = u16 (17 * permute prn + id)

abbrev pub channel_id : ℕ → ℕ
channel_id aa = u16 (bit_xor (aa >>> 16) aa)

-- Whether the map has a channel, and the channels that it has among `left` from `i` on.
abbrev pub in_map : List ℕ → ℕ → Bool
in_map map i = not (bit_and (get_or map (i / 8) 0) (1 <<< (i % 8)) == 0)

abbrev pub channels_from : ℕ → ℕ → List ℕ → List ℕ
channels_from zero i map = []
channels_from (suc left) i map =
    let rest = channels_from left (i + 1) map in if in_map map i then i ∷ rest else rest

-- The array `channels`, up to `used`.
unfoldable pub map_channels : List ℕ → List ℕ
map_channels map = channels_from 37 0 map

-- The number from the three first steps.
abbrev pub first_prn : ℕ → ℕ → ℕ
first_prn id counter = next_prn id (next_prn id (next_prn id (bit_xor counter id)))

-- The position of the first channel among those of the map.
unfoldable pub first_index : List ℕ → List ℕ → ℕ → ℕ
first_index map channels event_prn =
    if in_map map (event_prn % 37)
    then index_of (event_prn % 37) channels
    else (length channels * event_prn) >>> 16

-- The least distance of two hops.
abbrev pub distance : ℕ → ℕ
distance used =
    let a = min (if ltb 5 used then used - 5 else 0) 3 in
    let b = min (if ltb 10 used then (used - 10) / 2 else 0) 11 in max (max 1 a) b

-- The loop over the subevents, on the generator and the position.
unfoldable pub hop : ℕ → ℕ → ℕ × ℕ → ℕ × ℕ
hop id used s =
    let prn = next_prn id (s.0) in
    let width = used + 1 - 2 * distance used in
    (prn, (s.1 + distance used + ((width * bit_xor prn id) >>> 16)) % used)

abbrev pub hops : ℕ → ℕ → ℕ → ℕ × ℕ → ℕ × ℕ
hops zero id used s = s
hops (suc n) id used s = hop id used (hops n id used s)

unfoldable pub start : ℕ → ℕ → List ℕ → List ℕ → ℕ × ℕ
start id counter map channels =
    let prn = first_prn id counter in (prn, first_index map channels (bit_xor prn id))

unfoldable pub csa2_subevent : ℕ → ℕ → Option (List ℕ) → ℕ → Bool → Option ℕ
csa2_subevent aa counter (some map) subevent true =
    let channels = map_channels map in
    let id = channel_id aa in
    if not (bit_and (get_or map 4 0) 0xe0 == 0) || ltb 3 subevent
    then none
    else if ltb (length channels) 2
    then none
    else some
        (get_or channels ((hops subevent id (length channels) (start id counter map channels)).1) 0)
csa2_subevent aa counter _ subevent _ = none

pub csa2_first : ℕ → ℕ → Option (List ℕ) → Bool → Option ℕ
csa2_first aa counter map given = csa2_subevent aa counter map 0 given
