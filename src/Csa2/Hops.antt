-- ===== src/Csa2/Hops.antt =====
-- Where the channels of firmware/radio/src/tone_packet.c lie, and how far they are apart.
use open_ull_receiver.Base.{
  ℕ, zero, suc, ◌+◌, ◌-◌, ◌*◌, ◌/◌, ◌%◌, ◌^◌, ◌≤◌, ◌<◌, ◌≡◌, sym, ap, ◌∙◌, bit_xor, true, List,
  length, get_or, arith, Bool-cases, ℕ_discrete, ◌⊎◌, inl, inr,
}
use native.Mathlib.Nat.{mul-le-mul_left, mod-eq_of_lt, add-mul-mod_self_left}
use open_ull_receiver.Base.{dec_lt}
use open_ull_receiver.Base.Bits.{bit_xor-lt}
use open_ull_receiver.AirFrame.{index_of}
use open_ull_receiver.Csa2.{next_prn, in_map, channels_from, map_channels, distance, hop}

pub next_prn-lt : (id prn : ℕ) → next_prn id prn < 2 ^ 16
unfolding next_prn
next_prn-lt id prn = omega arith

-- A position below the count of used channels is a channel of the map, below 37.
channels_from-in_map :
    (left i : ℕ) (map : List ℕ) (k : ℕ)
    → k < length (channels_from left i map)
    → (in_map map (get_or (channels_from left i map) k 0) ≡ true)
      × (get_or (channels_from left i map) k 0 < i + left)
channels_from-in_map zero i map k h = absurd (omega arith)
channels_from-in_map (suc left) i map zero h = elim (Bool-cases (in_map map i)) [
  | inl e ↦ ground arith
  | inr e ↦ ground (arith, channels_from-in_map left (i + 1) map 0)
]
channels_from-in_map (suc left) i map (suc k) h = elim (Bool-cases (in_map map i)) [
  | inl e ↦ ground (arith, channels_from-in_map left (i + 1) map k)
  | inr e ↦ ground (arith, channels_from-in_map left (i + 1) map (suc k))
]

length-channels_from : (left i : ℕ) (map : List ℕ) → length (channels_from left i map) ≤ left
length-channels_from zero i map = omega arith
length-channels_from (suc left) i map = ground (arith, length-channels_from left (i + 1) map)

-- A channel of the map is found.
index_of-channels_from :
    (left i : ℕ) (map : List ℕ) (c : ℕ)
    → in_map map c ≡ true
    → i ≤ c
    → c < i + left
    → index_of c (channels_from left i map) < length (channels_from left i map)
index_of-channels_from zero i map c m p q = absurd (omega arith)
index_of-channels_from (suc left) i map c m p q = elim (ℕ_discrete i c) [
  | yes e ↦ ground arith
  | no e ↦ ground (arith, index_of-channels_from left (i + 1) map c)
]

-- The same of all channels of a map.
module _ (map : List ℕ) where
  pub map_channels-in_map :
      (k : ℕ)
      → k < length (map_channels map)
      → (in_map map (get_or (map_channels map) k 0) ≡ true) × (get_or (map_channels map) k 0 < 37)
  unfolding map_channels
  map_channels-in_map k h = channels_from-in_map 37 0 map k h

  pub length-map_channels : length (map_channels map) ≤ 37
  unfolding map_channels
  length-map_channels = length-channels_from 37 0 map

  pub index_of-map_channels :
      (c : ℕ)
      → in_map map c ≡ true
      → c < 37
      → index_of c (map_channels map) < length (map_channels map)
  unfolding map_channels
  index_of-map_channels c m h = index_of-channels_from 37 0 map c m (omega arith) h

-- The remainder of a number below twice the divisor.
mod_cases : (a n : ℕ) → 0 < n → a < 2 * n → (a < n) × (a % n ≡ a) ⊎ (n ≤ a) × (a % n ≡ a - n)
mod_cases a n p q = elim (dec_lt a n) [
  | yes lt ↦ inl (lt, mod-eq_of_lt lt)
  | no ge ↦ inr (
    omega arith,
    ap (λ (b : ℕ). b % n) (omega arith)
        ∙ add-mul-mod_self_left (a - n) n 1
        ∙ mod-eq_of_lt (omega arith),
  )
]

pub scale_lem : (width x : ℕ) → 1 ≤ width → x < 2 ^ 16 → width * x / 2 ^ 16 < width
scale_lem width x p q =
    let most : width * x ≤ width * 65535 = mul-le-mul_left width (omega arith) in
    omega (arith, most)

-- A step on a circle, and the way back to where it began.
step_lem : (n i s : ℕ) → i < n → s < n → ((i + s) % n < n) × (((i + s) % n + n - i) % n ≡ s)
step_lem n i s p q = elim (mod_cases (i + s) n (omega arith) (omega arith)) [
  | inl (lt, e) ↦ elim (mod_cases ((i + s) % n + n - i) n (omega arith) (omega arith)) [
    | inl (lt', e') ↦ (omega arith, omega arith)
    | inr (ge', e') ↦ (omega arith, omega arith)
  ]
  | inr (ge, e) ↦ elim (mod_cases ((i + s) % n + n - i) n (omega arith) (omega arith)) [
    | inl (lt', e') ↦ (omega arith, omega arith)
    | inr (ge', e') ↦ (omega arith, omega arith)
  ]
]

pub distance_lem :
    (used : ℕ) → 2 ≤ used → used ≤ 37 → (1 ≤ distance used) × (2 * distance used ≤ used)
distance_lem used p q = ground arith

step_spread :
    (used index d z : ℕ)
    → 1 ≤ d
    → 2 * d ≤ used
    → index < used
    → z < used + 1 - 2 * d
    → let next = (index + d + z) % used in
      (next < used) × (d ≤ (next + used - index) % used) × ((next + used - index) % used ≤ used - d)
step_spread used index d z p q r s =
    let (below, back) = step_lem used index (d + z) r (omega arith) in
    let same : index + (d + z) ≡ index + d + z = omega arith in
    let next : (index + d + z) % used ≡ (index + (d + z)) % used =
      ap (λ (n : ℕ). n % used) (sym same) in
    rw next (below, omega (arith, back), omega (arith, back))

-- A hop of at least `d`, and at most as far the other way round.
spread_lem :
    (used index d x : ℕ)
    → 1 ≤ d
    → 2 * d ≤ used
    → index < used
    → x < 2 ^ 16
    → let next = (index + d + (used + 1 - 2 * d) * x / 2 ^ 16) % used in
      (next < used) × (d ≤ (next + used - index) % used) × ((next + used - index) % used ≤ used - d)
spread_lem used index d x p q r t =
    let small = scale_lem (used + 1 - 2 * d) x (omega arith) t in
    step_spread used index d ((used + 1 - 2 * d) * x / 2 ^ 16) p q r small

-- The hop moves by at least the distance, either way round.
pub hop_lem :
    (id used prn index : ℕ)
    → id < 2 ^ 16
    → 2 ≤ used
    → used ≤ 37
    → index < used
    → ((hop id used (prn, index)).1 < used)
      × (distance used ≤ ((hop id used (prn, index)).1 + used - index) % used)
      × (((hop id used (prn, index)).1 + used - index) % used ≤ used - distance used)
unfolding hop
hop_lem id used prn index a b c d =
    let (one, half) = distance_lem used b c in
    spread_lem used index (distance used) (bit_xor (next_prn id prn) id) one half d
      (bit_xor-lt 16 (next_prn id prn) id (next_prn-lt id prn) a)
