-- ===== src/AirFrame/Downlink.antt =====
-- That the aggregates of `air_downlink_build` of firmware/radio/src/air_frame.c say what was asked
-- for, to a receiver that checks every record.
use open_ull_receiver.Base.{
  ℕ, zero, suc, ◌+◌, ◌-◌, ◌%◌, ◌≤◌, ◌<◌, ◌≡◌, refl, ap, ◌∙◌, Bool, true, false, none, some, List,
  [], ◌∷◌, length, get_or, All, bit_and, bit_or, u8, ◌==◌, ◌&&◌, not, arith, Option-cases,
  ℕ_discrete, inl, inr, ◌<<<◌, ltb, all_below, all_below_sound, if◌then◌else◌,
}
use open_ull_receiver.Base.Bits.{zero-bit_and}
use open_ull_receiver.AirFrame.{
  TxRecord, Scan, scan, selected, tx_all, downlink_build, Building, sizes_valid,
}
use open_ull_receiver.AirFrame.Scanning.{
  IsArray, Ordered, listed, mask_of, scan-Ordered, scan_mask, scan_total, selector_small,
}
use open_ull_receiver.AirFrame.Receiver.{heard_all, hear, hear_all, hear_one-tx_bytes}

-- Setting one bit of a mask of four sets that bit alone.
mask_bit_test : ℕ → ℕ → ℕ → Bool
mask_bit_test m i j =
    let n = bit_or m (u8 (1 <<< i)) in
    ltb n 16
    && ((if i == j then not (bit_and n (1 <<< j) == 0) else true)
        && (if i == j then true else bit_and n (1 <<< j) == bit_and m (1 <<< j)))

mask_bit_tests : all_below 16 (λ m. all_below 4 (λ i. all_below 4 (mask_bit_test m i))) ≡ true
unfolding all_below mask_bit_test
mask_bit_tests = refl

mask_bit : (m i j : ℕ) → m < 16 → i < 4 → j < 4 → mask_bit_test m i j ≡ true
mask_bit m i j p q r =
    all_below_sound 4 (mask_bit_test m i) j
      (all_below_sound 4 (λ i. all_below 4 (mask_bit_test m i)) i
        (all_below_sound 16 (λ m. all_below 4 (λ i. all_below 4 (mask_bit_test m i))) m
          mask_bit_tests p)
        q)
      r

-- The mask has the bits of the streams that it lists.
mask_of_bit :
    (size id m j : ℕ) (rs : List TxRecord)
    → Ordered size id rs
    → m < 16
    → j < 4
    → (bit_and (mask_of m rs) (1 <<< j) == 0) ≡ (bit_and m (1 <<< j) == 0 && not (listed j rs))
unfolding mask_bit_test
mask_of_bit size id m j [] o p q = ground arith
mask_of_bit size id m j (r ∷ rs) (Ordered.next a b c d e f o) p q = ground (
  arith,
  mask_bit m r.stream_id j p b q,
  mask_of_bit size (r.stream_id + 1) (bit_or m (u8 (1 <<< r.stream_id))) j rs o,
)

-- No stream is listed before the first.
not_listed :
    (size id j : ℕ) (rs : List TxRecord) → Ordered size id rs → j < id → listed j rs ≡ false
not_listed size id j [] o h = refl
not_listed size id j (r ∷ rs) (Ordered.next a b c d e f o) h =
    ground (arith, not_listed size (r.stream_id + 1) j rs o)

hear_all-tx_all :
    (left id size mask : ℕ) (rs : List TxRecord)
    → id + left ≡ 4
    → All IsArray rs
    → Ordered size id rs
    → ((j : ℕ) → id ≤ j → j < 4 → (bit_and mask (1 <<< j) == 0) ≡ not (listed j rs))
    → hear_all left id size mask (tx_all rs) ≡ some (heard_all rs)
unfolding hear_all tx_all
hear_all-tx_all zero id size mask [] e a o bits = refl
hear_all-tx_all zero id size mask (r ∷ rs) e a (Ordered.next p q _ _ _ _ o) bits =
    absurd (omega arith)
hear_all-tx_all (suc left) id size mask [] e a o bits = ground (
  arith,
  bits id,
  hear_all-tx_all left (id + 1) size mask [] (omega arith) a Ordered.done
      (λ j p q. bits j (omega arith) q),
)
hear_all-tx_all (suc left) id size mask (r ∷ rs) e a (Ordered.next p q t k d s o) bits =
    elim (ℕ_discrete id r.stream_id) [
      | yes here ↦
          let next =
            hear_all-tx_all left (id + 1) size mask rs (omega arith) (a.1) (rw here o)
              (λ j p q. ground (arith, bits j (omega arith) q)) in
          let one = hear_one-tx_bytes size r (tx_all rs) (a.0) t k d s in
          ground (arith, bits id (omega arith) (omega arith), one, next)
      | no later ↦
          let o' : Ordered size (id + 1) (r ∷ rs) = Ordered.next (omega arith) q t k d s o in
          ground (
            arith,
            bits id (omega arith) (omega arith),
            not_listed size (id + 1) id (r ∷ rs) o' (omega arith),
            hear_all-tx_all left (id + 1) size mask (r ∷ rs) (omega arith) a o'
                (λ j p q. bits j (omega arith) q),
          )
    ]

-- The first byte keeps the flags that may be given, and the selector.
lead_test : ℕ → Bool
lead_test flags =
    all_below 4
      (λ k. if bit_and flags (0xffffffff - 0x70) == 0 then bit_or flags (u8 k) % 4 == k else true)

lead_tests : all_below 256 lead_test ≡ true
unfolding all_below lead_test
lead_tests = refl

lead_low :
    (flags k : ℕ)
    → flags < 256
    → bit_and flags (0xffffffff - 0x70) ≡ 0
    → k < 4
    → bit_or flags (u8 k) % 4 ≡ k
unfolding lead_test
lead_low flags k p e q = ground (
  arith,
  all_below_sound 4
      (λ k. if bit_and flags (0xffffffff - 0x70) == 0 then bit_or flags (u8 k) % 4 == k else true) k
      (all_below_sound 256 lead_test flags lead_tests p) q,
)

-- The state of the scan at its start.
abbrev begin : Scan
begin = record { total = 1; mask = 0; selector = none }

-- The facts behind a success.
record Built (capacity flags mask : ℕ) (records : List TxRecord) (sizes bytes : List ℕ) (f : Scan)
    : Type 0 where
  pub scanned : scan sizes none records begin ≡ some f
  pub flagged : bit_and flags (0xffffffff - 0x70) ≡ 0
  pub whole : bytes ≡ bit_or flags (u8 (selected f.selector)) ∷ tx_all records
  pub masked : mask ≡ f.mask
  pub small : f.total ≤ 255
  pub room : f.total ≤ capacity
  pub sized : length sizes ≤ 4

built_facts :
    (capacity flags mask : ℕ) (records : List TxRecord) (sizes bytes : List ℕ)
    → downlink_build true capacity (some records) (some sizes) flags ≡ Building.built bytes mask
    → (f : Scan) × Built capacity flags mask records sizes bytes f
unfolding downlink_build sizes_valid
built_facts capacity flags mask records sizes bytes h =
    elim (Option-cases (scan sizes none records begin)) [
      | inl e ↦ absurd (ground arith)
      | inr (f, e) ↦ (
        f,
        record {
          scanned = e;
          flagged = ground arith;
          whole = ground arith;
          masked = ground arith;
          small = ground arith;
          room = ground arith;
          sized = ground arith;
        },
      )
    ]

-- A packet that `air_downlink_build` builds from records whose payloads are there is no longer than
-- 255 bytes and than its capacity, and a receiver that has the stream mask and the sizes, and drops
-- a packet with a wrong checksum or with bytes left over, hears exactly the records, in order.
pub hear-downlink_build :
    (capacity flags mask : ℕ) (records : List TxRecord) (sizes bytes : List ℕ)
    → All IsArray records
    → flags < 256
    → downlink_build true capacity (some records) (some sizes) flags ≡ Building.built bytes mask
    → (hear sizes mask bytes ≡ some (heard_all records))
      × (length bytes ≤ 255)
      × (length bytes ≤ capacity)
unfolding hear
hear-downlink_build capacity flags mask records sizes bytes a p h =
    let (f, b) = built_facts capacity flags mask records sizes bytes h in
    let o = scan-Ordered sizes none records begin f b.scanned in
    let m = scan_mask sizes none records begin f b.scanned in
    let t = scan_total sizes none records begin f a b.scanned in
    let low =
      lead_low flags (selected f.selector) p b.flagged
        (selector_small sizes none records begin f b.scanned (omega arith) b.sized) in
    let bits : (j : ℕ) → 0 ≤ j → j < 4 → (bit_and mask (1 <<< j) == 0) ≡ not (listed j records) =
      λ j _ q. ground (
        arith,
        b.masked,
        m,
        zero-bit_and (1 <<< j),
        mask_of_bit (get_or sizes (selected f.selector) 0) 0 0 j records o (omega arith) q,
      ) in
    let all =
      hear_all-tx_all 4 0 (get_or sizes (selected f.selector) 0) mask records refl a o bits in
    let heard_them : hear sizes mask (bit_or flags (u8 (selected f.selector)) ∷ tx_all records)
        ≡ some (heard_all records) =
      ap (λ (k : ℕ). hear_all 4 0 (get_or sizes k 0) mask (tx_all records)) low ∙ all in
    rw b.whole (heard_them, omega (arith, b.small, t), omega (arith, b.room, t))
