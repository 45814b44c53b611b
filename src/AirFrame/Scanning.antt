-- ===== src/AirFrame/Scanning.antt =====
-- What the first loop of `air_downlink_build` of firmware/radio/src/air_frame.c establishes.
use open_ull_receiver.Base.{
  ℕ, ◌+◌, ◌≤◌, ◌<◌, ◌≡◌, ◌≢◌, refl, sym, ap, ◌∙◌, ◌⊎◌, Bool, true, false, Option, none, some, List,
  [], ◌∷◌, length, take, get_or, All, bit_or, u8, ◌==◌, arith, Option-cases, ℕ_discrete, inl, inr,
  ◌<<<◌, ◌>>>◌, length-append, length-take, if◌then◌else◌,
}
use open_ull_receiver.AirFrame.{
  TxRecord, Scan, scan, advanced, checksum, index_of, select, selected, tx_all, tx_bytes,
  tx_payload, tx_header,
}

-- The payload that a record points to is there.
abbrev pub IsArray : TxRecord → Type 0
IsArray r = r.size ≤ elim r.payload [ none ↦ 0 | some bytes ↦ length bytes ]

abbrev pub listed : ℕ → List TxRecord → Bool
listed j [] = false
listed j (r ∷ rs) = if r.stream_id == j then true else listed j rs

abbrev pub mask_of : ℕ → List TxRecord → ℕ
mask_of m [] = m
mask_of m (r ∷ rs) = mask_of (bit_or m (u8 (1 <<< r.stream_id))) rs

-- Records with fields in range, in the order of their streams, from stream `id` on, each with no
-- payload or one of `size` bytes.
pub data Ordered (size : ℕ) : ℕ → List TxRecord → Type 0 where
  done : {id : ℕ} → Ordered size id []
  next :
      {id : ℕ} {r : TxRecord} {rs : List TxRecord}
      → id ≤ r.stream_id
      → r.stream_id < 4
      → r.tx_sequence < 16
      → r.ack_sequence < 16
      → r.kind < 4
      → r.size ≡ 0 ⊎ (r.size ≡ size) × (r.size ≢ 0)
      → Ordered size (r.stream_id + 1) rs
      → Ordered size id (r ∷ rs)

get_or-index_of :
    (n : ℕ) (sizes : List ℕ)
    → index_of n sizes ≢ length sizes
    → get_or sizes (index_of n sizes) 0 ≡ n
get_or-index_of n [] h = absurd (h refl)
get_or-index_of n (x ∷ xs) h = elim (ℕ_discrete x n) [
  | yes e ↦ ground arith
  | no ne ↦ ground (arith, get_or-index_of n xs)
]

-- The lowest stream that may follow.
abbrev pub above : Option ℕ → ℕ
above none = 0
above (some id) = id + 1

-- The selector once chosen stays.
scan_selector :
    (sizes : List ℕ) (previous : Option ℕ) (rs : List TxRecord) (s f : Scan) (k : ℕ)
    → scan sizes previous rs s ≡ some f
    → s.selector ≡ some k
    → f.selector ≡ some k
unfolding scan
scan_selector sizes previous [] s f k h e = ground arith
scan_selector sizes previous (r ∷ rs) s f k h e =
    elim (Option-cases (select sizes s.selector r.size)) [
      | inl e' ↦ absurd (ground arith)
      | inr (c, e') ↦
          scan_selector sizes (some r.stream_id) rs (advanced s r c) f k (ground arith)
            (ground arith)
    ]

select_lem :
    (sizes : List ℕ) (before after : Option ℕ) (size : ℕ)
    → select sizes before size ≡ some after
    → (size ≢ 0)
    → (k : ℕ) × (after ≡ some k) × (get_or sizes k 0 ≡ size)
select_lem sizes before after size h nz =
    (index_of size sizes, ground arith, get_or-index_of size sizes (ground arith))

-- A payload has the size that the selector of the packet stands for.
selected_size :
    (sizes : List ℕ) (previous : Option ℕ) (rs : List TxRecord) (s f : Scan) (before : Option ℕ)
    (size : ℕ) (c : Option ℕ)
    → select sizes before size ≡ some c
    → scan sizes previous rs s ≡ some f
    → s.selector ≡ c
    → size ≡ 0 ⊎ (size ≡ get_or sizes (selected f.selector) 0) × (size ≢ 0)
selected_size sizes previous rs s f before size c e h z = elim (ℕ_discrete size 0) [
  | yes none_sent ↦ inl none_sent
  | no sent ↦
      let (k, chosen, found) = select_lem sizes before c size e sent in
      let kept = scan_selector sizes previous rs s f k h (z ∙ chosen) in
      inr (sym found ∙ ap (λ (o : Option ℕ). get_or sizes (selected o) 0) (sym kept), sent)
]

pub scan-Ordered :
    (sizes : List ℕ) (previous : Option ℕ) (rs : List TxRecord) (s f : Scan)
    → scan sizes previous rs s ≡ some f
    → Ordered (get_or sizes (selected f.selector) 0) (above previous) rs
unfolding scan
scan-Ordered sizes previous [] s f h = Ordered.done
scan-Ordered sizes previous (r ∷ rs) s f h = elim (Option-cases (select sizes s.selector r.size)) [
  | inl e ↦ absurd (ground arith)
  | inr (c, e) ↦
      let rest : scan sizes (some r.stream_id) rs (advanced s r c) ≡ some f = ground arith in
      Ordered.next (ground arith) (ground arith) (ground arith) (ground arith) (ground arith)
        (selected_size sizes (some r.stream_id) rs (advanced s r c) f s.selector r.size c e rest
          refl)
        (scan-Ordered sizes (some r.stream_id) rs (advanced s r c) f rest)
]

pub scan_mask :
    (sizes : List ℕ) (previous : Option ℕ) (rs : List TxRecord) (s f : Scan)
    → scan sizes previous rs s ≡ some f
    → f.mask ≡ mask_of s.mask rs
unfolding scan
scan_mask sizes previous [] s f h = ground arith
scan_mask sizes previous (r ∷ rs) s f h = elim (Option-cases (select sizes s.selector r.size)) [
  | inl e ↦ absurd (ground arith)
  | inr (c, e) ↦ scan_mask sizes (some r.stream_id) rs (advanced s r c) f (ground arith)
]

length-taken :
    (payload : Option (List ℕ)) (n : ℕ)
    → n ≤ elim payload [ none ↦ 0 | some bytes ↦ length bytes ]
    → length (elim payload [ none ↦ [] | some bytes ↦ take n bytes ]) ≡ n
length-taken none n h = omega arith
length-taken (some bytes) n h = omega (arith, length-take n bytes)

pub length-tx_payload : (r : TxRecord) → IsArray r → length (tx_payload r) ≡ r.size
length-tx_payload r a = length-taken r.payload r.size a

pub length-tx_bytes : (r : TxRecord) → IsArray r → length (tx_bytes r) ≡ 4 + r.size
unfolding tx_bytes
length-tx_bytes r a =
    let crc = checksum r.stream_id (tx_payload r) (tx_header r) in
    omega
      (arith, length-append (tx_payload r) (u8 crc ∷ u8 (crc >>> 8) ∷ []), length-tx_payload r a)

pub scan_total :
    (sizes : List ℕ) (previous : Option ℕ) (rs : List TxRecord) (s f : Scan)
    → All IsArray rs
    → scan sizes previous rs s ≡ some f
    → f.total ≡ s.total + length (tx_all rs)
unfolding scan tx_all
scan_total sizes previous [] s f a h = ground arith
scan_total sizes previous (r ∷ rs) s f a h = elim (Option-cases (select sizes s.selector r.size)) [
  | inl e ↦ absurd (ground arith)
  | inr (c, e) ↦ omega (
    arith,
    scan_total sizes (some r.stream_id) rs (advanced s r c) f (a.1) (ground arith),
    length-append (tx_bytes r) (tx_all rs),
    length-tx_bytes r (a.0),
  )
]

-- The selector is below the count of sizes.
index_of_le : (n : ℕ) (sizes : List ℕ) → index_of n sizes ≤ length sizes
index_of_le n [] = omega arith
index_of_le n (x ∷ xs) = ground (arith, index_of_le n xs)

select_small :
    (sizes : List ℕ) (before after : Option ℕ) (size : ℕ)
    → select sizes before size ≡ some after
    → selected before < 4
    → length sizes ≤ 4
    → selected after < 4
select_small sizes before after size e p q = elim (ℕ_discrete size 0) [
  | yes z ↦ let same : after ≡ before = ground arith in rw same p
  | no nz ↦
      let chosen : after ≡ some (index_of size sizes) = ground arith in
      rw chosen (ground (arith, index_of_le size sizes))
]

pub selector_small :
    (sizes : List ℕ) (previous : Option ℕ) (rs : List TxRecord) (s f : Scan)
    → scan sizes previous rs s ≡ some f
    → selected s.selector < 4
    → length sizes ≤ 4
    → selected f.selector < 4
unfolding scan
selector_small sizes previous [] s f h p q = let same : f ≡ s = ground arith in rw same p
selector_small sizes previous (r ∷ rs) s f h p q =
    elim (Option-cases (select sizes s.selector r.size)) [
      | inl e ↦ absurd (ground arith)
      | inr (c, e) ↦
          selector_small sizes (some r.stream_id) rs (advanced s r c) f (ground arith)
            (select_small sizes s.selector c r.size e p q) q
    ]
