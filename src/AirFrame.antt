-- ===== src/AirFrame.antt =====
-- The records of an Air packet: firmware/radio/src/air_frame.h and firmware/radio/src/air_frame.c.
-- An array with its count, or a pointer with its length, is a list, and `none` stands for NULL;
-- `given` is false where a destination is NULL.
pub mod Accept
pub mod Parse
pub mod Scanning
mod Examples
pub mod Crc
pub mod Downlink
pub mod Receiver
use open_ull_receiver.Base.{
  ℕ, zero, suc, ◌+◌, ◌-◌, ◌*◌, ◌/◌, ◌%◌, ◌^◌, bit_and, bit_or, bit_xor, u8, ◌<<<◌, ◌>>>◌, Bool,
  true, false, not, ◌&&◌, ◌||◌, Option, none, some, List, [], ◌∷◌, ◌++◌, length, get_or, take, drop,
  ltb, leb, ◌==◌, if◌then◌else◌, ◌>>=◌,
}

abbrev pub max_streams : ℕ
max_streams = 4

abbrev pub max_aggregate : ℕ
max_aggregate = 255

abbrev pub max_record_payload : ℕ
max_record_payload = 127

-- `struct air_tx_record`
pub record TxRecord : Type 0 where
  pub payload : Option (List ℕ)
  pub size : ℕ
  pub stream_id : ℕ
  pub tx_sequence : ℕ
  pub ack_sequence : ℕ
  pub kind : ℕ

-- `struct air_rx_record`; `payload` is the view of `length` bytes.
pub record RxRecord : Type 0 where
  pub payload : List ℕ
  pub stream_id : ℕ
  pub tx_sequence : ℕ
  pub ack_sequence : ℕ
  pub kind : ℕ
  pub flags : ℕ

-- `struct air_control_record`, where it is present.
pub record ControlRecord : Type 0 where
  pub payload : List ℕ
  pub header : ℕ

-- One step of the CRC-32, a byte, and all bytes.
abbrev pub crc32_bit : ℕ → ℕ
crc32_bit crc = bit_xor (crc >>> 1) (if bit_and crc 1 == 0 then 0 else 0xedb88320)

abbrev pub crc32_bits : ℕ → ℕ → ℕ
crc32_bits zero crc = crc
crc32_bits (suc n) crc = crc32_bits n (crc32_bit crc)

abbrev pub crc32_bytes : ℕ → List ℕ → ℕ
crc32_bytes crc [] = crc
crc32_bytes crc (x ∷ xs) = crc32_bytes (crc32_bits 8 (bit_xor crc x)) xs

-- `~x` on 32 bits
abbrev pub not32 : ℕ → ℕ
not32 x = bit_xor x 0xffffffff

unfoldable pub crc32_continue : ℕ → List ℕ → ℕ
crc32_continue seed bytes = not32 (crc32_bytes (not32 seed) bytes)

-- Whether `n` is among the sizes.
abbrev pub holds : ℕ → List ℕ → Bool
holds n [] = false
holds n (x ∷ xs) = x == n || holds n xs

-- The loop of `sizes_valid`; the sizes before are in `before`.
abbrev pub distinct : List ℕ → List ℕ → Bool
distinct before [] = true
distinct before (x ∷ xs) =
    not (x == 0) && leb x max_record_payload && not (holds x before) && distinct (x ∷ before) xs

unfoldable pub sizes_valid : Option (List ℕ) → Bool
sizes_valid none = false
sizes_valid (some sizes) =
    not (length sizes == 0) && leb (length sizes) max_streams && distinct [] sizes

-- The first position of `n`, or the count.
abbrev pub index_of : ℕ → List ℕ → ℕ
index_of n [] = 0
index_of n (x ∷ xs) = if x == n then 0 else suc (index_of n xs)

-- What the first loop of `air_downlink_build` keeps; `selector` is `none` before `selected`.
pub record Scan : Type 0 where
  pub total : ℕ
  pub mask : ℕ
  pub selector : Option ℕ

-- The tests on one record; `previous` is the record before.
abbrev pub follows : Option ℕ → ℕ → Bool
follows none id = true
follows (some previous) id = ltb previous id

abbrev pub provided : TxRecord → Bool
provided r = r.size == 0 || elim r.payload [ none ↦ false | some _ ↦ true ]

abbrev pub fits : Option ℕ → TxRecord → Bool
fits previous r =
    ltb r.stream_id max_streams
    && leb r.tx_sequence 15
    && leb r.ack_sequence 15
    && leb r.kind 3
    && follows previous r.stream_id
    && leb r.size max_record_payload
    && provided r

-- The selector after a record: the position of its size, the same for all that have a payload.
abbrev pub select : List ℕ → Option ℕ → ℕ → Option (Option ℕ)
select sizes selector size =
    if size == 0
    then some selector
    else let index = index_of size sizes in
      if index == length sizes
        || elim selector [ none ↦ false | some chosen ↦ not (index == chosen) ]
      then none
      else some (some index)

abbrev pub advanced : Scan → TxRecord → Option ℕ → Scan
advanced s r selector = record {
  total = s.total + (4 + r.size);
  mask = bit_or s.mask (u8 (1 <<< r.stream_id));
  selector = selector;
}

unfoldable pub scan : List ℕ → Option ℕ → List TxRecord → Scan → Option Scan
scan sizes previous [] s = some s
scan sizes previous (r ∷ rs) s = if not (fits previous r) then none else do
  selector ← select sizes s.selector r.size
  scan sizes (some r.stream_id) rs (advanced s r selector)

-- The two bytes before a payload, the payload, and the checksum of both.
abbrev pub tx_header : TxRecord → List ℕ
tx_header r =
    u8 (bit_or (r.tx_sequence <<< 4) r.ack_sequence)
    ∷ u8 (bit_or r.kind (if r.size == 0 then 4 else 0))
    ∷ []

abbrev pub tx_payload : TxRecord → List ℕ
tx_payload r = elim r.payload [ none ↦ [] | some bytes ↦ take r.size bytes ]

abbrev pub checksum : ℕ → List ℕ → List ℕ → ℕ
checksum stream_id payload header =
    crc32_continue (crc32_continue (bit_or 0xffffff00 stream_id) payload) header

unfoldable pub tx_bytes : TxRecord → List ℕ
tx_bytes r =
    let crc = checksum r.stream_id (tx_payload r) (tx_header r) in
    tx_header r ++ (tx_payload r ++ (u8 crc ∷ u8 (crc >>> 8) ∷ []))

unfoldable pub tx_all : List TxRecord → List ℕ
tx_all [] = []
tx_all (r ∷ rs) = tx_bytes r ++ tx_all rs

-- The result of `air_downlink_build`: an error, or `dst`, whose length is `written`, and
-- `stream_mask`.
pub data Building : Type 0 where
  argument over_capacity : Building
  built : List ℕ → ℕ → Building

abbrev pub selected : Option ℕ → ℕ
selected none = 0
selected (some index) = index

unfoldable pub downlink_build : Bool → ℕ → Option (List TxRecord) → Option (List ℕ) → ℕ → Building
downlink_build true capacity (some records) (some sizes) flags =
    if length records == 0
      || ltb max_streams (length records)
      || not (bit_and flags (0xffffffff - 0x70) == 0)
      || not (sizes_valid (some sizes))
    then Building.argument
    else elim (scan sizes none records (record { total = 1; mask = 0; selector = none })) [
      | none ↦ Building.argument
      | some s ↦
          if ltb max_aggregate s.total || ltb capacity s.total
          then Building.over_capacity
          else Building.built (bit_or flags (u8 (selected s.selector)) ∷ tx_all records) s.mask
    ]
downlink_build _ capacity _ _ flags = Building.argument

-- The result of `uplink_parse`.
pub data Parsing : Type 0 where
  argument over_capacity malformed : Parsing
  parsed : List RxRecord → Option ControlRecord → Parsing

-- One record at the cursor, and what follows it.
unfoldable pub rx_record : ℕ → ℕ → List ℕ → Option (RxRecord × List ℕ)
rx_record size id (a ∷ b ∷ rest) =
    let bytes = if bit_and b 0x0c == 0 then size else 0 in
    if ltb (length rest) bytes
    then none
    else some (
      record {
        payload = take bytes rest;
        stream_id = id;
        tx_sequence = a >>> 4;
        ack_sequence = bit_and a 15;
        kind = bit_and b 3;
        flags = b;
      },
      drop bytes rest,
    )
rx_record size id _ = none

-- The loop over the stream numbers.
unfoldable pub rx_records : ℕ → ℕ → ℕ → ℕ → List ℕ → Option (List RxRecord × List ℕ)
rx_records zero id size mask rest = some ([], rest)
rx_records (suc left) id size mask rest =
    let passed = rx_records left (id + 1) size mask rest in
    if bit_and mask (1 <<< id) == 0 then passed else do
      r ← rx_record size id rest
      rs ← rx_records left (id + 1) size mask (r.1)
      some (r.0 ∷ rs.0, rs.1)

-- The trailer behind the records.
unfoldable pub trailer : Bool → List ℕ → Option (Option ControlRecord)
trailer false [] = some none
trailer false (x ∷ xs) = none
trailer true (h ∷ n ∷ payload) =
    if not (length payload == n) || bit_and h 3 == 0 || n == 0 && not (bit_and h 3 == 1)
    then none
    else some (some (record { payload = payload; header = h }))
trailer true _ = none

-- All that follows the first byte.
unfoldable pub contents : Bool → ℕ → ℕ → List ℕ → Option (List RxRecord × Option ControlRecord)
contents has_control size stream_mask src = do
  rs ← rx_records max_streams 0 size stream_mask src
  control ← trailer has_control (rs.1)
  some (rs.0, control)

unfoldable pub uplink_parse : Option (List ℕ) → ℕ → Option (List ℕ) → Bool → ℕ → Bool → Parsing
uplink_parse (some src) stream_mask (some sizes) true capacity has_control =
    if stream_mask == 0 || not (bit_and stream_mask 0xf0 == 0) || not (sizes_valid (some sizes))
    then Parsing.argument
    else if length src == 0 || ltb max_aggregate (length src)
    then Parsing.malformed
    else let selector = bit_and (get_or src 0 0) 3 in
      if leb (length sizes) selector
      then Parsing.malformed
      else elim (contents has_control (get_or sizes selector 0) stream_mask (drop 1 src)) [
        | none ↦ Parsing.malformed
        | some p ↦
            if ltb capacity (length (p.0))
            then Parsing.over_capacity
            else Parsing.parsed (p.0) (p.1)
      ]
uplink_parse _ stream_mask _ _ capacity has_control = Parsing.argument

-- `air_uplink_parse` and `air_uplink_parse_control`
pub air_uplink_parse : Option (List ℕ) → ℕ → Option (List ℕ) → Bool → ℕ → Parsing
air_uplink_parse src stream_mask sizes given capacity =
    uplink_parse src stream_mask sizes given capacity false

unfoldable pub air_uplink_parse_control :
    Option (List ℕ) → ℕ → Option (List ℕ) → Bool → ℕ → Bool → Parsing
air_uplink_parse_control src header sizes given capacity false = Parsing.argument
air_uplink_parse_control src header sizes given capacity true =
    uplink_parse src (bit_and (header >>> 3) 15) sizes given capacity (not (bit_and header 1 == 0))
