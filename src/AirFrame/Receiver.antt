-- ===== src/AirFrame/Receiver.antt =====
-- A receiver of the aggregates of `air_downlink_build` of firmware/radio/src/air_frame.c: it knows
-- the stream mask and the sizes, and accepts a record only with its checksum.
use mathlib.Core.List.{append_assoc}
use open_ull_receiver.Base.{
  ℕ, zero, suc, ◌+◌, ◌%◌, ◌<◌, ◌≡◌, ◌≢◌, refl, ◌⊎◌, Option, none, some, List, [], ◌∷◌, ◌++◌, take,
  drop, get_or, bit_and, bit_or, u8, ◌==◌, ◌&&◌, not, arith, ◌<<<◌, ◌>>>◌, take_over, drop_over,
  if◌then◌else◌, ◌>>=◌,
}
use open_ull_receiver.Base.Bits.{bit_or_apart}
use open_ull_receiver.AirFrame.{TxRecord, tx_bytes, tx_payload, tx_header, checksum, max_streams}
use open_ull_receiver.AirFrame.Scanning.{IsArray, length-tx_payload}

-- What a receiver learns of a record.
pub record Heard : Type 0 where
  pub stream_id : ℕ
  pub tx_sequence : ℕ
  pub ack_sequence : ℕ
  pub kind : ℕ
  pub payload : List ℕ

abbrev pub heard : TxRecord → Heard
heard r = record {
  stream_id = r.stream_id;
  tx_sequence = r.tx_sequence;
  ack_sequence = r.ack_sequence;
  kind = r.kind;
  payload = tx_payload r;
}

abbrev pub heard_all : List TxRecord → List Heard
heard_all [] = []
heard_all (r ∷ rs) = heard r ∷ heard_all rs

-- The two bytes of the checksum behind the payload.
hear_rest : ℕ → ℕ → ℕ → List ℕ → List ℕ → Option (Heard × List ℕ)
hear_rest id a b payload (c ∷ d ∷ rest) =
    let crc = checksum id payload (a ∷ b ∷ []) in
    if c == u8 crc && d == u8 (crc >>> 8)
    then some (
      record {
        stream_id = id;
        tx_sequence = a >>> 4;
        ack_sequence = a % 16;
        kind = b % 4;
        payload = payload;
      },
      rest,
    )
    else none
hear_rest id a b payload _ = none

pub hear_one : ℕ → ℕ → List ℕ → Option (Heard × List ℕ)
hear_one size id (a ∷ b ∷ rest) =
    let bytes = if bit_and b 4 == 0 then size else 0 in
    hear_rest id a b (take bytes rest) (drop bytes rest)
hear_one size id _ = none

unfoldable pub hear_all : ℕ → ℕ → ℕ → ℕ → List ℕ → Option (List Heard)
hear_all zero id size mask [] = some []
hear_all zero id size mask (x ∷ xs) = none
hear_all (suc left) id size mask src =
    let passed = hear_all left (id + 1) size mask src in
    if bit_and mask (1 <<< id) == 0
    then passed
    else do r ← hear_one size id src; rs ← hear_all left (id + 1) size mask (r.1); some (r.0 ∷ rs)

-- The packet: its first byte selects the size of the payloads.
unfoldable pub hear : List ℕ → ℕ → List ℕ → Option (List Heard)
hear sizes mask [] = none
hear sizes mask (lead ∷ src) = hear_all max_streams 0 (get_or sizes (lead % 4) 0) mask src

-- The flag of an empty record stands apart from its kind.
kind_bits :
    (kind : ℕ)
    → kind < 4
    → (bit_or kind 4 ≡ kind + 4)
      × (bit_or kind 0 ≡ kind)
      × (bit_and (kind + 4) 4 ≡ 4)
      × (bit_and kind 4 ≡ 0)
kind_bits zero h = (refl, refl, refl, refl)
kind_bits (suc zero) h = (refl, refl, refl, refl)
kind_bits (suc (suc zero)) h = (refl, refl, refl, refl)
kind_bits (suc (suc (suc zero))) h = (refl, refl, refl, refl)
kind_bits (suc (suc (suc (suc kind)))) h = absurd (omega arith)

header_low :
    (kind size : ℕ)
    → kind < 4
    → let b = u8 (bit_or kind (if size == 0 then 4 else 0)) in
      (b % 4 ≡ kind) × ((bit_and b 4 == 0) ≡ not (size == 0))
header_low kind size h = ground (arith, kind_bits kind h)

pub hear_one-tx_bytes :
    (size : ℕ) (r : TxRecord) (rest : List ℕ)
    → IsArray r
    → r.tx_sequence < 16
    → r.ack_sequence < 16
    → r.kind < 4
    → r.size ≡ 0 ⊎ (r.size ≡ size) × (r.size ≢ 0)
    → hear_one size r.stream_id (tx_bytes r ++ rest) ≡ some (heard r, rest)
unfolding tx_bytes hear_one hear_rest
hear_one-tx_bytes size r rest a t k d s =
    let crc = checksum r.stream_id (tx_payload r) (tx_header r) in
    let pair : List ℕ = u8 crc ∷ u8 (crc >>> 8) ∷ [] in
    ground (
      arith,
      header_low r.kind r.size d,
      bit_or_apart 4 r.tx_sequence r.ack_sequence k,
      append_assoc (tx_payload r) pair rest,
      take_over r.size (tx_payload r) (pair ++ rest) (length-tx_payload r a),
      drop_over r.size 0 r.size (tx_payload r) (pair ++ rest) (length-tx_payload r a) (omega arith),
    )
