-- ===== src/AirFrame/Examples.antt =====
-- Runs of the model of firmware/radio/src/air_frame.c.
use open_ull_receiver.Base.{
  ℕ, ◌≤◌, ◌≡◌, refl, ◌↔◌, true, Option, none, some, List, [], ◌∷◌, ◌++◌, length, arith,
}
use open_ull_receiver.AirFrame.{
  TxRecord, RxRecord, ControlRecord, downlink_build, Building, scan, tx_all, tx_bytes, sizes_valid,
  crc32_continue, uplink_parse, Parsing,
}
use open_ull_receiver.AirFrame.Parse.{rx_all, control_bytes}
use open_ull_receiver.AirFrame.Accept.{Accepted, uplink_parse-Accepted}
use open_ull_receiver.AirFrame.Receiver.{hear, heard_all}
use open_ull_receiver.AirFrame.Downlink.{hear-downlink_build}

-- The standard check value of the CRC-32.
crc32_check :
    crc32_continue 0 (0x31 ∷ 0x32 ∷ 0x33 ∷ 0x34 ∷ 0x35 ∷ 0x36 ∷ 0x37 ∷ 0x38 ∷ 0x39 ∷ [])
    ≡ 0xcbf43926
unfolding crc32_continue
crc32_check = refl

-- Two streams, of which the second is empty.
abbrev records : List TxRecord
records =
    record {
      payload = some (10 ∷ 20 ∷ 30 ∷ []);
      size = 3;
      stream_id = 1;
      tx_sequence = 5;
      ack_sequence = 9;
      kind = 0;
    }
    ∷ record {
      payload = none;
      size = 0;
      stream_id = 2;
      tx_sequence = 15;
      ack_sequence = 0;
      kind = 1;
    }
    ∷ []

abbrev packet : List ℕ
packet = 1 ∷ 89 ∷ 0 ∷ 10 ∷ 20 ∷ 30 ∷ 205 ∷ 161 ∷ 240 ∷ 5 ∷ 61 ∷ 117 ∷ []

records_built :
    downlink_build true 200 (some records) (some (2 ∷ 3 ∷ [])) 0 ≡ Building.built packet 6
unfolding downlink_build scan tx_all tx_bytes sizes_valid crc32_continue
records_built = refl

hear-downlink_build_example :
    (hear (2 ∷ 3 ∷ []) 6 packet ≡ some (heard_all records))
    × (length packet ≤ 255)
    × (length packet ≤ 200)
hear-downlink_build_example =
    hear-downlink_build 200 0 6 records (2 ∷ 3 ∷ []) packet (omega arith, (omega arith, tt))
      (omega arith) records_built

-- An aggregate of one stream with a trailer.
abbrev heard : List RxRecord
heard =
    record {
      payload = 7 ∷ 8 ∷ [];
      stream_id = 1;
      tx_sequence = 3;
      ack_sequence = 4;
      kind = 2;
      flags = 2;
    }
    ∷ []

abbrev control : Option ControlRecord
control = some (record { payload = 0x55 ∷ []; header = 2 })

abbrev aggregate : List ℕ
aggregate = 0 ∷ 0x34 ∷ 2 ∷ 7 ∷ 8 ∷ 2 ∷ 1 ∷ 0x55 ∷ []

uplink_parse-Accepted_example :
    (uplink_parse (some aggregate) 2 (some (2 ∷ 3 ∷ [])) true 4 true ≡ Parsing.parsed heard control)
    ↔ ((lead : ℕ) × (aggregate ≡ lead ∷ (rx_all heard ++ control_bytes control))
        × Accepted lead 2 4 (2 ∷ 3 ∷ []) true heard control)
uplink_parse-Accepted_example = uplink_parse-Accepted aggregate 2 4 (2 ∷ 3 ∷ []) true heard control
