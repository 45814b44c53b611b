-- ===== src/TonePacket.antt =====
-- The contents of the packets that are sent: the options and the records of `build_packet` of
-- firmware/radio/src/tone_packet.c, and firmware/radio/src/tone_source.c. The stored tone of tone_frames.inc is a parameter. `none` stands
-- for NULL; `pdu` holds the first `length` bytes of the array.
pub mod Build
pub mod Carried
mod Examples
use open_ull_receiver.Base.{
  ℕ, ◌+◌, ◌-◌, ◌%◌, ◌^◌, bit_and, u8, u16, ◌<<<◌, ◌>>>◌, Bool, true, false, not, ◌&&◌, ◌||◌, Option,
  none, some, List, [], ◌∷◌, ◌++◌, length, get_or, take, drop, ltb, leb, ◌==◌, if◌then◌else◌,
}
use open_ull_receiver.Clock.{Time}
use open_ull_receiver.AirSession.{Plan, session_time}
use open_ull_receiver.AirFrame.{TxRecord, Building, downlink_build}
use open_ull_receiver.Ccm.{Mbedtls, Session, Sealing, ccm_encrypt}
use open_ull_receiver.Csa2.{csa2_subevent}

abbrev pub tone_frame_count : ℕ
tone_frame_count = 201

abbrev pub tone_channel_bytes : ℕ
tone_channel_bytes = 95

-- A value for each of the two channels.
pub record Pair (A : Type 0) : Type 0 where
  pub left : A
  pub right : A

-- `struct ull_tone_packet_options`
pub record Options : Type 0 where
  pub event_index : ℕ
  pub packet_counter : ℕ
  pub direction : ℕ
  pub header : ℕ
  pub aad : ℕ
  pub tx_sequence : Pair ℕ
  pub ack_sequence : Pair ℕ
  pub stream_mask : ℕ

-- `struct ull_tone_packet`
pub record Packet : Type 0 where
  pub start : Time
  pub channel : ℕ
  pub size : ℕ
  pub pdu : List ℕ

-- One record with a frame, or an empty one.
abbrev pub frame_record : ℕ → ℕ → ℕ → Option (List ℕ) → TxRecord
frame_record stream_id tx ack payload = record {
  payload = payload;
  size = elim payload [ none ↦ 0 | some _ ↦ tone_channel_bytes ];
  stream_id = stream_id;
  tx_sequence = tx;
  ack_sequence = ack;
  kind = 0;
}

-- The records for the streams of a mask.
pub frame_records : ℕ → Pair ℕ → Pair ℕ → Pair (Option (List ℕ)) → List TxRecord
frame_records mask tx ack frames =
    let first = frame_record 1 tx.left ack.left frames.left in
    let second = frame_record 2 tx.right ack.right frames.right in
    let rest = if bit_and mask 4 == 0 then [] else second ∷ [] in
    if bit_and mask 2 == 0 then rest else first ∷ rest

-- `ull_tone_build_mask`
pub tone_build_mask :
    (ℕ → Pair (List ℕ)) → ℕ → Option (Pair ℕ) → Option (Pair ℕ) → ℕ → Bool → ℕ → Building
tone_build_mask tone frame_index (some tx) (some ack) active_mask given capacity =
    if leb tone_frame_count frame_index
      || not (active_mask == 2) && not (active_mask == 4) && not (active_mask == 6)
    then Building.argument
    else downlink_build given capacity
        (some (
          frame_records active_mask tx ack (record {
            left = some ((tone frame_index).left);
            right = some ((tone frame_index).right);
          })))
        (some (tone_channel_bytes ∷ [])) 0
tone_build_mask tone frame_index _ _ active_mask given capacity = Building.argument

-- What a packet is to carry: the frames of a caller, empty records, or the stored tone.
pub data Content : Type 0 where
  audio : Pair (List ℕ) → Content
  empty stored : Content

-- The content, with what follows it in the packet: nothing, or a header and a control message.
pub record Order : Type 0 where
  pub content : Content
  pub poll_header : Option ℕ
  pub stereo_ack : Bool
  pub control : Option (List ℕ)

-- The mask that is asked for; 0 stands for both streams.
abbrev pub requested : Options → ℕ
requested o = if o.stream_mask == 0 then 6 else o.stream_mask

-- The records of the packet.
pub aggregate : (ℕ → Pair (List ℕ)) → Options → Content → Building
aggregate tone o (Content.audio frames) =
    downlink_build true 201
      (some (
        frame_records (requested o) o.tx_sequence o.ack_sequence
          (record { left = some frames.left; right = some frames.right })))
      (some (tone_channel_bytes ∷ [])) 0
aggregate tone o Content.empty =
    downlink_build true 201
      (some (
        frame_records (requested o) o.tx_sequence o.ack_sequence
          (record { left = none; right = none })))
      (some (tone_channel_bytes ∷ [])) 0
aggregate tone o Content.stored =
    elim (tone_build_mask tone o.event_index (some o.tx_sequence) (some o.ack_sequence)
      (requested o) true 201) [
        | Building.built bytes mask ↦
            if length bytes == 100 || length bytes == 199
            then Building.built bytes mask
            else Building.argument
        | failure ↦ failure
      ]
