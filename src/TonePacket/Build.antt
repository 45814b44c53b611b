-- ===== src/TonePacket/Build.antt =====
-- `build_packet` of firmware/radio/src/tone_packet.c, and its callers.
use open_ull_receiver.Base.{
  ℕ, ◌+◌, ◌-◌, bit_and, u8, u16, ◌>>>◌, Bool, true, false, not, ◌&&◌, ◌||◌, Option, none, some,
  List, [], ◌∷◌, ◌++◌, length, get_or, take, drop, ltb, leb, ◌==◌, if◌then◌else◌,
}
use open_ull_receiver.Clock.{Time}
use open_ull_receiver.AirSession.{Plan, session_time}
use open_ull_receiver.AirFrame.{Building}
use open_ull_receiver.Ccm.{Mbedtls, Session, Sealing, ccm_encrypt}
use open_ull_receiver.Csa2.{csa2_subevent}
use open_ull_receiver.TonePacket.{
  Pair, Options, Packet, Content, Order, aggregate, requested, tone_frame_count,
}

-- What follows the records; `none` is a rejection. `size` is the length of the records.
abbrev pub control_size : Option (List ℕ) → ℕ
control_size none = 0
control_size (some bytes) = length bytes

abbrev pub control_bytes : Option (List ℕ) → List ℕ
control_bytes none = []
control_bytes (some bytes) = bytes

abbrev pub is_empty : Content → Bool
is_empty Content.empty = true
is_empty _ = false

unfoldable pub trailing : Options → Order → ℕ → Option (List ℕ)
trailing o order size = elim order.poll_header [
  | none ↦ some []
  | some poll_header ↦
      let n = control_size order.control in
      if (if order.stereo_ack
          then not (requested o == 6)
            || not (o.header == 0x32)
            || not (o.aad == 0x22)
            || not (n == 0)
          else not (is_empty order.content)
            || not (requested o == 2)
            || not (o.header == 0x11)
            || not (o.aad == 1))
        || ltb 68 n
        || not (bit_and poll_header (0xffffffff - 12) == (if n == 0 then 1 else 3))
        || ltb 201 (size + 2 + n)
      then none
      else some (u8 poll_header ∷ u8 n ∷ control_bytes order.control)
]

-- -1, -2, or 0 with the packet.
pub data Packing : Type 0 where
  refused failed : Packing
  packed : Packet → Packing

-- The first tests of `build_packet`, apart from those for NULL.
abbrev pub out_of_order : Plan → Options → Order → Bool
out_of_order plan o order =
    not (get_or plan.e2 0 0 == 0xe2)
    || (elim order.content [ Content.stored ↦ leb tone_frame_count o.event_index | _ ↦ false ])
    || not (requested o == 2) && not (requested o == 4) && not (requested o == 6)

-- The time and the channel of the packet.
unfoldable pub placed : Plan → Options → ℕ → Option (Time × ℕ)
placed plan o mask =
    if not (bit_and (o.header >>> 3) 15 == mask)
    then none
    else elim (session_time (some plan) o.event_index 0 true) [
      | none ↦ none
      | some start ↦
          elim (csa2_subevent plan.access_address (u16 (plan.event_counter + o.event_index))
            (some (drop 19 plan.e2)) 1 true) [ none ↦ none | some channel ↦ some (start, channel) ]
    ]

-- The sealed packet.
unfoldable pub packing : Options → Time × ℕ → ℕ → Sealing → Packing
packing o place size (Sealing.sealed bytes) = Packing.packed (record {
  start = place.0;
  channel = place.1;
  size = u8 (size + 6);
  pdu = o.header ∷ u8 (size + 4) ∷ bytes;
})
packing o place size _ = Packing.failed

unfoldable pub build_packet :
    {Context : Type 0}
    → Mbedtls Context
    → (ℕ → Pair (List ℕ))
    → Session Context
    → Option Plan
    → Option Options
    → Bool
    → Order
    → Session Context × Packing
build_packet lib tone session (some plan) (some o) true order =
    if out_of_order plan o order
    then (session, Packing.refused)
    else elim (aggregate tone o order.content) [
      | Building.built bytes mask ↦ elim (placed plan o mask) [
        | none ↦ (session, Packing.refused)
        | some place ↦ elim (trailing o order (length bytes)) [
          | none ↦ (session, Packing.refused)
          | some more ↦
              let body = bytes ++ more in
              let done =
                ccm_encrypt lib session true (take 16 (drop 52 plan.e2)) (take 8 (drop 44 plan.e2))
                  o.packet_counter o.direction o.aad body 205 in
              (done.0, packing o place (length body) (done.1))
        ]
      ]
      | _ ↦ (session, Packing.refused)
    ]
build_packet lib tone session _ _ given order = (session, Packing.refused)

-- The callers.
abbrev pub plain_order : Content → Order
plain_order content = record {
  content = content;
  poll_header = none;
  stereo_ack = false;
  control = none;
}

-- `ull_tone_packet_build`, `ull_empty_packet_build`, and `ull_audio_packet_build` where its frames
-- are not NULL
abbrev pub tone_order : Order
tone_order = plain_order Content.stored

abbrev pub empty_order : Order
empty_order = plain_order Content.empty

abbrev pub audio_order : Pair (List ℕ) → Order
audio_order frames = plain_order (Content.audio frames)

-- `ull_poll_packet_build`, and `ull_control_packet_build` where its length is not 0
abbrev pub poll_order : ℕ → Order
poll_order header = record {
  content = Content.empty;
  poll_header = some header;
  stereo_ack = false;
  control = none;
}

abbrev pub control_order : ℕ → List ℕ → Order
control_order header payload = record (poll_order header) { control = some payload }

-- `ull_audio_parent_ack_packet_build` and its two kin, by their content
abbrev pub parent_ack_order : Content → ℕ → Order
parent_ack_order content header = record {
  content = content;
  poll_header = some header;
  stereo_ack = true;
  control = none;
}
