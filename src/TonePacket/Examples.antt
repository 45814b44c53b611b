-- ===== src/TonePacket/Examples.antt =====
-- A run of the model of firmware/radio/src/tone_packet.c: an audio packet from end to end.
use open_ull_receiver.Base.{
  ℕ, ◌+◌, ◌≤◌, ◌≡◌, refl, true, some, List, [], ◌∷◌, ◌++◌, length, take, drop, replicate,
  same_bytes, reversed, arith,
}
use open_ull_receiver.AirSession.{Plan, session_time}
use open_ull_receiver.AirFrame.{downlink_build, scan, tx_all, tx_bytes, sizes_valid, crc32_continue}
use open_ull_receiver.AirFrame.Receiver.{hear, heard_all}
use open_ull_receiver.Ccm.{
  Sealing, ccm_encrypt, ccm_decrypt, ccm_session_key, renew, ccm_reset, nonce,
}
use open_ull_receiver.Ccm.Cache.{IsCoherent}
use open_ull_receiver.Ccm.Toy.{tag, toy, toy-Opens}
use open_ull_receiver.Csa2.{csa2_subevent, map_channels, start, first_index, next_prn, permute, hop}
use open_ull_receiver.TonePacket.{Pair, Options, Packet, frame_records, requested, aggregate}
use open_ull_receiver.TonePacket.Build.{
  Packing, build_packet, audio_order, placed, trailing, packing,
}
use open_ull_receiver.TonePacket.Carried.{IsPlaced, build_packet_heard}

abbrev plan : Plan
plan = record {
  start = record { hs = 5; hus = 6 };
  acl_instant = 0;
  event_counter = 1000;
  access_address = 0x8e89bed6;
  offset_us = 2000;
  e2 = 0xe2 ∷ replicate 18 0 ++ (0xff ∷ 0xff ∷ 0xff ∷ 0xff ∷ 0x1f ∷ []) ++ replicate 44 7;
}

abbrev options : Options
options = record {
  event_index = 70000;
  packet_counter = 70000;
  direction = 1;
  header = 0x30;
  aad = 0x20;
  tx_sequence = record { left = 3; right = 4 };
  ack_sequence = record { left = 5; right = 6 };
  stream_mask = 0;
}

abbrev frames : Pair (List ℕ)
frames = record { left = replicate 95 0x11; right = replicate 95 0x22 }

abbrev silence : ℕ → Pair (List ℕ)
silence index = record { left = replicate 95 0; right = replicate 95 0 }

result : Packing
result = (build_packet toy silence ccm_reset (some plan) (some options) true (audio_order frames)).1

abbrev packed_or : Packing → Packet
packed_or (Packing.packed p) = p
packed_or _ = record { start = plan.start; channel = 0; size = 0; pdu = [] }

packet : Packet
packet = packed_or result

audio_packed :
    (build_packet toy silence ccm_reset (some plan) (some options) true (audio_order frames)).1
    ≡ Packing.packed packet
unfolding packet result build_packet placed trailing packing aggregate frame_records session_time
    csa2_subevent map_channels start first_index next_prn permute hop downlink_build scan tx_all
    tx_bytes sizes_valid crc32_continue ccm_encrypt ccm_session_key renew reversed same_bytes toy
    tag nonce
audio_packed = refl

reset-IsCoherent : IsCoherent toy ccm_reset
reset-IsCoherent = record { key_size = refl; cached = λ c h. absurd (ground arith) }

build_packet_heard_example :
    (bytes : List ℕ) × (mask : ℕ) × IsPlaced plan options mask packet
    × (take 2 packet.pdu ≡ options.header ∷ (length bytes + 4) ∷ [])
    × (packet.size ≡ length packet.pdu)
    × (length packet.pdu ≤ 207)
    × ((ccm_decrypt toy ccm_reset true
          (take 16 (drop 52 plan.e2))
          (take 8 (drop 44 plan.e2))
          options.packet_counter
          options.direction
          options.aad
          (drop 2 packet.pdu)
          201).1
        ≡ Sealing.sealed bytes)
    × (hear (95 ∷ []) mask bytes
        ≡ some (
            heard_all (
              frame_records
                (requested options)
                options.tx_sequence
                options.ack_sequence
                (record { left = some frames.left; right = some frames.right }))))
build_packet_heard_example =
    build_packet_heard toy silence ccm_reset ccm_reset plan options frames packet toy-Opens
      reset-IsCoherent reset-IsCoherent refl (omega arith) (omega arith) audio_packed
