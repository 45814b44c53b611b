-- ===== src/AirFeedback/Examples.antt =====
-- Runs of the model of firmware/radio/src/air_feedback.c, with a cipher that changes nothing and
-- accepts every tag.
use open_ull_receiver.Base.{
  ℕ, ◌+◌, ◌-◌, ◌*◌, ◌%◌, ◌<◌, ◌≡◌, refl, inr, true, false, none, some, List, [], ◌∷◌, ◌++◌,
  replicate, arith, same_bytes, reversed, ◌==◌,
}
use open_ull_receiver.Clock.{half_us, circle}
use open_ull_receiver.AirSession.{Plan, session_time, interval_us}
use open_ull_receiver.AirFrame.{
  uplink_parse, contents, rx_records, rx_record, trailer, air_uplink_parse_control, sizes_valid,
}
use open_ull_receiver.Ccm.{Mbedtls, Session, ccm_decrypt, ccm_session_key, ccm_reset, renew, nonce}
use open_ull_receiver.Ccm.Cache.{IsCoherent}
use open_ull_receiver.AirFeedback.{
  Channel, Feedback, observe, observe_all, next_ack_of, note_channel, sequence_of,
}
use open_ull_receiver.AirFeedback.Effects.{Settled}
use open_ull_receiver.AirFeedback.Sequencing.{passed, sequence_of-note_channel}
use open_ull_receiver.AirFeedback.Accepting.{accept_frame-accept_frame}
use open_ull_receiver.AirFeedback.Reception.{
  Snapshot, Outcome, accept_frame, take_plain, commit, settled, captures, in_slot,
}

clear : Mbedtls (List ℕ)
clear = record {
  setkey = λ key. some key;
  encrypt_and_tag = λ c n aad p. some (p ++ replicate 4 0);
  auth_decrypt = λ c n aad p t. some p;
}

reset-IsCoherent : IsCoherent clear ccm_reset
reset-IsCoherent = record { key_size = refl; cached = λ c h. absurd (ground arith) }

abbrev silent : Channel
silent = record { frame = 0; expected_tx = 0; next_ack = 0; valid = false; after_tx = false }

abbrev idle : Feedback
idle = record { generation = 0; first = silent; second = silent }

abbrev plan : Plan
plan = record {
  start = record { hs = 0x0ffffff0; hus = 100 };
  acl_instant = 0;
  event_counter = 0;
  access_address = 1;
  offset_us = 2000;
  e2 = 0xe2 ∷ replicate 67 0;
}

-- A reply of stream 1 without a payload, in frame 3, after the clock has gone round.
abbrev reply : Snapshot
reply = record {
  time = record { hs = 32; hus = 300 };
  descriptor = 0 ∷ 0 ∷ 0x0710 ∷ [];
  copied = 7;
  payload = 0 ∷ 0x59 ∷ 4 ∷ replicate 61 0;
}

abbrev heard : Channel
heard = record { frame = 3; expected_tx = 9; next_ack = 6; valid = true; after_tx = false }

abbrev heard_state : Feedback
heard_state = record { generation = 1; first = heard; second = silent }

abbrev cached : Session (List ℕ)
cached = record { ccm = some (replicate 16 0); key_le = replicate 16 0 }

reply_accepted :
    accept_frame clear ccm_reset (some idle) (some plan) (some reply) 3
    ≡ (cached, Outcome.accepted heard_state none [])
unfolding accept_frame session_time in_slot ccm_decrypt ccm_session_key renew reversed same_bytes
    clear nonce take_plain air_uplink_parse_control uplink_parse contents rx_records rx_record
    trailer sizes_valid commit settled observe_all observe next_ack_of captures
reply_accepted = refl

accept_frame-accept_frame_example :
    ((half_us reply.time + circle - (half_us plan.start + 2 * (3 * interval_us)) % circle) % circle
      < 10000)
    × Settled 3 idle heard_state
    × ((accept_frame clear cached (some heard_state) (some plan) (some reply) 3).1
        ≡ Outcome.accepted heard_state none [])
accept_frame-accept_frame_example =
    accept_frame-accept_frame clear plan reply 3 ccm_reset cached idle heard_state none []
      reset-IsCoherent refl reply_accepted

-- The reply asks for the record after the one sent with number 8.
sequence_of-note_channel_example :
    (sequence_of heard 3 1 ≡ (heard.expected_tx, heard.next_ack))
    × ((sequence_of ((note_channel 3 true 8 heard).0) (3 + 1 + 20) 1).0
        ≡ (8 + passed 3 1 (heard.expected_tx == (8 + 1) % 16) 20) % 16)
sequence_of-note_channel_example =
    sequence_of-note_channel heard 3 1 8 20 refl refl refl (omega arith) (omega arith) (omega arith)
      (inr refl)
