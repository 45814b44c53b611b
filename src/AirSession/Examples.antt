-- ===== src/AirSession/Examples.antt =====
-- Runs of firmware/radio/src/air_session.c, and the theorems at concrete inputs.
use open_ull_receiver.Base.{ℕ, ◌≡◌, refl, true, some, List, [], ◌∷◌, ◌++◌, replicate, arith}
use open_ull_receiver.Clock.{Time}
use open_ull_receiver.AirSession.{
  Plan, Anchor, Seed, Planning, plan_build, session_time, e0_parameters, e2_message,
}
use open_ull_receiver.AirSession.Planned.{Plannable, Plans, plan_build_planned}
use open_ull_receiver.AirSession.Layout.{IsSeed, Reads, e2_message-Reads}

-- Instant 10, five events after the anchor, which stands near the end of the clock.
abbrev proposal : List ℕ
proposal = e0_parameters ++ (0x0a ∷ 0x00 ∷ [])

abbrev reply : List ℕ
reply = 0xe1 ∷ 0xd0 ∷ 0x07 ∷ 0x00 ∷ 0xa0 ∷ 0x0f ∷ 0x00 ∷ 0x0a ∷ 0x00 ∷ []

abbrev anchor : Anchor
anchor = record { hs = 0x0fffff00; interval_hs = 96; hus = 600; event_counter = 5 }

abbrev seed : Seed
seed = record {
  access_address = 0x12345678;
  event_counter = 7;
  channel_map = 0xff ∷ 0xff ∷ 0xff ∷ 0xff ∷ 0x1f ∷ [];
  receive_enabled = 1;
  iv = replicate 8 0x11;
  key = replicate 16 0x22;
}

abbrev plan : Plan
plan = record {
  start = record { hs = 234; hus = 350 };
  acl_instant = 10;
  event_counter = 7;
  access_address = 0x12345678;
  offset_us = 3000;
  e2 = e2_message proposal seed 10 3000;
}

plan_build_planned_example :
    ((p : Plan)
      → plan_build true (some proposal) (some reply) (some anchor) (some seed) 3000
        ≡ Planning.planned p
      → Plannable proposal reply anchor seed 3000 × Plans proposal anchor seed 3000 p)
    × (Plannable proposal reply anchor seed 3000
        → (p : Plan) × (plan_build true (some proposal) (some reply) (some anchor) (some seed) 3000
            ≡ Planning.planned p))
plan_build_planned_example = plan_build_planned proposal reply anchor seed 3000

abbrev late : Time
late = record { hs = 112361715; hus = 405 }

late_time : session_time (some plan) 4000000000 2 true ≡ some late
unfolding session_time
late_time = refl

seed-IsSeed : IsSeed seed
seed-IsSeed = record {
  map_size = refl;
  iv_size = refl;
  key_size = refl;
  address_width = omega arith;
  counter_width = omega arith;
}

e2_message-Reads_example : Reads proposal seed 10 3000 (e2_message proposal seed 10 3000)
e2_message-Reads_example =
    e2_message-Reads proposal seed 10 3000 seed-IsSeed (omega arith) (omega arith)
