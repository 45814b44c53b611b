-- ===== src/RawLlcp/Plans.antt =====
-- The plans of firmware/radio/src/raw_llcp.c: a plan is made only where the anchor of the present agrees with the
-- one that was taken with the proposal.
use open_ull_receiver.Base.{
  ℕ, ◌+◌, ◌-◌, ◌*◌, ◌/◌, ◌%◌, ◌^◌, bit_and, u8, u32, sub32, ◌>>>◌, Bool, true, false, ◌&&◌, none,
  some, Option, List, [], ◌∷◌, take, drop, same_bytes, ltb, leb, ◌==◌, if◌then◌else◌,
}
use open_ull_receiver.AirSession.{Anchor, Seed, Plan, Planning, byte_at, plan_build, used_channels}
use open_ull_receiver.RawLlcp.State.{
  Controller, Raw, session_connection_valid, capture_anchor, same_plan,
}

-- The plan, where the result of the builder is 0.
unfoldable pub plan_of : Planning → Option Plan
plan_of Planning.invalid = none
plan_of Planning.untimely = none
plan_of (Planning.planned p) = some p

-- The plan of an anchor, from the messages of the session.
unfoldable pub plan_at : Raw → Anchor → Seed → ℕ → Option Plan
plan_at s anchor seed offset =
    plan_of (plan_build true (some s.sent_e0) (some s.received_e1) (some anchor) (some seed) offset)

-- The second plan, if it is the first.
unfoldable pub agreed : Option Plan → Option Plan → Option Plan
agreed none b = none
agreed (some p) none = none
agreed (some p) (some q) = if same_plan p q then some q else none

unfoldable pub plan_for_anchor : Raw → Option Anchor → Seed → ℕ → Option Plan
plan_for_anchor s none seed offset = none
plan_for_anchor s (some current) seed offset =
    agreed (plan_at s s.origin_anchor seed offset) (plan_at s current seed offset)

-- `plan_for_current_anchor`
unfoldable pub plan_for_current_anchor : Controller → Raw → Seed → ℕ → Option Plan
plan_for_current_anchor c s seed offset =
    if session_connection_valid c s then plan_for_anchor s (capture_anchor c) seed offset else none

unfoldable pub prepared : Raw → Option Plan → Raw × Option Plan
prepared s none = (s, none)
prepared s (some p) = (record s { prepared_plan = p; session_prepared = true }, some p)

-- `ull_raw_prepare_session`; no plan is its status 0x0c.
unfoldable pub prepare_session : Controller → Raw → Seed → ℕ → Raw × Option Plan
prepare_session c s seed offset = prepared s (plan_for_current_anchor c s seed offset)

-- `ull_raw_second_stream_ready`
unfoldable pub second_stream_ready : Raw → Bool
second_stream_ready s = s.e1_received && byte_at s.sent_e0 2 == 2

-- The map in the control structure.
abbrev pub live_map : Controller → List ℕ
live_map c =
    u8 (c.cs 17)
    ∷ u8 (c.cs 17 >>> 8)
    ∷ u8 (c.cs 18)
    ∷ u8 (c.cs 18 >>> 8)
    ∷ bit_and (c.cs 19) 31
    ∷ []

-- `ull_raw_session_channel_map`; the sum of the five `__builtin_popcount` is over all forty bits.
unfoldable pub session_channel_map : Controller → Raw → Option (List ℕ)
session_channel_map c s =
    if session_connection_valid c s && ltb c.cs_index 6 && leb 2 (used_channels 40 0 (live_map c))
    then some (live_map c)
    else none

-- `ull_raw_session_crc_init`
unfoldable pub session_crc_init : Controller → Raw → Option ℕ
session_crc_init c s =
    if s.session_prepared && session_connection_valid c s && ltb c.cs_index 6
    then some (c.cs 8 + bit_and (c.cs 9) 0xff * 2 ^ 16)
    else none

-- The seed of the second stream, from the plan of the first; the counter is set once the time between them is known.
abbrev pub second_seed : Plan → ℕ → Seed
second_seed first counter = record {
  access_address = first.access_address;
  event_counter = counter;
  channel_map = take 5 (drop 19 first.e2);
  receive_enabled = 0;
  iv = take 8 (drop 44 first.e2);
  key = take 16 (drop 52 first.e2);
}

-- The half-microseconds from the start of the first plan to that of the candidate, 0 if it is not later.
abbrev pub stream_delta : Plan → Plan → ℕ
stream_delta first candidate =
    bit_and (sub32 candidate.start.hs first.start.hs) 0x0fffffff * 625
    + candidate.start.hus
    - first.start.hus

-- The plan of the second stream: a candidate on the grid of the first, with its counter.
unfoldable pub second_plan : Controller → Raw → Plan → Option Plan → Option Plan
second_plan c s first none = none
second_plan c s first (some candidate) =
    let delta = stream_delta first candidate in
    if ltb 0 delta && leb delta 4000000 && delta % 10000 == 0
    then plan_for_current_anchor c s (second_seed first (u32 (first.event_counter + delta / 10000)))
        first.offset_us
    else none

unfoldable pub same_map : Option (List ℕ) → Plan → Bool
same_map none first = false
same_map (some m) first = same_bytes 5 m (drop 19 first.e2)

-- `ull_raw_prepare_second_stream`
unfoldable pub prepare_second_stream : Controller → Raw → Plan → Raw × Option Plan
prepare_second_stream c s first =
    let candidate = plan_for_current_anchor c s (second_seed first 0) first.offset_us in
    if same_map (session_channel_map c s) first
      && second_stream_ready s
      && same_plan first s.committed_first
      && c.llc == s.committed_llc
      && c.lld == s.committed_lld
    then prepared s (second_plan c s first candidate)
    else (s, none)

-- The seed that a plan carries in its message.
abbrev pub seed_of : Plan → Seed
seed_of plan = record {
  access_address = plan.access_address;
  event_counter = plan.event_counter;
  channel_map = take 5 (drop 19 plan.e2);
  receive_enabled = byte_at plan.e2 18;
  iv = take 8 (drop 44 plan.e2);
  key = take 16 (drop 52 plan.e2);
}

unfoldable pub agrees : Option Plan → Plan → Bool
agrees none plan = false
agrees (some current) plan = same_plan plan current

-- `prepared_plan_current`
unfoldable pub prepared_plan_current : Controller → Raw → Plan → Bool
prepared_plan_current c s plan =
    s.session_prepared
    && same_plan plan s.prepared_plan
    && agrees (plan_for_current_anchor c s (seed_of plan) plan.offset_us) plan
