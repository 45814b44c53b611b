-- ===== src/RawLlcp/Examples.antt =====
-- Runs of the model of firmware/radio/src/raw_llcp.c.
use open_ull_receiver.Base.{
  ℕ, ◌≡◌, ◌≤◌, refl, Bool, true, false, some, none, Option, List, [], ◌∷◌, replicate, length, arith,
  same_bytes,
}
use open_ull_receiver.AirSession.{
  Plan, Seed, e2_message, plan_build, refused, expected, used_channels, first_start, get16, put16,
  put24, put32,
}
use open_ull_receiver.AirFeedback.Reception.{ControlRx}
use open_ull_receiver.ParentAck.{
  header, receive, malformed, acknowledge, take_data, control_pdu, wheel_pdu, framed, is_wheel,
  empty_pdu,
}
use open_ull_receiver.RawLlcp.State.{
  Controller, Raw, no_plan, no_air_parent, air_parent_current, parent_sequence,
  session_connection_valid, capture_anchor, same_plan,
}
use open_ull_receiver.RawLlcp.Detached.{UsbCall, detached_eligible, receive_detached}
use open_ull_receiver.RawLlcp.Parent.{receive_air_control}
use open_ull_receiver.RawLlcp.Plans.{
  plan_of, plan_at, agreed, plan_for_anchor, plan_for_current_anchor, agrees, prepared_plan_current,
}
use open_ull_receiver.RawLlcp.Send.{Answers, e0_message, commit_air, commit_session}
use open_ull_receiver.RawLlcp.Keys.{repeated, next_poll, receive_control_again}
use open_ull_receiver.RawLlcp.Bound.{IsSame, Both, commit_session_bound}
use open_ull_receiver.RawLlcp.Waiting.{Exchange, exchanges, any_acknowledges}
use open_ull_receiver.RawLlcp.Confirmed.{commit_confirmed}

abbrev controller : Controller
controller = record {
  llc = 100;
  lld = 200;
  cs_index = 0;
  lld_flags = 0x60;
  llc_flags = 0;
  llc_idle = true;
  lld_idle = true;
  cs = λ k. 0;
  scheduled_hs = 1000;
  arbitrated_hs = 1000;
  arbitrated_hus = 0;
  pending_events = 0;
  interval_hs = 96;
  counter = 20;
  now = 5000;
}

abbrev e1 : List ℕ
e1 = 0xe1 ∷ 0xd0 ∷ 7 ∷ 0 ∷ 0xa0 ∷ 0x0f ∷ 0 ∷ 44 ∷ 0 ∷ []

abbrev seed : Seed
seed = record {
  access_address = 0x12345678;
  event_counter = 7;
  channel_map = 0xff ∷ 0xff ∷ 1 ∷ 0xe0 ∷ 0x13 ∷ [];
  receive_enabled = 0;
  iv = replicate 8 0x11;
  key = replicate 16 0x22;
}

abbrev plan : Plan
plan = record {
  start = record { hs = 3313; hus = 375 };
  acl_instant = 44;
  event_counter = 7;
  access_address = 0x12345678;
  offset_us = 3000;
  e2 = e2_message (e0_message controller true) seed 44 3000;
}

-- The second stream has its E1 and a prepared plan.
abbrev prepared_state : Raw
prepared_state = record {
  handed_off = false;
  released_slots = 7;
  tail_ok = true;
  e4_confirmed = false;
  e4_confirmed_us = 0;
  e1_expected = false;
  e0_counter = 44;
  e0_sent_us = 4000;
  sent_e0 = e0_message controller true;
  received_e1 = e1;
  origin_anchor = record { hs = 1000; interval_hs = 96; hus = 0; event_counter = 20 };
  prepared_plan = plan;
  session_llc = 100;
  session_lld = 200;
  e1_received = true;
  session_prepared = true;
  e2_confirmed = false;
  committed_first = no_plan;
  committed_llc = 100;
  committed_lld = 200;
  second_available = false;
  first_commit_us = 0;
  air_parent = record no_air_parent {
    active = true;
    rx_nesn = 1;
    llc = 100;
    lld = 200;
    accepted_e1 = e1;
  };
  parent_retired = false;
  detached_stereo = false;
  detached = record {
    active = false;
    tx_sn = 0;
    rx_nesn = 0;
    accepted = 0;
    duplicates = 0;
    empty = 0;
    acked = 0;
    rejected = 0;
    stale = 0;
  };
  control_probe_frames = 0;
  control_auto_poll = true;
}

abbrev answers : Answers
answers = record {
  hook_ready = true;
  entry_ready = true;
  reserved = true;
  allocated = true;
  status = 0;
}

committed : (commit_air controller prepared_state plan).1 ≡ 0
unfolding commit_air air_parent_current parent_sequence prepared_plan_current same_plan same_bytes
    e2_message agrees plan_for_current_anchor session_connection_valid capture_anchor
    plan_for_anchor agreed plan_at plan_of plan_build refused expected used_channels first_start
    get16 put16 put24 put32
committed = refl

committed_session : (commit_session controller answers prepared_state plan).1 ≡ 0
unfolding commit_session
committed_session = committed

commit_session_bound_example :
    IsSame plan prepared_state.prepared_plan × Both controller prepared_state plan
commit_session_bound_example =
    commit_session_bound controller answers prepared_state plan committed_session

-- A reply that acknowledges nothing, one with a reserved bit, one that comes after the link has gone, none, and
-- one that acknowledges E2.
abbrev reply_at : Controller → Option ControlRx → Exchange
reply_at c rx = record { before = controller; after = c; reply = rx }

abbrev air_exchanges : List Exchange
air_exchanges =
    reply_at controller (some (record { header = 1; payload = [] }))
    ∷ reply_at controller (some (record { header = 0x2d; payload = [] }))
    ∷ reply_at (record controller { llc = 0 }) (some (record { header = 13; payload = [] }))
    ∷ reply_at controller none
    ∷ reply_at (record controller { now = 9000 }) (some (record { header = 13; payload = [] }))
    ∷ []

commit_confirmed_example :
    (exchanges (commit_air controller prepared_state plan).0 air_exchanges).e2_confirmed
    ≡ any_acknowledges prepared_state.air_parent air_exchanges
commit_confirmed_example =
    commit_confirmed controller prepared_state plan air_exchanges
      (record { number = omega arith; next = omega arith }) refl committed

-- The parent is retired, and the wheel of the headset is turned.
abbrev retired_controller : Controller
retired_controller = record controller { llc = 0; lld = 0 }

abbrev retired_state : Raw
retired_state = record prepared_state {
  session_prepared = false;
  e2_confirmed = true;
  parent_retired = true;
  detached_stereo = true;
  detached = record (prepared_state.detached) { active = true };
}

abbrev wheel : ControlRx
wheel = record { header = 6; payload = 6 ∷ 0 ∷ 1 ∷ 1 ∷ 10 ∷ 1 ∷ 0 ∷ 1 ∷ 0 ∷ 2 ∷ [] }

retired_eligible : detached_eligible retired_controller retired_state ≡ true
unfolding detached_eligible
retired_eligible = refl

abbrev turned : Raw × Bool × List UsbCall × List ℕ
turned = receive_air_control retired_controller retired_state (some wheel) (next_poll retired_state)

turned_heard : turned.1 ≡ true
unfolding receive_air_control header detached_eligible receive_detached receive malformed
    acknowledge take_data control_pdu wheel_pdu framed is_wheel empty_pdu
turned_heard = refl

receive_control_again_example :
    (length turned.2 ≤ 1)
    × (receive_air_control retired_controller turned.0 (some wheel) (next_poll turned.0)
        ≡ (repeated turned.0, true, [], []))
receive_control_again_example =
    receive_control_again retired_controller retired_state wheel (next_poll retired_state)
      (record { tx = omega arith; rx = omega arith }) retired_eligible turned_heard
