-- ===== src/RawLlcp/State.antt =====
-- The variables of firmware/radio/src/raw_llcp.c. A pointer is a number, 0 for NULL; what is read through it is
-- an argument, read under the lock of the controller.
use open_ull_receiver.Base.{
  ℕ, ◌+◌, bit_and, Bool, false, not, ◌&&◌, ◌||◌, none, some, Option, List, [], replicate,
  same_bytes, ltb, leb, ◌==◌, if◌then◌else◌, u16,
}
use open_ull_receiver.AirSession.{Anchor, Plan}
use open_ull_receiver.ParentAck.{Ack, reset}

-- `struct ull_parent_pdu`; its length is that of the payload.
pub record Pdu : Type 0 where
  pub header : ℕ
  pub payload : List ℕ

-- What the controller shows: `llc_env[0]` and `lld_con_env[0]`; of the link's block the index of its
-- control structure, the flags, the times of its event, and the queues; the words of the control structure; the
-- event counter; and the time of `esp_timer_get_time`.
pub record Controller : Type 0 where
  pub llc : ℕ
  pub lld : ℕ
  pub cs_index : ℕ
  pub lld_flags : ℕ
  pub llc_flags : ℕ
  pub llc_idle : Bool
  pub lld_idle : Bool
  pub cs : ℕ → ℕ
  pub scheduled_hs : ℕ
  pub arbitrated_hs : ℕ
  pub arbitrated_hus : ℕ
  pub pending_events : ℕ
  pub interval_hs : ℕ
  pub counter : ℕ
  pub now : ℕ

-- `air_parent`
pub record AirParent : Type 0 where
  pub active : Bool
  pub pending : Bool
  pub tx_sn : ℕ
  pub rx_nesn : ℕ
  pub hardware_sequence : ℕ
  pub llc : ℕ
  pub lld : ℕ
  pub accepted_e1 : List ℕ
  pub message : List ℕ

-- The other variables; `released_slots` and `tail_ok` are of the last message sent.
pub record Raw : Type 0 where
  pub handed_off : Bool
  pub released_slots : ℕ
  pub tail_ok : Bool
  pub e4_confirmed : Bool
  pub e4_confirmed_us : ℕ
  pub e1_expected : Bool
  pub e0_counter : ℕ
  pub e0_sent_us : ℕ
  pub sent_e0 : List ℕ
  pub received_e1 : List ℕ
  pub origin_anchor : Anchor
  pub prepared_plan : Plan
  pub session_llc : ℕ
  pub session_lld : ℕ
  pub e1_received : Bool
  pub session_prepared : Bool
  pub e2_confirmed : Bool
  pub committed_first : Plan
  pub committed_llc : ℕ
  pub committed_lld : ℕ
  pub second_available : Bool
  pub first_commit_us : ℕ
  pub air_parent : AirParent
  pub parent_retired : Bool
  pub detached_stereo : Bool
  pub detached : Ack
  pub control_probe_frames : ℕ
  pub control_auto_poll : Bool

abbrev pub no_anchor : Anchor
no_anchor = record { hs = 0; interval_hs = 0; hus = 0; event_counter = 0 }

abbrev pub no_plan : Plan
no_plan = record {
  start = record { hs = 0; hus = 0 };
  acl_instant = 0;
  event_counter = 0;
  access_address = 0;
  offset_us = 0;
  e2 = replicate 68 0;
}

abbrev pub no_air_parent : AirParent
no_air_parent = record {
  active = false;
  pending = false;
  tx_sn = 0;
  rx_nesn = 0;
  hardware_sequence = 0;
  llc = 0;
  lld = 0;
  accepted_e1 = replicate 9 0;
  message = [];
}

abbrev pub bit_set : ℕ → ℕ → Bool
bit_set v mask = not (bit_and v mask == 0)

-- The link is encrypted in both directions and is not being closed.
abbrev pub encrypted : Controller → Bool
encrypted c = bit_and c.lld_flags 0x60 == 0x60 && not (bit_set c.llc_flags 0x40)

-- `parent_sequence`
unfoldable pub parent_sequence : Controller → ℕ → ℕ → Option ℕ
parent_sequence c llc lld =
    if llc == 0
      || lld == 0
      || not (c.llc == llc)
      || not (c.lld == lld)
      || leb 6 c.cs_index
      || not (encrypted c)
    then none
    else some (bit_and (c.cs 12) 0x3000)

abbrev pub is_sequence : Option ℕ → ℕ → Bool
is_sequence none v = false
is_sequence (some k) v = k == v

-- `air_parent_current`
unfoldable pub air_parent_current : Controller → AirParent → Bool
air_parent_current c p = p.active && is_sequence (parent_sequence c p.llc p.lld) p.hardware_sequence

-- No control procedure runs on the link.
abbrev pub idle : Controller → Raw → Bool
idle c s = not s.handed_off && c.llc_idle && c.lld_idle && not (bit_set c.llc_flags 2)

-- `clear_session`
unfoldable pub clear_session : Raw → Raw
clear_session s = record s {
  e1_received = false;
  session_prepared = false;
  session_llc = 0;
  session_lld = 0;
  sent_e0 = replicate 39 0;
  received_e1 = replicate 9 0;
  origin_anchor = no_anchor;
  prepared_plan = no_plan;
}

-- `ull_raw_reset_sequence`, without the resets of other modules.
unfoldable pub reset_sequence : Raw → Raw
reset_sequence s = record (clear_session s) {
  parent_retired = false;
  detached_stereo = false;
  detached = reset s.detached;
  control_probe_frames = 0;
  e4_confirmed = false;
  e1_expected = false;
  e2_confirmed = false;
  second_available = false;
  committed_llc = 0;
  committed_lld = 0;
  air_parent = no_air_parent;
  committed_first = no_plan;
}

-- Within a second of the proposal.
abbrev pub prompt : Controller → Raw → ℕ → Bool
prompt c s limit = leb s.e0_sent_us c.now && ltb c.now (s.e0_sent_us + limit)

-- `session_connection_valid`
unfoldable pub session_connection_valid : Controller → Raw → Bool
session_connection_valid c s =
    s.e1_received
    && not (s.session_llc == 0)
    && not (s.session_lld == 0)
    && c.llc == s.session_llc
    && c.lld == s.session_lld
    && prompt c s 1000000
    && encrypted c

-- `capture_anchor`
unfoldable pub capture_anchor : Controller → Option Anchor
capture_anchor c =
    if c.lld == 0
      || c.llc == 0
      || not (c.scheduled_hs == c.arbitrated_hs)
      || ltb 624 c.arbitrated_hus
      || ltb 32 c.pending_events
      || ltb 0x0fffffff c.scheduled_hs
      || not (c.interval_hs == 96)
    then none
    else some (record {
      hs = c.scheduled_hs;
      interval_hs = c.interval_hs;
      hus = u16 c.arbitrated_hus;
      event_counter = u16 (c.counter + c.pending_events);
    })

-- `same_plan`
unfoldable pub same_plan : Plan → Plan → Bool
same_plan a b =
    a.start.hs == b.start.hs
    && a.start.hus == b.start.hus
    && a.acl_instant == b.acl_instant
    && a.event_counter == b.event_counter
    && a.access_address == b.access_address
    && a.offset_us == b.offset_us
    && same_bytes 68 a.e2 b.e2
