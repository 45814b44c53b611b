-- ===== src/RawLlcp/Send.antt =====
-- Sending the raw messages of firmware/radio/src/raw_llcp.c, and what follows from it. The answers of the
-- controller's own functions are an argument.
use open_ull_receiver.Base.{
  ℕ, ◌+◌, ◌/◌, ◌^◌, bit_and, u16, Bool, true, false, not, ◌&&◌, ◌||◌, none, some, Option, List,
  ◌++◌, take, drop, set, same_bytes, ltb, leb, ◌==◌, if◌then◌else◌,
}
use open_ull_receiver.AirSession.{Anchor, Plan, byte_at, get16, put16, e0_parameters}
use open_ull_receiver.RawLlcp.State.{
  Controller, Raw, no_plan, no_anchor, encrypted, air_parent_current, idle, clear_session,
  capture_anchor, same_plan,
}
use open_ull_receiver.RawLlcp.Plans.{prepared_plan_current}

-- What the controller's functions answer: whether the free hook and the send entry are in place, whether the
-- pool and the heap give memory, and the status of the lower driver.
pub record Answers : Type 0 where
  pub hook_ready : Bool
  pub entry_ready : Bool
  pub reserved : Bool
  pub allocated : Bool
  pub status : ℕ

abbrev pub is_some {ℓ} : {A : Type ℓ} → Option A → Bool
is_some none = false
is_some (some a) = true

-- The proposal, without and with its instant.
abbrev pub e0_head : Bool → List ℕ
e0_head second =
    if second then set (set (set (set e0_parameters 2 2) 9 0) 19 0) 26 1 else e0_parameters

abbrev pub e0_message : Controller → Bool → List ℕ
e0_message c second = e0_head second ++ put16 (u16 (c.counter + (if second then 24 else 12)))

-- Whether a proposal is due: the second stream's soon after the commitment of the first, the first one's soon
-- after the confirmation of E4.
unfoldable pub proposal_due : Controller → Raw → Option Plan → Bool
proposal_due c s none = s.e4_confirmed && leb c.now (s.e4_confirmed_us + 5000000)
proposal_due c s (some plan) =
    s.second_available
    && s.e2_confirmed
    && same_plan plan s.committed_first
    && c.llc == s.committed_llc
    && c.lld == s.committed_lld
    && leb c.now (s.first_commit_us + 1000000)

abbrev pub plan_current : Controller → Raw → Option Plan → Bool
plan_current c s none = false
plan_current c s (some plan) = prepared_plan_current c s plan

-- The reason of `raw_send` for not sending, 0 for none.
unfoldable pub send_reason : Controller → Answers → Raw → ℕ → Option Plan → ℕ
send_reason c a s opcode plan =
    if not a.hook_ready
    then 1
    else if c.llc == 0 || c.lld == 0
    then 2
    else if not (bit_and c.lld_flags 0x60 == 0x60)
    then 3
    else if not (idle c s)
    then 4
    else if not a.entry_ready
    then 5
    else if opcode == 0xe0 && not (proposal_due c s plan)
    then 9
    else if opcode == 0xe0 && not (is_some (capture_anchor c))
    then 10
    else if opcode == 0xe2 && not (plan_current c s plan)
    then 11
    else if not a.reserved
    then 6
    else if not a.allocated
    then 7
    else if not (a.status == 0)
    then 8
    else 0

-- The anchor of the proposal, which exists when one is sent.
abbrev pub anchor_or : Option Anchor → Anchor
anchor_or none = no_anchor
anchor_or (some a) = a

-- What a message that is on its way changes, by its opcode.
unfoldable pub sent_e4 : Raw → Raw
sent_e4 s = record (clear_session s) {
  second_available = false;
  committed_llc = 0;
  committed_lld = 0;
  committed_first = no_plan;
  e2_confirmed = false;
  e4_confirmed = false;
  e1_expected = false;
}

unfoldable pub sent_proposal : Controller → Raw → Bool → Raw
sent_proposal c s second =
    let message = e0_message c second in
    record (clear_session s) {
      second_available = s.second_available && not second;
      e2_confirmed = false;
      e4_confirmed = false;
      e1_expected = true;
      e0_counter = get16 (drop 37 message);
      e0_sent_us = c.now;
      sent_e0 = message;
      origin_anchor = anchor_or (capture_anchor c);
      session_llc = c.llc;
      session_lld = c.lld;
    }

unfoldable pub sent_plan : Controller → Raw → Plan → Raw
sent_plan c s plan =
    if byte_at s.sent_e0 2 == 1
    then record (clear_session s) {
      committed_first = plan;
      committed_llc = c.llc;
      committed_lld = c.lld;
      first_commit_us = c.now;
      second_available = true;
    }
    else record (clear_session s) {
      committed_first = no_plan;
      committed_llc = 0;
      committed_lld = 0;
      second_available = false;
    }

unfoldable pub sent_effect : Controller → Raw → ℕ → Option Plan → Raw
sent_effect c s opcode plan =
    if opcode == 0xe4
    then sent_e4 s
    else if opcode == 0xe0
    then sent_proposal c s (is_some plan)
    else elim plan [ none ↦ s | some p ↦ if opcode == 0xe2 then sent_plan c s p else s ]

abbrev pub known_opcode : ℕ → Bool
known_opcode opcode = opcode == 0x12 || opcode == 0xe4 || opcode == 0xe0 || opcode == 0xe2

-- `raw_send`: the state and the status. A message that reached the lower driver is handed off until
-- its memory is freed.
unfoldable pub raw_send : Controller → Answers → Raw → ℕ → Option Plan → Raw × ℕ
raw_send c a s opcode plan =
    let reason = send_reason c a s opcode plan in
    let on_its_way = record s { released_slots = 0; tail_ok = false; handed_off = true } in
    let taken_back = record s { released_slots = 0; tail_ok = false; handed_off = false } in
    if not (known_opcode opcode) || opcode == 0xe2 && not (is_some plan)
    then (s, 0x12)
    else if reason == 0
    then (sent_effect c on_its_way opcode plan, 0)
    else if reason == 8
    then (taken_back, a.status)
    else (s, 0x0c)

-- `ull_raw_send`, `ull_raw_request_second_stream`
unfoldable pub raw_host_send : Controller → Answers → Raw → ℕ → Raw × ℕ
raw_host_send c a s opcode = if opcode == 0xe2 then (s, 0x12) else raw_send c a s opcode none

unfoldable pub request_second_stream : Controller → Answers → Raw → Plan → Raw × ℕ
request_second_stream c a s first = raw_send c a s 0xe0 (some first)

-- The commitment within the Air.
unfoldable pub commit_air : Controller → Raw → Plan → Raw × ℕ
commit_air c s plan =
    if byte_at s.sent_e0 2 == 2
      && air_parent_current c s.air_parent
      && not s.air_parent.pending
      && idle c s
      && prepared_plan_current c s plan
    then (
      record s {
        air_parent = record (s.air_parent) { message = take 68 plan.e2; pending = true };
        e2_confirmed = false;
        session_prepared = false;
        second_available = false;
      },
      0,
    )
    else (s, 0x0c)

-- `ull_raw_commit_session`
unfoldable pub commit_session : Controller → Answers → Raw → Plan → Raw × ℕ
commit_session c a s plan =
    if s.air_parent.active then commit_air c s plan else raw_send c a s 0xe2 (some plan)

-- `acknowledged`, the callback of a message that was sent.
unfoldable pub acknowledged : Controller → Raw → ℕ → ℕ → Raw
acknowledged c s link opcode =
    let whole = link == 0 && s.released_slots == 7 && s.tail_ok in
    if opcode == 0xe4 && whole
    then record s { e4_confirmed = true; e4_confirmed_us = c.now }
    else if opcode == 0xe2 && whole
    then record s { e2_confirmed = true }
    else s

-- `ull_raw_receive_e1`, of an indication with a payload; `freed` is whether the receive entry is the known one
-- and the coexistence function is there.
unfoldable pub receive_e1 : Controller → Raw → Bool → ℕ → ℕ → List ℕ → Raw × Bool
receive_e1 c s freed destination size payload =
    let valid =
      s.e1_expected
      && ltb c.now (s.e0_sent_us + 5000000)
      && not (c.llc == 0)
      && not (c.lld == 0)
      && encrypted c
      && freed
      && same_bytes 6 (drop 1 payload) (drop 31 e0_parameters)
      && get16 (drop 7 payload) == s.e0_counter in
    if not (destination / 2 ^ 8 == 0) || not (size == 9) || not (byte_at payload 0 == 0xe1)
    then (s, false)
    else if valid
    then (
      record s {
        e1_expected = false;
        e1_received = true;
        session_prepared = false;
        received_e1 = take 9 payload;
      },
      true,
    )
    else (s, false)
