-- ===== src/AirFeedback/Reception.antt =====
-- The acceptance of a reply: `ull_air_feedback_accept_frame` and `ull_air_feedback_accept_control`
-- of firmware/radio/src/air_feedback.c.
use open_ull_receiver.Base.{
  ℕ, ◌+◌, ◌-◌, ◌*◌, ◌/◌, bit_and, u8, sub32, inc32, ◌>>>◌, Bool, true, false, not, ◌&&◌, ◌||◌,
  Option, none, some, List, [], ◌∷◌, length, get_or, take, drop, ltb, leb, ◌==◌, if◌then◌else◌,
  ◌>>=◌,
}
use open_ull_receiver.Clock.{Time, clock_mask}
use open_ull_receiver.AirSession.{Plan, session_time, interval_us}
use open_ull_receiver.AirFrame.{RxRecord, ControlRecord, Parsing, air_uplink_parse_control}
use open_ull_receiver.Ccm.{Mbedtls, Session, Sealing, ccm_decrypt}
use open_ull_receiver.AirFeedback.{Feedback, observe_all}

-- `struct ull_air_control_rx`, where it is present.
pub record ControlRx : Type 0 where
  pub header : ℕ
  pub payload : List ℕ

-- `struct ull_radio_rx_snapshot`; `descriptor` holds its first words.
pub record Snapshot : Type 0 where
  pub time : Time
  pub descriptor : List ℕ
  pub copied : ℕ
  pub payload : List ℕ

-- A record that `ull_air_microphone_frame` is called with: the sequence number and the payload.
pub record Capture : Type 0 where
  pub sequence : ℕ
  pub payload : List ℕ

unfoldable pub captures : List RxRecord → List Capture
captures [] = []
captures (r ∷ rs) =
    let others = captures rs in
    if r.stream_id == 1 && length r.payload == 40
    then record { sequence = r.tx_sequence; payload = r.payload } ∷ others
    else others

-- What `ull_air_feedback_accept_frame` comes to: a rejection with its negated result and the plain
-- bytes that the status probe is shown, or the new state, the trailer and the captures.
pub data Outcome : Type 0 where
  rejected : ℕ → Option (List ℕ) → Outcome
  accepted : Feedback → Option ControlRx → List Capture → Outcome

-- The header of the packet and its length, from the descriptor.
abbrev pub header_of : Snapshot → ℕ
header_of snapshot = u8 (get_or snapshot.descriptor 2 0)

abbrev pub length_of : Snapshot → ℕ
length_of snapshot = get_or snapshot.descriptor 2 0 >>> 8

abbrev pub untimed : Plan → Snapshot → Bool
untimed plan snapshot =
    not (get_or plan.e2 0 0 == 0xe2)
    || ltb clock_mask snapshot.time.hs
    || ltb 624 snapshot.time.hus
    || ltb 624 plan.start.hus

abbrev pub damaged : Snapshot → Bool
damaged snapshot =
    not (bit_and (get_or snapshot.descriptor 1 0) 9 == 0)
    || ltb (length_of snapshot) 7
    || not (length_of snapshot == snapshot.copied)
    || ltb 64 (length_of snapshot)

-- Whether the reply arrived in the slot of 5 ms that starts at `start`.
unfoldable pub in_slot : Time → Time → Bool
in_slot start now =
    let coarse = bit_and (sub32 now.hs start.hs) clock_mask in
    let fine = coarse * 625 + now.hus in
    ltb coarse 0x08000000 && leb start.hus fine && ltb (fine - start.hus) (interval_us * 2)

-- The trailer, where it fits its destination.
abbrev pub owned : Option ControlRecord → Option (Option ControlRx)
owned none = some none
owned (some c) =
    if ltb 60 (length c.payload)
    then none
    else some (some (record { header = c.header; payload = c.payload }))

-- The records and the trailer of an authenticated packet.
unfoldable pub settled :
    ℕ → Feedback → List RxRecord → Option ControlRecord → Option (Feedback × Option ControlRx)
settled frame state rs control = do
  t ← observe_all frame rs (state, false)
  c ← owned control
  some (if t.1 then record (t.0) { generation = inc32 state.generation } else state, c)

unfoldable pub commit : ℕ → Feedback → List RxRecord → Option ControlRecord → Outcome
commit frame state rs control = elim (settled frame state rs control) [
  | none ↦ Outcome.rejected 4 none
  | some p ↦ Outcome.accepted (p.0) (p.1) (captures rs)
]

-- What the parser found; without a record the status probe may look at the bytes.
abbrev pub take_parsed : ℕ → Feedback → ℕ → List ℕ → Parsing → Outcome
take_parsed frame state header plain (Parsing.parsed (r ∷ rs) control) =
    commit frame state (r ∷ rs) control
take_parsed frame state header plain _ =
    Outcome.rejected 4 (if bit_and header 0x79 == 1 then some plain else none)

unfoldable pub take_plain : ℕ → Feedback → ℕ → List ℕ → Outcome
take_plain frame state header plain =
    take_parsed frame state header plain
      (air_uplink_parse_control (some plain) header (some (40 ∷ 95 ∷ [])) true 4 true)

-- The result of the decryption.
abbrev pub take_sealed : ℕ → Feedback → ℕ → Sealing → Outcome
take_sealed frame state header (Sealing.sealed plain) = take_plain frame state header plain
take_sealed frame state header _ = Outcome.rejected 3 none

unfoldable pub accept_frame :
    {Context : Type 0}
    → Mbedtls Context
    → Session Context
    → Option Feedback
    → Option Plan
    → Option Snapshot
    → ℕ
    → Session Context × Outcome
accept_frame lib session (some state) (some plan) (some snapshot) frame =
    if untimed plan snapshot
    then (session, Outcome.rejected 1 none)
    else if damaged snapshot
    then (session, Outcome.rejected 2 none)
    else elim (session_time (some plan) frame 0 true) [
      | none ↦ (session, Outcome.rejected 1 none)
      | some start ↦
          if not (in_slot start snapshot.time)
          then (session, Outcome.rejected 1 none)
          else let opened =
              ccm_decrypt lib session true (take 16 (drop 52 plan.e2)) (take 8 (drop 44 plan.e2)) 0
                0 (bit_and (header_of snapshot) 0xe3) (take (length_of snapshot) snapshot.payload)
                64 in
            (opened.0, take_sealed frame state (header_of snapshot) (opened.1))
    ]
accept_frame lib session _ _ _ frame = (session, Outcome.rejected 1 none)

-- `ull_air_feedback_accept_control`: the frame from the time of the reply, for the frames of the
-- stored tone.
pub accept_control :
    {Context : Type 0}
    → Mbedtls Context
    → Session Context
    → Option Feedback
    → Option Plan
    → Option Snapshot
    → Session Context × Outcome
accept_control lib session state (some plan) (some snapshot) =
    let coarse = bit_and (sub32 snapshot.time.hs plan.start.hs) clock_mask in
    let fine = coarse * 625 + snapshot.time.hus in
    if ltb 624 snapshot.time.hus
      || ltb 624 plan.start.hus
      || leb 0x08000000 coarse
      || ltb fine plan.start.hus
      || leb (201 * 10000) (fine - plan.start.hus)
    then (session, Outcome.rejected 1 none)
    else accept_frame lib session state (some plan) (some snapshot)
        ((fine - plan.start.hus) / 10000)
accept_control lib session state _ _ = (session, Outcome.rejected 1 none)
