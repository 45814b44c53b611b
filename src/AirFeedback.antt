-- ===== src/AirFeedback.antt =====
-- The sequence numbers that replies fix: firmware/radio/src/air_feedback.h and
-- firmware/radio/src/air_feedback.c. `none` stands for NULL; the decryption is that of the module
-- Ccm, and the calls of other parts (the microphone queue and the status probe) are values.
pub mod Reception
mod Examples
pub mod Sequencing
pub mod Accepting
pub mod Effects
pub mod Observing
use open_ull_receiver.Base.{
  ℕ, zero, suc, ◌+◌, ◌-◌, ◌*◌, ◌/◌, ◌%◌, ◌^◌, bit_and, bit_or, u8, u32, sub32, inc32, ◌<<<◌, ◌>>>◌,
  Bool, true, false, not, ◌&&◌, ◌||◌, Option, none, some, List, [], ◌∷◌, length, get_or, take, drop,
  ltb, leb, ◌==◌, if◌then◌else◌, ◌>>=◌,
}
use open_ull_receiver.Clock.{Time, clock_mask}
use open_ull_receiver.AirSession.{Plan, session_time, interval_us}
use open_ull_receiver.AirFrame.{RxRecord, ControlRecord, Parsing, air_uplink_parse_control}
use open_ull_receiver.Ccm.{Mbedtls, Session, Sealing, ccm_decrypt}

-- `struct ull_air_feedback_channel`
pub record Channel : Type 0 where
  pub frame : ℕ
  pub expected_tx : ℕ
  pub next_ack : ℕ
  pub valid : Bool
  pub after_tx : Bool

-- `struct ull_air_feedback`, with its two channels.
pub record Feedback : Type 0 where
  pub generation : ℕ
  pub first : Channel
  pub second : Channel

-- What one record makes of its channel.
pub next_ack_of : RxRecord → ℕ
next_ack_of r = if bit_and r.flags 8 == 0 then bit_and (r.tx_sequence + 1) 15 else 0

abbrev pub moved : ℕ → RxRecord → Channel → Bool
moved frame r ch = not ch.valid || not (ch.frame == frame) || not (ch.expected_tx == r.ack_sequence)

pub observe : ℕ → RxRecord → Channel → Channel × Bool
observe frame r ch =
    if ch.valid && ltb frame ch.frame
    then (ch, false)
    else if moved frame r ch || not (ch.next_ack == next_ack_of r)
    then (
      record {
        frame = frame;
        expected_tx = r.ack_sequence;
        next_ack = next_ack_of r;
        valid = true;
        after_tx = if moved frame r ch then false else ch.after_tx;
      },
      true,
    )
    else (ch, false)

-- The loop over the records; `none` is the rejection of a stream that is neither 1 nor 2.
abbrev pub observe_one : ℕ → RxRecord → Feedback × Bool → Option (Feedback × Bool)
observe_one frame r s =
    let a = observe frame r ((s.0).first) in
    let b = observe frame r ((s.0).second) in
    if r.stream_id == 1
    then some (record (s.0) { first = a.0 }, s.1 || a.1)
    else if r.stream_id == 2
    then some (record (s.0) { second = b.0 }, s.1 || b.1)
    else none

pub observe_all : ℕ → List RxRecord → Feedback × Bool → Option (Feedback × Bool)
observe_all frame [] s = some s
observe_all frame (r ∷ rs) s = do t ← observe_one frame r s; observe_all frame rs t

-- `ull_air_feedback_note_tx`
pub note_channel : ℕ → Bool → ℕ → Channel → Channel × Bool
note_channel frame sent sequence ch =
    if sent
      && ch.valid
      && ch.frame == frame
      && ch.expected_tx == bit_and (sequence + 1) 15
      && not ch.after_tx
    then (record ch { after_tx = true }, true)
    else (ch, false)

abbrev pub sent_on : ℕ → ℕ → Bool
sent_on stream_mask i = not (bit_and stream_mask (1 <<< (i + 1)) == 0)

pub note_tx : Feedback → ℕ → ℕ → List ℕ → Feedback
note_tx s frame stream_mask sequences =
    let a = note_channel frame (sent_on stream_mask 0) (get_or sequences 0 0) s.first in
    let b = note_channel frame (sent_on stream_mask 1) (get_or sequences 1 0) s.second in
    record {
      generation = if a.1 || b.1 then inc32 s.generation else s.generation;
      first = a.0;
      second = b.0;
    }

-- `ull_air_feedback_sequences`, for one channel: the sequence number to send and the one to
-- acknowledge.
pub expiry_age : ℕ → ℕ → ℕ
expiry_age frame start = if ltb start frame then sub32 (sub32 frame start) 1 else 0

pub sequence_of : Channel → ℕ → ℕ → ℕ × ℕ
sequence_of ch frame start =
    let age = expiry_age frame start in
    let advance = sub32 age (expiry_age ch.frame start) in
    let due = if ch.after_tx && not (advance == 0) then sub32 advance 1 else advance in
    if ch.valid && leb start ch.frame && leb ch.frame frame
    then (bit_and (u32 (ch.expected_tx + due)) 15, ch.next_ack)
    else (bit_and age 15, 0)

pub sequences : Feedback → ℕ → List ℕ → (ℕ × ℕ) × (ℕ × ℕ)
sequences s frame starts =
    (sequence_of s.first frame (get_or starts 0 0), sequence_of s.second frame (get_or starts 1 0))
