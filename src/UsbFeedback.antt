-- ===== src/UsbFeedback.antt =====
-- The rate that the receiver asks of the USB host: firmware/radio/components/ull_usb/usb_feedback.c.
-- The signed differences of the code are split by their sign; `/` of C rounds both towards zero.
pub mod Bounds
pub mod Idle
mod Examples
use open_ull_receiver.Base.{
  ℕ, zero, suc, ◌+◌, ◌-◌, ◌*◌, ◌/◌, min, Bool, true, false, not, ◌||◌, ltb, leb, ◌==◌,
  if◌then◌else◌,
}

abbrev pub nominal_q16 : ℕ
nominal_q16 = 48 * 65536

abbrev pub target_frames : ℕ
target_frames = 960

-- `ull_usb_feedback_t`
pub record Rate : Type 0 where
  pub average_q8 : ℕ
  pub consumed : ℕ
  pub value_q16 : ℕ
  pub idle_packets : ℕ
  pub active : Bool

pub feedback_reset : ℕ → Rate
feedback_reset consumed = record {
  average_q8 = target_frames * 256;
  consumed = consumed;
  value_q16 = nominal_q16;
  idle_packets = 0;
  active = false;
}

-- The first test of a step.
pub note_consumed : ℕ → Rate → Rate
note_consumed consumed s =
    if not (consumed == s.consumed)
    then record s { consumed = consumed; idle_packets = 0; active = true }
    else if ltb s.idle_packets 100
    then record s { idle_packets = s.idle_packets + 1 }
    else s

-- The low-pass filter: a 64th of the way to the fill of the ring.
pub smoothed : ℕ → ℕ → ℕ
smoothed average fill =
    if leb average fill then average + (fill - average) / 64 else average - (average - fill) / 64

-- The correction of the rate, held within 1000 parts per million.
pub corrected : ℕ → ℕ
corrected average =
    if leb (target_frames * 256) average
    then nominal_q16 - min ((average - target_frames * 256) * 64 / 1000) 3146
    else nominal_q16 + min ((target_frames * 256 - average) * 64 / 1000) 3146

-- `ull_usb_feedback_step`; its result is the field `value_q16`.
pub feedback_step : Rate → ℕ → ℕ → Rate
feedback_step s queued consumed =
    let t = note_consumed consumed s in
    let average = smoothed t.average_q8 (min queued 1920 * 256) in
    if not t.active || leb 100 t.idle_packets
    then record t { active = false; average_q8 = target_frames * 256; value_q16 = nominal_q16 }
    else record t { average_q8 = average; value_q16 = corrected average }
