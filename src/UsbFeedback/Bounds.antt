-- ===== src/UsbFeedback/Bounds.antt =====
-- The range of the rate of firmware/radio/components/ull_usb/usb_feedback.c.
use open_ull_receiver.Base.{ℕ, ◌+◌, ◌*◌, ◌≤◌, ◌≡◌, ◌⊎◌, min, true, arith}
use open_ull_receiver.UsbFeedback.{
  Rate, nominal_q16, target_frames, feedback_reset, feedback_step, note_consumed, smoothed,
  corrected,
}

-- The average stays within the ring's capacity of 1920 frames, the idle count within 100, and the
-- rate within 1000 parts per million of the nominal one.
pub record IsValid (s : Rate) : Type 0 where
  pub average : s.average_q8 ≤ 1920 * 256
  pub idle : s.idle_packets ≤ 100
  pub low : nominal_q16 ≤ s.value_q16 + 3146
  pub high : s.value_q16 ≤ nominal_q16 + 3146

pub feedback_reset-IsValid : (consumed : ℕ) → IsValid (feedback_reset consumed)
unfolding feedback_reset
feedback_reset-IsValid consumed = record {
  average = omega arith;
  idle = omega arith;
  low = omega arith;
  high = omega arith;
}

-- Every step, whatever the host and the encoder report, keeps the average within the ring's
-- capacity of 1920 frames, the idle count within 100, and the rate within 1000 parts per million of
-- the nominal one; and while the stream runs it moves the average towards the fill of the ring,
-- never past it, and asks for less than the nominal rate only if the average is above the target.
pub feedback_step-IsValid :
    (s : Rate) (queued consumed : ℕ)
    → IsValid s
    → let t = feedback_step s queued consumed in
      let fill = min queued 1920 * 256 in
      IsValid t
      × (t.active ≡ true
          → ((s.average_q8 ≤ t.average_q8) × (t.average_q8 ≤ fill)
              ⊎ (fill ≤ t.average_q8) × (t.average_q8 ≤ s.average_q8))
            × ((t.average_q8 ≤ target_frames * 256) × (nominal_q16 ≤ t.value_q16)
                ⊎ (target_frames * 256 ≤ t.average_q8) × (t.value_q16 ≤ nominal_q16)))
unfolding feedback_step note_consumed smoothed corrected
feedback_step-IsValid s queued consumed i = (
  record {
    average = ground (arith, i.average);
    idle = ground (arith, i.idle);
    low = ground arith;
    high = ground arith;
  },
  λ a. ground (arith, a),
)
