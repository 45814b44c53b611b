-- ===== src/UsbFeedback/Examples.antt =====
-- Runs of the model of firmware/radio/components/ull_usb/usb_feedback.c.
use open_ull_receiver.Base.{◌*◌, ◌≤◌, ◌≡◌, ◌⊎◌, refl, min, true, false, arith, replicate}
use open_ull_receiver.UsbFeedback.{
  Rate, nominal_q16, target_frames, feedback_reset, feedback_step, note_consumed, smoothed,
  corrected,
}
use open_ull_receiver.UsbFeedback.Bounds.{IsValid, feedback_step-IsValid}
use open_ull_receiver.UsbFeedback.Idle.{idle_steps, idle_steps_settle}

-- A full ring after one step.
abbrev running : Rate
running = record {
  average_q8 = 249600;
  consumed = 48;
  value_q16 = 3145483;
  idle_packets = 0;
  active = true;
}

running_step : feedback_step (feedback_reset 0) 5000 48 ≡ running
unfolding feedback_step feedback_reset note_consumed smoothed corrected
running_step = refl

running-IsValid : IsValid running
running-IsValid = record {
  average = omega arith;
  idle = omega arith;
  low = omega arith;
  high = omega arith;
}

feedback_step-IsValid_example :
    let t = feedback_step running 0 96 in
    let fill = min 0 1920 * 256 in
    IsValid t
    × (t.active ≡ true
        → ((running.average_q8 ≤ t.average_q8) × (t.average_q8 ≤ fill)
            ⊎ (fill ≤ t.average_q8) × (t.average_q8 ≤ running.average_q8))
          × ((t.average_q8 ≤ target_frames * 256) × (nominal_q16 ≤ t.value_q16)
              ⊎ (target_frames * 256 ≤ t.average_q8) × (t.value_q16 ≤ nominal_q16)))
feedback_step-IsValid_example = feedback_step-IsValid running 0 96 running-IsValid

idle_steps_settle_example :
    let t = idle_steps (replicate 100 700) running in
    (t.active ≡ false) × (t.value_q16 ≡ nominal_q16) × (t.average_q8 ≡ target_frames * 256)
idle_steps_settle_example = idle_steps_settle running (replicate 100 700) (omega arith)
