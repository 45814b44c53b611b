-- ===== src/UsbControls/Examples.antt =====
-- Runs of the model of firmware/radio/components/ull_usb/usb_controls.c.
use open_ull_receiver.Base.{
  ℕ, ◌≡◌, ◌≤◌, Bool, true, false, List, [], ◌∷◌, ◌++◌, length, if◌then◌else◌,
}
use open_ull_receiver.UsbControls.{Controls, Moment, queue_length, if◌then◌else◌}
use open_ull_receiver.UsbControls.Pressed.{Run, pressed, due, Run-pressed}
use open_ull_receiver.UsbControls.Requests.{Stage}
use open_ull_receiver.UsbControls.Booted.{Call, boots, asked, boots-asked}

abbrev at_time : ℕ → Bool → Moment
at_time now accepts = record { ready = true; now = now; accepts = accepts }

-- Two keys; a refused report, a press, a release that comes too early, the release, and the second press.
abbrev run : (s : Controls) × (accepted : List ℕ) × (reports : List ℕ) × Run s accepted reports
run = (
  _,
  _,
  _,
  Run.serviced _ _ _ (at_time 40000 true) (
      Run.serviced _ _ _ (at_time 30000 true) (
        Run.serviced _ _ _ (at_time 11000 true) (
          Run.serviced _ _ _ (at_time 10000 true) (
            Run.serviced _ _ _ (at_time 9000 false)
              (Run.enqueued _ _ _ 0xea (Run.enqueued _ _ _ 0xe9 Run.started)))))),
)

Run-pressed_example :
    (sent : List ℕ) × (run.1 ≡ sent ++ run.0.pending)
    × (run.2 ++ due run.0.release_pending ≡ pressed sent)
    × (length run.0.pending ≤ queue_length)
Run-pressed_example = Run-pressed run.0 run.1 run.2 run.3

abbrev boot_call : Stage → Bool → Call
boot_call stage created = record {
  host = record { callback = false; allowed = true; transfers = true; created = created };
  stage = stage;
  message = record { request_type = 0x40; code = 0x5a; value = 0xb007; index = 0xc0de; size = 0 };
}

-- The task fails to start once, and then starts; a further acknowledgement is without effect.
abbrev boot_calls : List Call
boot_calls =
    boot_call Stage.setup true
    ∷ boot_call Stage.ack false
    ∷ boot_call Stage.ack true
    ∷ boot_call Stage.ack true
    ∷ []

boots-asked_example : boots false boot_calls ≡ (if asked boot_calls then 1 else 0)
boots-asked_example = boots-asked boot_calls
