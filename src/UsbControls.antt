-- ===== src/UsbControls.antt =====
-- The keys and the requests of the USB side: firmware/radio/components/ull_usb/usb_controls.c. What TinyUSB and
-- FreeRTOS answer is an argument of each call.
pub mod Pressed
pub mod Requests
pub mod Booted
mod Examples
use open_ull_receiver.Base.{
  ℕ, ◌+◌, inc32, Bool, true, false, not, ◌&&◌, ◌||◌, none, some, Option, List, [], ◌∷◌, ◌++◌,
  length, ltb, leb, ◌==◌, if◌then◌else◌,
}

abbrev pub queue_length : ℕ
queue_length = 32

-- `pending` with its usages, `release_pending`, `release_due`, `key_queued`, `key_sent`.
pub record Controls : Type 0 where
  pub pending : List ℕ
  pub release_pending : Bool
  pub release_due : ℕ
  pub key_queued : ℕ
  pub key_sent : ℕ

-- The state after `ull_usb_controls_init` has made the queue.
abbrev pub controls_init : Controls
controls_init = record {
  pending = [];
  release_pending = false;
  release_due = 0;
  key_queued = 0;
  key_sent = 0;
}

-- `ull_usb_controls_enqueue`
unfoldable pub enqueue : Controls → ℕ → Controls × Bool
enqueue s usage =
    if ltb (length s.pending) queue_length
    then (record s { pending = s.pending ++ (usage ∷ []); key_queued = inc32 s.key_queued }, true)
    else (s, false)

-- What a call of `ull_usb_controls_service` meets: whether the device is mounted and its endpoint ready, the
-- time, and whether a report is accepted.
pub record Moment : Type 0 where
  pub ready : Bool
  pub now : ℕ
  pub accepts : Bool

-- The next usage; the result is the report that was sent.
unfoldable pub press : Controls → Moment → List ℕ → Controls × Option ℕ
press s t [] = (s, none)
press s t (usage ∷ rest) =
    if t.accepts
    then (
      record s {
        pending = rest;
        key_sent = inc32 s.key_sent;
        release_pending = true;
        release_due = t.now + 12000;
      },
      some usage,
    )
    else (s, none)

-- `ull_usb_controls_service`
unfoldable pub service : Controls → Moment → Controls × Option ℕ
service s t =
    if not t.ready
    then (s, none)
    else if not s.release_pending
    then press s t s.pending
    else if ltb t.now s.release_due || not t.accepts
    then (s, none)
    else (record s { release_pending = false }, some 0)
