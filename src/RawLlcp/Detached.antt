-- ===== src/RawLlcp/Detached.antt =====
-- The parent connection after the headset has retired it, in firmware/radio/src/raw_llcp.c: polls of its own and
-- the keys of the headset.
use open_ull_receiver.Base.{
  ◌-◌, bit_and, Bool, true, not, ◌&&◌, ◌||◌, none, some, Option, List, [], ◌∷◌, length, drop, ◌==◌,
  if◌then◌else◌,
}
use open_ull_receiver.AirFeedback.Reception.{ControlRx}
use open_ull_receiver.ParentAck.{byte_at, header, receive, is_wheel, is_media, is_mic}
use open_ull_receiver.RawLlcp.State.{Pdu, Controller, Raw}

-- The calls of `ull_usb_audio_consumer_key` and of `ull_usb_audio_set_headset_mic_mute`.
pub data UsbCall : Type 0 where
  volume_up volume_down play_pause : UsbCall
  mic_mute : Bool → UsbCall

-- `detached_eligible`: all ten bits of the mask.
unfoldable pub detached_eligible : Controller → Raw → Bool
detached_eligible c s =
    s.parent_retired
    && s.detached_stereo
    && c.llc == 0
    && c.lld == 0
    && s.e2_confirmed
    && not s.second_available
    && not s.e1_expected
    && not s.session_prepared
    && not s.handed_off
    && not s.air_parent.pending

-- `ull_raw_detached_parent_air_pdu`
unfoldable pub detached_pdu : Controller → Raw → Raw × Option Pdu
detached_pdu c s =
    let t = record s { detached_stereo = true } in
    let eligible = detached_eligible c t in
    let left = s.control_probe_frames in
    if eligible && s.detached.active
    then (t, some (record { header = header s.detached; payload = [] }))
    else if eligible && (not (left == 0) || s.control_auto_poll)
    then (record t { control_probe_frames = left - 1 }, some (record { header = 1; payload = [] }))
    else (t, none)

-- The scalar of a new control PDU, as a call on the USB side.
unfoldable pub control_calls : ControlRx → List UsbCall
control_calls rx =
    let n = length rx.payload in
    let control = drop 4 rx.payload in
    if not (bit_and rx.header 3 == 2 && byte_at rx.payload 2 == 1 && byte_at rx.payload 3 == 1)
    then []
    else if n == 10 && is_wheel (some control) 6
    then (if byte_at control 3 == 1
        then UsbCall.volume_up ∷ []
        else if byte_at control 3 == 2
        then UsbCall.volume_down ∷ []
        else [])
    else if n == 6 && is_media (some control) 2 && byte_at control 1 == 2
    then UsbCall.play_pause ∷ []
    else if n == 7 && is_mic (some control) 3
    then UsbCall.mic_mute (byte_at control 0 == 5) ∷ []
    else []

-- The first path of `ull_raw_receive_air_control`: the state, the result, and the calls.
unfoldable pub receive_detached : Raw → ControlRx → Pdu → Raw × Bool × List UsbCall
receive_detached s rx sent =
    let r =
      receive s.detached rx.header (some rx.payload) (length rx.payload) sent.header
        (length sent.payload) in
    let fresh = r.1 && not (r.0.accepted == s.detached.accepted) in
    (record s { detached = r.0 }, r.1, if fresh then control_calls rx else [])
