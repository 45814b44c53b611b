-- ===== src/PcmStream/Responses.antt =====
-- An exchange of `run` in firmware/radio/src/pcm_stream.c, and what it does with the response.
use open_ull_receiver.Base.{
  ℕ, ◌+◌, ◌-◌, u32, inc32, Bool, true, false, not, ◌&&◌, some, List, [], ◌∷◌, get_or, take, drop,
  ltb, ◌==◌, if◌then◌else◌,
}
use open_ull_receiver.SpiFrame.{get32_at}
use open_ull_receiver.CodecWire.{
  cw_valid, cw_response, cw_play, cw_reset, cw_play_out, cw_mic_out, any_flag,
}
use open_ull_receiver.CodecSlave.{samples_of}
use open_ull_receiver.AudioSource.{Frame, push}
use open_ull_receiver.PcmStream.{Stream}

-- What one exchange meets: the notification, the pin after a wait without it and before the
-- transfer, the driver's error, the frame received, and the clock before and after.
pub record Wire : Type 0 where
  pub notified : Bool
  pub late_level : Bool
  pub level : Bool
  pub error : ℕ
  pub rx : List ℕ
  pub start : ℕ
  pub finish : ℕ

unfoldable pub exchange : Stream → Wire → Stream × Bool
exchange s w =
    let c = s.counters in
    if not w.notified && not w.late_level
    then (record s { counters = record c { timeouts = inc32 c.timeouts } }, false)
    else if not w.level
    then (s, false)
    else if not (w.error == 0)
    then (record s { fault = w.error }, false)
    else (record s { counters = record c { exchanges = inc32 c.exchanges } }, true)

-- The greatest magnitude of 16-bit samples.
abbrev pub magnitude : ℕ → ℕ
magnitude x = if ltb x 0x8000 then x else 0x10000 - x

abbrev pub peak_of : List ℕ → ℕ → ℕ
peak_of [] pk = pk
peak_of (x ∷ xs) pk = peak_of xs (if ltb pk (magnitude x) then magnitude x else pk)

-- The encoded audio of a response.
abbrev pub encoded_frame : List ℕ → Frame
encoded_frame rx = record {
  left = take 95 (drop cw_play_out rx);
  right = take 95 (drop (cw_play_out + 95) rx);
}

-- The response's audio for the radio.
unfoldable pub accept_play : Stream → List ℕ → Stream
accept_play s rx =
    let c = s.counters in
    let (t, ok) = push s.source (some (encoded_frame rx)) in
    if not (any_flag (get_or rx 5 0) cw_play)
    then s
    else if ok
    then record s { source = t; counters = record c { encoded = inc32 c.encoded } }
    else record s { source = t; counters = record c { queue_drops = inc32 c.queue_drops } }

-- The response's samples for the host; `taken` is what `ull_usb_audio_write_capture` returns.
unfoldable pub accept_mic : Stream → List ℕ → ℕ → Stream
accept_mic s rx taken =
    let c = s.counters in
    if not (any_flag (get_or rx 5 0) 6 && s.mic_active) then s else record s {
      counters = record c {
        peak = peak_of (samples_of 240 (drop cw_mic_out rx)) 0;
        decoded = inc32 c.decoded;
        usb_frames = u32 (c.usb_frames + taken);
      };
    }

-- The end of `accept_response`, for a response that it takes.
unfoldable pub accept_taken : Stream → List ℕ → ℕ → Stream
accept_taken s rx taken =
    let c = s.counters in
    let s1 =
      if get_or rx 6 0 == 0
      then s
      else record s { counters = record c { codec_errors = inc32 c.codec_errors } } in
    let s2 = accept_mic (accept_play s1 rx) rx taken in
    let d = s2.counters in
    if any_flag (get_or rx 5 0) cw_reset
    then record s2 { counters = record d { reset_count = inc32 d.reset_count } }
    else s2

-- Whether a response answers the previous request.
abbrev pub answers_previous : Stream → List ℕ → Bool
answers_previous s rx = get32_at 8 rx == s.previous_session && get32_at 12 rx == s.previous_seq

unfoldable pub accept_response : (List ℕ → ℕ) → Stream → List ℕ → ℕ → ℕ → Stream × Bool
accept_response crc s rx current_session taken =
    let c = s.counters in
    if not (cw_valid crc rx cw_response)
    then (record s { counters = record c { crc_errors = inc32 c.crc_errors } }, false)
    else if not s.have_previous
    then (s, false)
    else if not (answers_previous s rx)
    then (record s { counters = record c { sequence_errors = inc32 c.sequence_errors } }, false)
    else if not (s.previous_session == current_session)
    then (s, false)
    else (accept_taken s rx taken, true)
