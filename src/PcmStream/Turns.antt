-- ===== src/PcmStream/Turns.antt =====
-- The turns of `run` in firmware/radio/src/pcm_stream.c, cut where the worker waits: a turn from the
-- head of its loop up to the exchange, and the rest of it after the exchange.
use open_ull_receiver.Base.{
  ℕ, ◌+◌, u32, sub32, inc32, Bool, true, false, not, ◌&&◌, ◌||◌, Option, none, List, [], get_or,
  ltb, ◌==◌, if◌then◌else◌,
}
use open_ull_receiver.CodecWire.{cw_ok}
use open_ull_receiver.AudioSource.{available, acknowledge, depart}
use open_ull_receiver.PcmStream.Requests.{take_packet, request_frame, flags_of, has_packet}
use open_ull_receiver.PcmStream.{MicPacket, Worker, Phase, Stream}
use open_ull_receiver.PcmStream.Responses.{Wire, exchange, accept_response}

-- What a turn finds at its beginning: `ull_usb_audio_stats`, the time, and what
-- `ull_usb_audio_read_playback` would fetch, as the number of frames and the bytes of 480 samples.
pub record WorkerTurn : Type 0 where
  pub mounted : Bool
  pub playback_active : Bool
  pub playback_buffered : ℕ
  pub now : ℕ
  pub got : ℕ
  pub pcm : List ℕ

-- The state after a pause is noticed.
unfoldable pub enter_pause : Stream → Stream
enter_pause s =
    let w = s.worker in
    record s {
      mic_active = false;
      have_previous = false;
      read_pos = s.written;
      worker = record w { have_mic = false; was_capture = false };
      reconnect = acknowledge s.reconnect;
      phase = Phase.waiting;
    }

-- The wait for the end of a pause, one look at the barrier.
unfoldable pub leave_pause : Stream → Stream
leave_pause s =
    if s.reconnect.requested
    then s
    else record s { reconnect = depart s.reconnect; phase = Phase.top }

-- The session of a request, `base + epoch`.
abbrev pub session_of : Stream → ℕ
session_of s = u32 (s.worker.base + s.epoch)

-- Whether the playback of a turn asks for audio to be encoded.
unfoldable pub plays : Stream → WorkerTurn → Bool
plays s t =
    ltb (available s.source) 3
    && not (t.mounted && t.playback_active && ltb t.playback_buffered 240)
    && not (not t.playback_active && ltb t.now s.worker.next_silence)

-- A turn with no request but for the codec to be ready.
unfoldable pub probe : (List ℕ → ℕ) → Stream → Stream
probe crc s =
    let w = s.worker in
    let seq = inc32 w.seq in
    record s {
      tx = request_frame crc 0 (session_of s) seq false [] none;
      worker = record w { seq = seq };
      phase = Phase.probing (session_of s);
    }

-- `capture && (!was_capture || reset_epoch != current_epoch)`
abbrev pub reset_due : Stream → Bool
reset_due s = s.mic_enabled && (not s.worker.was_capture || not (s.worker.reset_epoch == s.epoch))

-- The worker's variables once a request is begun.
abbrev pub began : Stream → WorkerTurn → Worker
began s t =
    let w = s.worker in
    record w {
      seq = inc32 w.seq;
      reset_epoch = if reset_due s then s.epoch else w.reset_epoch;
      have_mic = if reset_due s then false else w.have_mic;
      was_capture = s.mic_enabled;
      next_silence = if plays s t then t.now + 5000 else w.next_silence;
    }

-- A turn that sends a request, and the microphone packet in it.
unfoldable pub transfer : (List ℕ → ℕ) → Stream → WorkerTurn → Stream × Option MicPacket
transfer crc s t =
    let c = s.counters in
    let play = plays s t in
    let s1 = record s {
      worker = began s t;
      counters = if play then record c { playback_frames = u32 (c.playback_frames + t.got) } else c;
    } in
    let (s2, packet) = take_packet s1 s.mic_enabled t.now in
    (
      record s2 {
        tx =
            request_frame crc (flags_of play (reset_due s) (has_packet packet)) (session_of s)
              s1.worker.seq play t.pcm packet;
        phase = Phase.transferring (session_of s);
      },
      packet,
    )

-- A turn with no radio to send audio to.
abbrev pub idle_turn : Stream → Stream
idle_turn s =
    let w = s.worker in record s { mic_active = false; worker = record w { was_capture = false } }

-- A turn of the loop up to its exchange; a turn that only delays stays at the head.
unfoldable pub begin_turn : (List ℕ → ℕ) → Stream → WorkerTurn → Stream × Option MicPacket
begin_turn crc s t =
    let w = s.worker in
    let s1 = record s { mic_active = s.mic_enabled } in
    if s.reconnect.requested
    then (enter_pause s, none)
    else if not s.ready
    then (probe crc s, none)
    else if not s.source.requested
    then (idle_turn s, none)
    else if not (plays s t) && (not s.mic_enabled || ltb t.now (w.last_transfer + 5000))
    then (s1, none)
    else transfer crc s1 t

-- The request just exchanged becomes the previous one.
abbrev pub retire : Stream → ℕ → Stream
retire s session = record s {
  have_previous = true;
  previous_session = session;
  previous_seq = s.worker.seq;
  phase = Phase.top;
}

-- The end of a probe, and whether a response was accepted.
unfoldable pub end_probe : (List ℕ → ℕ) → Stream → Wire → ℕ → ℕ → Stream × Bool
end_probe crc s wire taken session =
    let (s1, moved) = exchange s wire in
    let (s2, ok) = accept_response crc s1 wire.rx session taken in
    let ready = s2.ready || ok && get_or wire.rx 6 0 == cw_ok in
    if not moved
    then (record s1 { phase = Phase.top }, false)
    else (retire (record s2 { ready = ready }) session, ok)

-- The times of a transfer.
abbrev pub timed : Stream → Wire → Stream
timed s wire =
    let w = s.worker in
    let c = s.counters in
    let dt = sub32 (u32 wire.finish) (u32 wire.start) in
    record s {
      worker = record w { last_transfer = wire.finish };
      counters = record c { last_us = dt; max_us = if ltb c.max_us dt then dt else c.max_us };
    }

-- A transfer that failed.
abbrev pub disarmed : Stream → Stream
disarmed s =
    let w = s.worker in
    record s {
      ready = false;
      mic_active = false;
      have_previous = false;
      worker = record w { was_capture = false };
      phase = Phase.top;
    }

-- The end of a transfer.
unfoldable pub end_transfer : (List ℕ → ℕ) → Stream → Wire → ℕ → ℕ → Stream × Bool
end_transfer crc s wire taken session =
    let (s1, moved) = exchange s wire in
    let s2 = timed s1 wire in
    let (s3, ok) = accept_response crc s2 wire.rx (session_of s2) taken in
    if not moved then (disarmed s1, false) else (retire s3 session, ok)

-- The worker after its exchange, or its wait.
unfoldable pub end_phase : (List ℕ → ℕ) → Phase → Stream → Wire → ℕ → Stream × Bool
end_phase crc Phase.top s wire taken = (s, false)
end_phase crc Phase.waiting s wire taken = (leave_pause s, false)
end_phase crc (Phase.probing session) s wire taken = end_probe crc s wire taken session
end_phase crc (Phase.transferring session) s wire taken = end_transfer crc s wire taken session

unfoldable pub end_turn : (List ℕ → ℕ) → Stream → Wire → ℕ → Stream × Bool
end_turn crc s wire taken = end_phase crc s.phase s wire taken
