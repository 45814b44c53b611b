-- ===== src/PcmStream.antt =====
-- The worker between the radio, USB and the codec board: firmware/radio/src/pcm_stream.c. The
-- checksum of the ROM, the clock, the pins, the transfers and the USB audio are inputs of its
-- steps. A step runs while the other tasks stand still; between two steps of the worker, the radio
-- and the coordinator take theirs.
pub mod Queue
pub mod Responses
pub mod Requests
pub mod Turns
pub mod Microphone
pub mod Beside
pub mod Accepts
pub mod Cases
pub mod Runs
pub mod Sends
pub mod Heard
pub mod Room
pub mod Written
pub mod Due
pub mod Margin
pub mod Board
pub mod Undropped
pub mod Ordered
pub mod Answered
pub mod Paused
mod Examples
mod BoardExamples
use open_ull_receiver.Base.{
  ℕ, zero, suc, ◌+◌, ◌-◌, ◌*◌, ◌%◌, ◌^◌, bit_and, u32, sub32, inc32, Bool, true, false, not, ◌&&◌,
  ◌||◌, Option, none, some, List, [], ◌∷◌, get_or, set, take, drop, replicate, leb, ltb, ◌==◌,
  if◌then◌else◌, max,
}
use open_ull_receiver.SpiFrame.{get32_at}
use open_ull_receiver.CodecWire.{
  cw_valid, cw_response, cw_play, cw_mic, cw_plc, cw_reset, cw_ok, cw_play_out, cw_mic_out,
  any_flag,
}
use open_ull_receiver.CodecSlave.{samples_of}
use open_ull_receiver.AudioSource.{
  Source, Frame, Barrier, Selection, init, push, select, rearm, request, resume, paused,
}

abbrev pub queue_size : ℕ
queue_size = 16

-- `struct mic_packet`
pub record MicPacket : Type 0 where
  pub frame : ℕ
  pub epoch : ℕ
  pub at_us : ℕ
  pub seq : ℕ
  pub payload : List ℕ

abbrev pub no_packet : MicPacket
no_packet = record { frame = 0; epoch = 0; at_us = 0; seq = 0; payload = replicate 40 0 }

-- The counters that `ull_pcm_stream_diagnostics` and the statistics print.
pub record Counters : Type 0 where
  pub received : ℕ
  pub decoded : ℕ
  pub mic_dropped : ℕ
  pub duplicates : ℕ
  pub usb_frames : ℕ
  pub encoded : ℕ
  pub peak : ℕ
  pub crc_errors : ℕ
  pub sequence_errors : ℕ
  pub timeouts : ℕ
  pub exchanges : ℕ
  pub codec_errors : ℕ
  pub queue_drops : ℕ
  pub reset_count : ℕ
  pub last_us : ℕ
  pub max_us : ℕ
  pub playback_frames : ℕ

-- The variables of `run`.
pub record Worker : Type 0 where
  pub base : ℕ
  pub seq : ℕ
  pub reset_epoch : ℕ
  pub last_mic_frame : ℕ
  pub last_mic_seq : ℕ
  pub have_mic : Bool
  pub was_capture : Bool
  pub next_silence : ℕ
  pub last_transfer : ℕ

-- Where the worker is: at the head of its loop, waiting for the end of a pause, or in the exchange
-- of a request of the session.
pub data Phase : Type 0 where
  top : Phase
  waiting : Phase
  probing : ℕ → Phase
  transferring : ℕ → Phase

-- The static variables, and the state of the worker. `tx` is the frame of the last request.
pub record Stream : Type 0 where
  pub source : Source
  pub reconnect : Barrier
  pub ready : Bool
  pub mic_enabled : Bool
  pub mic_active : Bool
  pub fault : ℕ
  pub epoch : ℕ
  pub packets : List MicPacket
  pub written : ℕ
  pub read_pos : ℕ
  pub have_previous : Bool
  pub previous_session : ℕ
  pub previous_seq : ℕ
  pub tx : List ℕ
  pub counters : Counters
  pub worker : Worker
  pub phase : Phase

abbrev pub no_counters : Counters
no_counters = record {
  received = 0;
  decoded = 0;
  mic_dropped = 0;
  duplicates = 0;
  usb_frames = 0;
  encoded = 0;
  peak = 0;
  crc_errors = 0;
  sequence_errors = 0;
  timeouts = 0;
  exchanges = 0;
  codec_errors = 0;
  queue_drops = 0;
  reset_count = 0;
  last_us = 0;
  max_us = 0;
  playback_frames = 0;
}

-- The state once the task runs and its bus is up; `random` is the number of `esp_random() | 1`.
pub booted : ℕ → Stream
booted random = record {
  source = init;
  reconnect = record { requested = false; acknowledged = false };
  ready = false;
  mic_enabled = true;
  mic_active = false;
  fault = 0;
  epoch = 0;
  packets = replicate queue_size no_packet;
  written = 0;
  read_pos = 0;
  have_previous = false;
  previous_session = 0;
  previous_seq = 0;
  tx = [];
  counters = no_counters;
  worker = record {
    base = random;
    seq = 0;
    reset_epoch = 0xffffffff;
    last_mic_frame = 0;
    last_mic_seq = 0;
    have_mic = false;
    was_capture = false;
    next_silence = 0;
    last_transfer = 0;
  };
  phase = Phase.top;
}

-- `ull_pcm_stream_source`
pub stream_source : Stream → Option Source
stream_source s = if s.ready then some s.source else none

-- `ull_pcm_stream_pause_for_reconnect` up to its wait, and whether it goes on to wait.
pub pause_for_reconnect : Stream → Stream × Bool
pause_for_reconnect s =
    if s.reconnect.acknowledged || s.reconnect.requested
    then (s, false)
    else (record s { reconnect = request s.reconnect }, true)

pub paused_for_reconnect : Stream → Bool
paused_for_reconnect s = paused s.reconnect

pub stream_rearm : Stream → Stream × Bool
stream_rearm s = let (t, ok) = rearm s.source (some s.reconnect) in (record s { source = t }, ok)

pub resume_after_reconnect : Stream → Stream
resume_after_reconnect s = record s { reconnect = resume s.reconnect }

pub mic_enable : Stream → Bool → Stream
mic_enable s v = record s { mic_enabled = v }

pub new_session : Stream → Stream
new_session s = record s { epoch = inc32 s.epoch }

-- `ull_air_microphone_frame` at time `now`
pub air_microphone_frame : Stream → ℕ → ℕ → List ℕ → ℕ → Stream
air_microphone_frame s frame seq payload now =
    let c = s.counters in
    let t = record s { counters = record c { received = inc32 c.received } } in
    if not s.mic_active
    then t
    else if leb queue_size (sub32 s.written s.read_pos)
    then record s {
      counters = record c { received = inc32 c.received; mic_dropped = inc32 c.mic_dropped };
    }
    else record t {
      packets = set s.packets (s.written % queue_size) (record {
        frame = frame;
        epoch = s.epoch;
        at_us = u32 now;
        seq = seq;
        payload = payload;
      });
      written = inc32 s.written;
    }
