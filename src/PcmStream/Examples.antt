-- ===== src/PcmStream/Examples.antt =====
-- Runs of firmware/radio/src/pcm_stream.c.
use mathlib.Core.List.{Sublist}
use open_ull_receiver.Base.{
  ℕ, suc, ◌+◌, ◌*◌, ◌%◌, ◌^◌, ◌<◌, ◌≡◌, refl, true, false, List, [], ◌∷◌, ◌++◌, get_or, replicate,
  arith, length,
}
use open_ull_receiver.AirSession.{put16, put32}
use open_ull_receiver.AudioSource.{
  init, select, select_new, take_next, push, request, acknowledge, paused,
}
use open_ull_receiver.CodecWire.{cw_begin, cw_seal, cw_response, cw_valid}
use open_ull_receiver.PcmStream.{
  Stream, Phase, booted, air_microphone_frame, pause_for_reconnect, paused_for_reconnect,
}
use open_ull_receiver.PcmStream.Responses.{
  Wire, exchange, accept_response, accept_taken, accept_play, accept_mic,
}
use open_ull_receiver.PcmStream.Queue.{IsQueue, contents}
use open_ull_receiver.PcmStream.Requests.{next_packet, take_packet, request_frame}
use open_ull_receiver.PcmStream.Turns.{
  WorkerTurn, begin_turn, end_turn, end_phase, end_probe, end_transfer, enter_pause, probe,
  transfer, plays,
}
use open_ull_receiver.PcmStream.Runs.{Past, Run, nothing}
use open_ull_receiver.PcmStream.Heard.{Run-Sublist}
use open_ull_receiver.PcmStream.Ordered.{Falls}
use open_ull_receiver.PcmStream.Answered.{Run-Falls}
use open_ull_receiver.PcmStream.Paused.{Run-paused}

-- A checksum that reads the number of a frame.
abbrev pub crc : List ℕ → ℕ
crc l = get_or l 12 0 + get_or l 5 0 * 256

-- A response of session 5.
abbrev response : ℕ → ℕ → List ℕ
response flags seq = cw_seal crc (
    cw_begin (record {
      magic = cw_response;
      flags = flags;
      status = 0;
      session = 5;
      seq = seq;
      radio_frame = 0;
    }))

abbrev pub wire : List ℕ → Wire
wire rx = record {
  notified = true;
  late_level = true;
  level = true;
  error = 0;
  rx = rx;
  start = 1000;
  finish = 1600;
}

-- A turn with the host playing nothing.
abbrev pub turn : WorkerTurn
turn = record {
  mounted = true;
  playback_active = false;
  playback_buffered = 0;
  now = 20000;
  got = 0;
  pcm = replicate 960 0;
}

-- A run with its stream and its past, and its steps.
abbrev pub Some : Type 0
Some = (s : Stream) × (p : Past) × Run crc s p

abbrev pub asked : Some → Some
asked (s, p, r) = (_, _, Run.asks 7 r)

abbrev heard_one : Some → ℕ → Some
heard_one (s, p, r) frame = (_, _, Run.hears frame (frame % 256) (replicate 40 1) 15000 r)

abbrev paused_one : Some → Some
paused_one (s, p, r) = (_, _, Run.pauses r)

abbrev pub begun : (a : Some) → (a.0).phase ≡ Phase.top → (a.0).worker.seq + 1 < 2 ^ 32 → Some
begun (s, p, r) top low = (_, _, Run.begins turn r top low)

abbrev pub ended : Some → List ℕ → Some
ended (s, p, r) rx = (_, _, Run.ends (wire rx) 240 r)

-- Two probes, of which the second meets the answer to the first.
abbrev pub start : Some
start = (booted 5, nothing, Run.boot 5)

pub start-idle : (start.0.phase ≡ Phase.top) × (start.0.worker.seq + 1 < 2 ^ 32)
unfolding booted begin_turn probe end_turn end_phase end_probe end_transfer exchange accept_response
    accept_taken accept_play accept_mic cw_valid cw_begin cw_seal put32 put16 request_frame transfer
    take_packet next_packet plays air_microphone_frame select select_new take_next init push
start-idle = (refl, omega arith)

abbrev probed : Some
probed = ended (begun start start-idle.0 start-idle.1) []

probed-idle : (probed.0.phase ≡ Phase.top) × (probed.0.worker.seq + 1 < 2 ^ 32)
unfolding booted begin_turn probe end_turn end_phase end_probe end_transfer exchange accept_response
    accept_taken accept_play accept_mic cw_valid cw_begin cw_seal put32 put16 request_frame transfer
    take_packet next_packet plays air_microphone_frame select select_new take_next init push
probed-idle = (refl, omega arith)

abbrev met : Some
met = asked (ended (begun probed probed-idle.0 probed-idle.1) (response 0 1))

met-idle : (met.0.phase ≡ Phase.top) × (met.0.worker.seq + 1 < 2 ^ 32)
unfolding booted begin_turn probe end_turn end_phase end_probe end_transfer exchange accept_response
    accept_taken accept_play accept_mic cw_valid cw_begin cw_seal put32 put16 request_frame transfer
    take_packet next_packet plays air_microphone_frame select select_new take_next init push
met-idle = (refl, omega arith)

-- A request for audio, during which a packet is heard, and one that sends the packet and meets the
-- audio.
abbrev sent : Some
sent = ended (heard_one (begun met met-idle.0 met-idle.1) 100) (response 0 2)

sent-idle : (sent.0.phase ≡ Phase.top) × (sent.0.worker.seq + 1 < 2 ^ 32)
unfolding booted begin_turn probe end_turn end_phase end_probe end_transfer exchange accept_response
    accept_taken accept_play accept_mic cw_valid cw_begin cw_seal put32 put16 request_frame transfer
    take_packet next_packet plays air_microphone_frame select select_new take_next init push
sent-idle = (refl, omega arith)

abbrev filled : Some
filled = ended (begun sent sent-idle.0 sent-idle.1) (response 1 3)

filled_lem :
    (filled.1.accepted ≡ 3 ∷ 2 ∷ 1 ∷ [])
    × (length filled.1.sent ≡ 1)
    × (filled.0.counters.encoded ≡ 1)
unfolding booted begin_turn probe end_turn end_phase end_probe end_transfer exchange accept_response
    accept_taken accept_play accept_mic cw_valid cw_begin cw_seal put32 put16 request_frame transfer
    take_packet next_packet plays air_microphone_frame select select_new take_next init push
filled_lem = (refl, refl, refl)

paused-idle :
    ((paused_one probed).0.phase ≡ Phase.top) × ((paused_one probed).0.worker.seq + 1 < 2 ^ 32)
unfolding booted begin_turn probe end_turn end_phase end_probe end_transfer exchange accept_response
    accept_taken accept_play accept_mic cw_valid cw_begin cw_seal put32 put16 request_frame transfer
    take_packet next_packet plays air_microphone_frame select select_new take_next init push
    pause_for_reconnect
paused-idle = (refl, omega arith)

-- The worker of the same board, paused after its first request.
abbrev waiting : Some
waiting = begun (paused_one probed) paused-idle.0 paused-idle.1

waiting-paused : paused_for_reconnect waiting.0 ≡ true
unfolding booted begin_turn probe end_turn end_phase end_probe end_transfer exchange accept_response
    accept_taken accept_play accept_mic cw_valid cw_begin cw_seal put32 put16 request_frame transfer
    take_packet next_packet plays air_microphone_frame select select_new take_next init push
    pause_for_reconnect paused_for_reconnect request acknowledge paused enter_pause
waiting-paused = refl

abbrev loaded : Some
loaded = heard_one (begun met met-idle.0 met-idle.1) 100

Run-Sublist_example : IsQueue filled.0 × Sublist (filled.1.sent ++ contents filled.0) filled.1.heard
Run-Sublist_example = Run-Sublist crc filled.2

Run-Falls_example : Falls (suc filled.0.worker.seq) filled.1.accepted
Run-Falls_example = Run-Falls crc filled.2

Run-paused_example :
    (waiting.0.phase ≡ Phase.waiting)
    × (waiting.0.mic_active ≡ false)
    × (waiting.0.have_previous ≡ false)
    × (contents waiting.0 ≡ [])
    × ((w : Wire) (taken : ℕ) → end_turn crc waiting.0 w taken ≡ (waiting.0, false))
Run-paused_example = Run-paused crc waiting.2 waiting-paused
