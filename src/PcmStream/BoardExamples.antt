-- ===== src/PcmStream/BoardExamples.antt =====
-- A run of firmware/radio/src/pcm_stream.c with the codec board of firmware/codec/src/main.c.
use open_ull_receiver.Base.{
  ℕ, ◌+◌, ◌^◌, ◌<◌, ◌≡◌, refl, true, false, ◌&&◌, [], ◌∷◌, replicate, arith,
}
use open_ull_receiver.AirSession.{put16, put32}
use open_ull_receiver.AudioSource.{init, select, select_new, take_next, push}
use open_ull_receiver.CodecWire.{cw_begin, cw_seal, cw_response, cw_valid}
use open_ull_receiver.CodecSlave.{
  Codecs, Slave, slave_process, process_new, answer_play, answer_mic, answer_frame, encode_job,
  decode_job, decode_reset_job,
}
use open_ull_receiver.PcmStream.{Phase, booted}
use open_ull_receiver.PcmStream.Responses.{
  exchange, accept_response, accept_taken, accept_play, accept_mic,
}
use open_ull_receiver.PcmStream.Requests.{next_packet, take_packet, request_frame}
use open_ull_receiver.PcmStream.Turns.{
  begin_turn, end_turn, end_phase, end_probe, end_transfer, probe, transfer, plays,
}
use open_ull_receiver.PcmStream.Due.{due, is_busy}
use open_ull_receiver.PcmStream.Room.{HasRoom}
use open_ull_receiver.PcmStream.Board.{Wired}
use open_ull_receiver.PcmStream.Undropped.{Run-Wired}
use open_ull_receiver.PcmStream.Examples.{crc, wire, Some, asked, begun, ended, start}

-- Codecs that return numbers, and a board that is just up.
abbrev codecs : Codecs ℕ ℕ
codecs = record {
  encode = λ e play. (e + 1, 0, replicate 190 e);
  decode = λ d packet. (d + 1, 0, replicate 240 d);
  reset = λ d. (0, 0);
}

abbrev board : Slave ℕ ℕ
board = record {
  encoder = 0;
  decoder = 0;
  dec_ready = true;
  decoder_dirty = false;
  enc_result = 0;
  dec_result = 0;
  play_out = [];
  mic_out = [];
  tx = cw_seal crc (
      cw_begin (record {
        magic = cw_response;
        flags = 0;
        status = 8;
        session = 0;
        seq = 0;
        radio_frame = 0;
      }));
  cached = [];
  have_cached = false;
  last_session = 0;
  last_seq = 0;
  have_decoder_session = false;
  decoder_session = 0;
  last_bits = 0;
  duplicates = 0;
  errors = 0;
  encoded = 0;
  decoded = 0;
  resets = 0;
  bad_crc = 0;
  bad_header = 0;
}

-- A run with a board, and its steps.
abbrev Meeting : Type 0
Meeting = (a : Some) × (b : Slave ℕ ℕ) × Wired codecs crc a.2 b

abbrev Idle : Meeting → Type 0
Idle m = (m.0.0.phase ≡ Phase.top) × (m.0.0.worker.seq + 1 < 2 ^ 32)

abbrev turned : (m : Meeting) → Idle m → Some
turned m i = begun m.0 i.0 i.1

abbrev Moves : (m : Meeting) → Idle m → Type 0
Moves m i = let s = (turned m i).0 in (is_busy s.phase && (exchange s (wire m.1.tx)).1) ≡ true

abbrev wanted : Meeting → Meeting
wanted m = (asked m.0, m.1, m.2)

-- A turn of the worker, up to the end of its exchange with the board.
abbrev meets : (m : Meeting) (i : Idle m) → Moves m i → Meeting
meets m i moved = (
  ended (turned m i) m.1.tx,
  slave_process codecs crc m.1 (turned m i).0.tx 10240,
  (m.1, m.2, (λ _. (refl, refl), λ still. absurd (ground arith))),
)

abbrev first : Meeting
first = (start, board, refl)

first-Idle : Idle first
unfolding booted begin_turn probe end_turn end_phase end_probe end_transfer exchange accept_response
    accept_taken accept_play accept_mic cw_valid cw_begin cw_seal put32 put16 request_frame transfer
    take_packet next_packet plays select select_new take_next init push slave_process process_new
    answer_play answer_mic answer_frame encode_job decode_job decode_reset_job
first-Idle = (refl, omega arith)

first-Moves : Moves first first-Idle
unfolding booted begin_turn probe end_turn end_phase end_probe end_transfer exchange accept_response
    accept_taken accept_play accept_mic cw_valid cw_begin cw_seal put32 put16 request_frame transfer
    take_packet next_packet plays select select_new take_next init push slave_process process_new
    answer_play answer_mic answer_frame encode_job decode_job decode_reset_job
first-Moves = refl

abbrev second : Meeting
second = meets first first-Idle first-Moves

second-Idle : Idle second
unfolding booted begin_turn probe end_turn end_phase end_probe end_transfer exchange accept_response
    accept_taken accept_play accept_mic cw_valid cw_begin cw_seal put32 put16 request_frame transfer
    take_packet next_packet plays select select_new take_next init push slave_process process_new
    answer_play answer_mic answer_frame encode_job decode_job decode_reset_job
second-Idle = (refl, omega arith)

second-Moves : Moves second second-Idle
unfolding booted begin_turn probe end_turn end_phase end_probe end_transfer exchange accept_response
    accept_taken accept_play accept_mic cw_valid cw_begin cw_seal put32 put16 request_frame transfer
    take_packet next_packet plays select select_new take_next init push slave_process process_new
    answer_play answer_mic answer_frame encode_job decode_job decode_reset_job
second-Moves = refl

abbrev third : Meeting
third = meets second second-Idle second-Moves

abbrev asking : Meeting
asking = wanted third

asking-Idle : Idle asking
unfolding booted begin_turn probe end_turn end_phase end_probe end_transfer exchange accept_response
    accept_taken accept_play accept_mic cw_valid cw_begin cw_seal put32 put16 request_frame transfer
    take_packet next_packet plays select select_new take_next init push slave_process process_new
    answer_play answer_mic answer_frame encode_job decode_job decode_reset_job
asking-Idle = (refl, omega arith)

asking-Moves : Moves asking asking-Idle
unfolding booted begin_turn probe end_turn end_phase end_probe end_transfer exchange accept_response
    accept_taken accept_play accept_mic cw_valid cw_begin cw_seal put32 put16 request_frame transfer
    take_packet next_packet plays select select_new take_next init push slave_process process_new
    answer_play answer_mic answer_frame encode_job decode_job decode_reset_job
asking-Moves = refl

abbrev fourth : Meeting
fourth = meets asking asking-Idle asking-Moves

fourth-Idle : Idle fourth
unfolding booted begin_turn probe end_turn end_phase end_probe end_transfer exchange accept_response
    accept_taken accept_play accept_mic cw_valid cw_begin cw_seal put32 put16 request_frame transfer
    take_packet next_packet plays select select_new take_next init push slave_process process_new
    answer_play answer_mic answer_frame encode_job decode_job decode_reset_job
fourth-Idle = (refl, omega arith)

fourth-Moves : Moves fourth fourth-Idle
unfolding booted begin_turn probe end_turn end_phase end_probe end_transfer exchange accept_response
    accept_taken accept_play accept_mic cw_valid cw_begin cw_seal put32 put16 request_frame transfer
    take_packet next_packet plays select select_new take_next init push slave_process process_new
    answer_play answer_mic answer_frame encode_job decode_job decode_reset_job
fourth-Moves = refl

abbrev fifth : Meeting
fifth = meets fourth fourth-Idle fourth-Moves

-- The board's audio has come in.
fifth_lem : (fifth.0.1.accepted ≡ 3 ∷ 2 ∷ 1 ∷ []) × (fifth.0.0.counters.encoded ≡ 1)
unfolding booted begin_turn probe end_turn end_phase end_probe end_transfer exchange accept_response
    accept_taken accept_play accept_mic cw_valid cw_begin cw_seal put32 put16 request_frame transfer
    take_packet next_packet plays select select_new take_next init push slave_process process_new
    answer_play answer_mic answer_frame encode_job decode_job decode_reset_job
fifth_lem = (refl, refl)

Run-Wired_example :
    let (s, p, r) = fifth.0 in
    HasRoom s.source (due s.have_previous p.previous + due (is_busy s.phase) s.tx)
    × (s.counters.queue_drops ≡ 0)
Run-Wired_example = Run-Wired codecs crc fifth.0.2 fifth.1 fifth.2
