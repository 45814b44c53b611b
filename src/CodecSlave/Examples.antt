-- ===== src/CodecSlave/Examples.antt =====
-- Runs of the codec board's side, firmware/codec/src/main.c.
use open_ull_receiver.Base.{
  ℕ, ◌+◌, ◌%◌, ◌^◌, ◌<◌, ◌≡◌, refl, ltb, ◌&&◌, ◌∷◌, Bool, true, false, List, [], get_or, replicate,
  arith, All, IsByte, inc32,
}
use open_ull_receiver.AirSession.{put16, put32}
use open_ull_receiver.SpiFrame.{get32_at}
use open_ull_receiver.CodecWire.{
  WireHead, cw_begin, cw_seal, cw_request, cw_response, cw_valid, cw_play, any_flag,
}
use open_ull_receiver.CodecSlave.{Codecs, Slave, slave_process, crc_ok, header_ok}
use open_ull_receiver.CodecSlave.Again.{process_again}
use open_ull_receiver.CodecSlave.Replies.{process_replies}

-- Codecs that count their calls, and a checksum that reads the flags.
abbrev codecs : Codecs ℕ ℕ
codecs = record {
  encode = λ e play. (e + 1, 0, replicate 190 e);
  decode = λ d packet. (d + 1, 0, replicate 240 d);
  reset = λ d. (0, 0);
}

abbrev crc : List ℕ → ℕ
crc l = get_or l 5 0 % 256

crc-small : (l : List ℕ) → crc l < 2 ^ 32
crc-small l = omega arith

abbrev slave : Slave ℕ ℕ
slave = record {
  encoder = 0;
  decoder = 0;
  dec_ready = true;
  decoder_dirty = false;
  enc_result = 0;
  dec_result = 0;
  play_out = [];
  mic_out = [];
  tx = [];
  cached = [];
  have_cached = false;
  last_session = 0;
  last_seq = 0;
  have_decoder_session = false;
  decoder_session = 0;
  last_bits = 0;
  duplicates = 0;
  errors = 0;
  encoded = 0;
  decoded = 0;
  resets = 0;
  bad_crc = 0;
  bad_header = 0;
}

-- A request for playback, of session 7 and number 3.
abbrev head : WireHead
head = record { magic = cw_request; flags = 1; status = 0; session = 7; seq = 3; radio_frame = 0 }

abbrev rx : List ℕ
rx = cw_seal crc (cw_begin head)

rx_sound : (crc_ok crc rx ≡ true) × (header_ok rx 10240 ≡ true)
unfolding cw_seal cw_begin put32 put16
rx_sound = (refl, refl)

abbrev are_bytes : List ℕ → Bool
are_bytes [] = true
are_bytes (x ∷ xs) = ltb x 256 && are_bytes xs

small_bytes : (xs : List ℕ) → are_bytes xs ≡ true → All IsByte xs
small_bytes [] h = tt
small_bytes (x ∷ xs) h = (ground arith, small_bytes xs (ground arith))

rx-IsByte : All IsByte rx
unfolding cw_seal cw_begin put32 put16
rx-IsByte = small_bytes rx refl

process_again_example :
    let t = slave_process codecs crc slave rx 10240 in
    slave_process codecs crc t rx 10240 ≡ record t { duplicates = inc32 t.duplicates }
process_again_example = process_again codecs crc slave rx 10240 rx_sound.0 rx_sound.1

process_replies_example :
    let f = (slave_process codecs crc slave rx 10240).tx in
    (cw_valid crc f cw_response ≡ true)
    × (get32_at 8 f ≡ get32_at 8 rx)
    × (get32_at 12 f ≡ get32_at 12 rx)
    × (get32_at 16 f ≡ get32_at 16 rx)
    × (any_flag (get_or f 5 0) cw_play ≡ true → any_flag (get_or rx 5 0) cw_play ≡ true)
process_replies_example =
    process_replies codecs crc crc-small rx rx-IsByte slave 10240 rx_sound.0 rx_sound.1 refl
