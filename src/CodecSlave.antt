-- ===== src/CodecSlave.antt =====
-- The codec board's side of the wire: `process` of firmware/codec/src/main.c, with the jobs that it
-- gives to `encode_worker` and `decode_worker` and waits for. The encoder and the decoder of
-- pcm_codec.h and mic_codec.h, and the checksum of the ROM, are parameters.
pub mod Again
pub mod Replies
pub mod Audio
mod Examples
use open_ull_receiver.Base.{
  ℕ, zero, suc, ◌+◌, ◌*◌, bit_and, bit_or, u8, u32, inc32, ◌>>>◌, Bool, true, false, not, ◌&&◌,
  ◌||◌, Option, none, some, List, [], ◌∷◌, length, get_or, take, drop, put_at, ◌==◌, if◌then◌else◌,
}
use open_ull_receiver.SpiFrame.{get32_at}
use open_ull_receiver.CodecWire.{
  cw_begin, cw_seal, cw_crc, cw_bytes, cw_play_in, cw_mic_in, cw_play_out, cw_mic_out, cw_play,
  cw_mic, cw_plc, cw_reset, cw_ok, cw_bad_wire, cw_encode_error, cw_decode_error, cw_request,
  cw_response, any_flag, WireHead,
}

-- The two codecs: a call gives the new state, the return code and what it wrote. A sample is its
-- 16-bit pattern; `decode` of `none` conceals a lost packet.
pub record Codecs (E D : Type 0) : Type 0 where
  pub encode : E → List ℕ → E × ℕ × List ℕ
  pub decode : D → Option (List ℕ) → D × ℕ × List ℕ
  pub reset : D → D × ℕ

-- The static variables.
pub record Slave (E D : Type 0) : Type 0 where
  pub encoder : E
  pub decoder : D
  pub dec_ready : Bool
  pub decoder_dirty : Bool
  pub enc_result : ℕ
  pub dec_result : ℕ
  pub play_out : List ℕ
  pub mic_out : List ℕ
  pub tx : List ℕ
  pub cached : List ℕ
  pub have_cached : Bool
  pub last_session : ℕ
  pub last_seq : ℕ
  pub have_decoder_session : Bool
  pub decoder_session : ℕ
  pub last_bits : ℕ
  pub duplicates : ℕ
  pub errors : ℕ
  pub encoded : ℕ
  pub decoded : ℕ
  pub resets : ℕ
  pub bad_crc : ℕ
  pub bad_header : ℕ

-- The samples of `n` pairs of bytes, and the bytes of samples.
abbrev pub samples_of : ℕ → List ℕ → List ℕ
samples_of zero bytes = []
samples_of (suc n) bytes = (get_or bytes 0 0 + get_or bytes 1 0 * 256) ∷ samples_of n (drop 2 bytes)

abbrev pub bytes_of : List ℕ → List ℕ
bytes_of [] = []
bytes_of (x ∷ xs) = u8 x ∷ u8 (x >>> 8) ∷ bytes_of xs

-- No byte of the head's reserved part is set.
abbrev pub all_zero : List ℕ → Bool
all_zero [] = true
all_zero (x ∷ xs) = x == 0 && all_zero xs

-- `header` of `process`
abbrev pub header_ok : List ℕ → ℕ → Bool
header_ok rx bits =
    bits == cw_bytes * 8
    && get32_at 0 rx == cw_request
    && get_or rx 4 0 == 2
    && get_or rx 6 0 == 0
    && get_or rx 7 0 == 0
    && bit_and (get_or rx 5 0) 0xf0 == 0
    && not (bit_and (get_or rx 5 0) 6 == 6)
    && all_zero (take 12 (drop 20 rx))

-- `rc == 2` of the decoder is no error.
abbrev pub decode_code : ℕ → ℕ
decode_code rc = if rc == 2 then 0 else rc

-- `decode_audio` and `decode_reset`
abbrev pub decode_audio : List ℕ → Bool
decode_audio rx = any_flag (get_or rx 5 0) 6

abbrev pub decode_reset : {E D : Type 0} → Slave E D → List ℕ → Bool
decode_reset s rx =
    any_flag (get_or rx 5 0) cw_reset
    || decode_audio rx && (not s.have_decoder_session || not (s.decoder_session == get32_at 8 rx))

-- The packet for the decoder, if there is one.
abbrev pub packet_of : List ℕ → Option (Option (List ℕ))
packet_of rx =
    if not (decode_audio rx)
    then none
    else if any_flag (get_or rx 5 0) cw_plc
    then some none
    else some (some (take 40 (drop cw_mic_in rx)))

-- The answer to a request: its status and flags, and the outputs that they announce.
pub record Answer (E D : Type 0) : Type 0 where
  pub slave : Slave E D
  pub flags : ℕ
  pub status : ℕ
  pub play : Option (List ℕ)
  pub mic : Option (List ℕ)

abbrev pub put_some : ℕ → Option (List ℕ) → List ℕ → List ℕ
put_some i none f = f
put_some i (some bytes) f = put_at i bytes f

-- The frame of an answer.
unfoldable pub answer_frame :
    (List ℕ → ℕ) → ℕ → ℕ → List ℕ → Option (List ℕ) → Option (List ℕ) → List ℕ
answer_frame crc flags status rx play mic = cw_seal crc (
    put_some cw_mic_out mic (
      put_some cw_play_out play (
        cw_begin (record {
          magic = cw_response;
          flags = flags;
          status = status;
          session = get32_at 8 rx;
          seq = get32_at 12 rx;
          radio_frame = get32_at 16 rx;
        }))))

abbrev pub crc_ok : (List ℕ → ℕ) → List ℕ → Bool
crc_ok crc rx = get32_at cw_crc rx == crc (take cw_crc rx)

abbrev pub is_repeated : {E D : Type 0} → Slave E D → List ℕ → Bool
is_repeated s rx = s.have_cached && s.last_session == get32_at 8 rx && s.last_seq == get32_at 12 rx

module _ {E D : Type 0} (codecs : Codecs E D) where
  -- One turn of `encode_worker`, on the samples in `play_in`.
  unfoldable pub encode_job : Slave E D → List ℕ → Slave E D
  encode_job s play_in =
      let (e, rc, out) = codecs.encode s.encoder play_in in
      record s { encoder = e; enc_result = rc; play_out = out; encoded = inc32 s.encoded }

  -- The first half of a turn of `decode_worker`: its check and the reset that is due. The code 1
  -- stands for -1; all that counts is whether it is 0.
  unfoldable pub decode_reset_job : Slave E D → Bool → Slave E D × ℕ
  decode_reset_job s due =
      if not s.dec_ready
      then (s, 1)
      else if not due
      then (s, 0)
      else let (d, rc) = if s.decoder_dirty then codecs.reset s.decoder else (s.decoder, 0) in
        if rc == 0
        then (record s { decoder = d; decoder_dirty = false; resets = inc32 s.resets }, 0)
        else (record s { decoder = d; dec_ready = false }, rc)

  -- A whole turn of it; `packet` is `none` where no audio is to be decoded.
  unfoldable pub decode_job : Slave E D → Bool → Option (Option (List ℕ)) → Slave E D
  decode_job s due none = let (t, rc) = decode_reset_job s due in record t { dec_result = rc }
  decode_job s due (some packet) =
      let (t, rc) = decode_reset_job s due in
      let (d, code, out) = codecs.decode t.decoder packet in
      if rc == 0
      then record t {
        decoder = d;
        decoder_dirty = true;
        mic_out = out;
        dec_result = decode_code code;
        decoded = if decode_code code == 0 then inc32 t.decoded else t.decoded;
      }
      else record t { dec_result = rc }

  -- What the encoder adds to it.
  unfoldable pub answer_play : Slave E D → List ℕ → Answer E D
  answer_play s rx =
      let t = encode_job s (samples_of 480 (drop cw_play_in rx)) in
      if not (any_flag (get_or rx 5 0) cw_play)
      then record { slave = s; flags = 0; status = cw_ok; play = none; mic = none }
      else if t.enc_result == 0
      then record { slave = t; flags = cw_play; status = cw_ok; play = some t.play_out; mic = none }
      else record { slave = t; flags = 0; status = cw_encode_error; play = none; mic = none }

  -- What the decoder adds to it.
  unfoldable pub answer_mic : Answer E D → List ℕ → Answer E D
  answer_mic a rx =
      let due = decode_reset a.slave rx in
      let t = decode_job a.slave due (packet_of rx) in
      if not (decode_audio rx || due)
      then a
      else if t.dec_result == 0
      then record a {
        slave =
            if due
            then record t { have_decoder_session = true; decoder_session = get32_at 8 rx }
            else t;
        flags =
            let f = bit_or a.flags (bit_and (get_or rx 5 0) cw_reset) in
            if decode_audio rx then bit_or f (bit_and (get_or rx 5 0) 6) else f;
        mic = if decode_audio rx then some (bytes_of t.mic_out) else none;
      }
      else record a { slave = t; status = bit_or a.status cw_decode_error }

  module _ (crc : List ℕ → ℕ) where
    -- A request that is neither broken nor the last one again.
    unfoldable pub process_new : Slave E D → List ℕ → Slave E D
    process_new s rx =
        let a = answer_mic (answer_play s rx) rx in
        let f = answer_frame crc a.flags a.status rx a.play a.mic in
        let t = a.slave in
        record t {
          tx = f;
          cached = f;
          have_cached = true;
          last_session = get32_at 8 rx;
          last_seq = get32_at 12 rx;
          errors = if a.status == 0 then t.errors else inc32 t.errors;
        }

    -- `process`, of `bits` bits that have arrived in `rx`.
    unfoldable pub slave_process : Slave E D → List ℕ → ℕ → Slave E D
    slave_process s rx bits =
        let ok = crc_ok crc rx in
        let header = header_ok rx bits in
        let t = record s {
          last_bits = bits;
          bad_crc = if ok then s.bad_crc else inc32 s.bad_crc;
          bad_header = if header then s.bad_header else inc32 s.bad_header;
        } in
        if not (ok && header)
        then record t { tx = answer_frame crc 0 cw_bad_wire rx none none; errors = inc32 t.errors }
        else if is_repeated t rx
        then record t { tx = t.cached; duplicates = inc32 t.duplicates }
        else process_new t rx
