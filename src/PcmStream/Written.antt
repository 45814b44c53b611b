-- ===== src/PcmStream/Written.antt =====
-- What is read from the head of a request of firmware/radio/src/pcm_stream.c.
use open_ull_receiver.Base.{
  ◌<◌, ◌^◌, ℕ, ◌≡◌, refl, ◌∙◌, Bool, true, false, Option, none, some, List, get_or, put_at, arith,
  inl, if◌then◌else◌, take,
}
use open_ull_receiver.AirSession.{put32, put16}
use open_ull_receiver.CodecWire.{
  WireHead, cw_begin, cw_seal, cw_crc, cw_request, cw_play, cw_mic_in, any_flag,
}
use open_ull_receiver.UsbPcm.View.{get_or-put_at}
use open_ull_receiver.PcmStream.{MicPacket}
use open_ull_receiver.PcmStream.Requests.{request_frame, flags_of}
use open_ull_receiver.SpiFrame.{get32_at}

abbrev head_of : ℕ → ℕ → ℕ → WireHead
head_of flags session seq = record {
  magic = cw_request;
  flags = flags;
  status = 0;
  session = session;
  seq = seq;
  radio_frame = 0;
}

-- A byte before the radio's frame number is that of the head.
byte_read :
    (crc : List ℕ → ℕ) (flags session seq : ℕ) (play : Bool) (pcm : List ℕ)
    (packet : Option MicPacket) (i : ℕ)
    → i < 16
    → get_or (request_frame crc flags session seq play pcm packet) i 0
      ≡ get_or (cw_begin (head_of flags session seq)) i 0
unfolding request_frame cw_seal
byte_read crc flags session seq true pcm none i h =
    let f = put_at 32 pcm (cw_begin (head_of flags session seq)) in
    get_or-put_at cw_crc (put32 (crc (take cw_crc f))) f i (inl (omega arith))
    ∙ get_or-put_at 32 pcm (cw_begin (head_of flags session seq)) i (inl (omega arith))
byte_read crc flags session seq false pcm none i h =
    let f = cw_begin (head_of flags session seq) in
    get_or-put_at cw_crc (put32 (crc (take cw_crc f))) f i (inl (omega arith))
byte_read crc flags session seq play pcm (some p) i h =
    let e = cw_begin (head_of flags session seq) in
    let f = if play then put_at 32 pcm e else e in
    let g = put_at cw_mic_in p.payload f in
    let k = put_at 16 (put32 p.frame) g in
    get_or-put_at cw_crc (put32 (crc (take cw_crc k))) k i (inl (omega arith))
    ∙ get_or-put_at 16 (put32 p.frame) g i (inl (omega arith))
    ∙ get_or-put_at cw_mic_in p.payload f i (inl (omega arith))
    ∙ samples_read play e
  where
    samples_read :
        (play : Bool) (e : List ℕ) → get_or (if play then put_at 32 pcm e else e) i 0 ≡ get_or e i 0
    samples_read true e = get_or-put_at 32 pcm e i (inl (omega arith))
    samples_read false e = refl

-- The flags that are read from a request, and its number.
pub flags_read :
    (crc : List ℕ → ℕ) (flags session seq : ℕ) (play : Bool) (pcm : List ℕ)
    (packet : Option MicPacket)
    → get_or (request_frame crc flags session seq play pcm packet) 5 0 ≡ flags
unfolding cw_begin put32 put16
flags_read crc flags session seq play pcm packet =
    byte_read crc flags session seq play pcm packet 5 (omega arith)

pub seq_read :
    (crc : List ℕ → ℕ) (flags session seq : ℕ) (play : Bool) (pcm : List ℕ)
    (packet : Option MicPacket)
    → seq < 2 ^ 32
    → get32_at 12 (request_frame crc flags session seq play pcm packet) ≡ seq
unfolding cw_begin put32 put16
seq_read crc flags session seq play pcm packet h =
    let byte = byte_read crc flags session seq play pcm packet in
    omega (
      arith,
      h,
      byte 12 (omega arith),
      byte 13 (omega arith),
      byte 14 (omega arith),
      byte 15 (omega arith),
    )

pub plays_flag : (play due mic : Bool) → any_flag (flags_of play due mic) cw_play ≡ play
plays_flag true true true = refl
plays_flag true true false = refl
plays_flag true false true = refl
plays_flag true false false = refl
plays_flag false true true = refl
plays_flag false true false = refl
plays_flag false false true = refl
plays_flag false false false = refl

pub flags_of-lt : (play due mic : Bool) → flags_of play due mic < 256
flags_of-lt play due mic = ground arith
