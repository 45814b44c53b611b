-- ===== src/SpiFrame.antt =====
-- The frames between the radio and the decoder: firmware/radio/src/spi_protocol.h. The CRC is the
-- one written there; the ROM function that may replace it computes the same checksum.
pub mod Heads
pub mod Received
mod Examples
use open_ull_receiver.Base.{
  ℕ, zero, suc, ◌+◌, ◌-◌, ◌*◌, ◌/◌, ◌%◌, ◌^◌, bit_xor, bit_and, u8, u16, ◌<<<◌, ◌>>>◌, Bool, true,
  false, ◌&&◌, List, [], ◌∷◌, ◌++◌, length, get_or, take, drop, put_at, replicate, leb, ◌==◌,
  if◌then◌else◌,
}
use open_ull_receiver.AirSession.{put16, put32}

abbrev pub frame_bytes : ℕ
frame_bytes = 512

abbrev pub payload_at : ℕ
payload_at = 24

abbrev pub capacity : ℕ
capacity = 480

abbrev pub crc_at : ℕ
crc_at = 508

abbrev pub get16_at : ℕ → List ℕ → ℕ
get16_at i f = get_or f i 0 + get_or f (i + 1) 0 * 2 ^ 8

abbrev pub get32_at : ℕ → List ℕ → ℕ
get32_at i f =
    get_or f i 0
    + get_or f (i + 1) 0 * 2 ^ 8
    + get_or f (i + 2) 0 * 2 ^ 16
    + get_or f (i + 3) 0 * 2 ^ 24

-- `dsp_crc32`
abbrev pub dsp_crc_bits : ℕ → ℕ → ℕ
dsp_crc_bits zero crc = crc
dsp_crc_bits (suc n) crc =
    dsp_crc_bits n (bit_xor (crc >>> 1) (if bit_and crc 1 == 0 then 0 else 0xedb88320))

abbrev pub dsp_crc_bytes : ℕ → List ℕ → ℕ
dsp_crc_bytes crc [] = crc
dsp_crc_bytes crc (x ∷ xs) = dsp_crc_bytes (dsp_crc_bits 8 (bit_xor crc x)) xs

pub dsp_crc32 : List ℕ → ℕ
dsp_crc32 bytes = bit_xor (dsp_crc_bytes 0xffffffff bytes) 0xffffffff

-- The head of a frame.
pub record Head : Type 0 where
  pub magic : ℕ
  pub op : ℕ
  pub session : ℕ
  pub seq : ℕ
  pub radio_frame : ℕ
  pub size : ℕ
  pub status : ℕ

pub dsp_begin : Head → List ℕ
dsp_begin h = put_at 22 (put16 h.status) (
    put_at 20 (put16 h.size) (
      put_at 16 (put32 h.radio_frame) (
        put_at 12 (put32 h.seq) (
          put_at 8 (put32 h.session) (
            put_at 5 (h.op ∷ [])
              (put_at 4 (1 ∷ []) (put_at 0 (put32 h.magic) (replicate frame_bytes 0))))))))

pub dsp_seal : List ℕ → List ℕ
dsp_seal f = put_at crc_at (put32 (dsp_crc32 (take crc_at f))) f

pub dsp_valid : List ℕ → ℕ → Bool
dsp_valid f magic =
    get32_at 0 f == magic
    && get_or f 4 0 == 1
    && leb (get16_at 20 f) capacity
    && get32_at crc_at f == dsp_crc32 (take crc_at f)

-- The frame of a request: its head, the payload and the seal, as in `request` of
-- firmware/radio/src/mic_stream.c.
pub dsp_frame : Head → List ℕ → List ℕ
dsp_frame h payload = dsp_seal (put_at payload_at payload (dsp_begin h))
