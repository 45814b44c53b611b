-- ===== src/CodecWire.antt =====
-- The frames between the radio and the codec board: firmware/radio/src/codec_wire.h, of which
-- firmware/codec/src/codec_wire.h is the copy for the other side. The checksum
-- `esp_rom_crc32_le(0, ...)` of the ROM is the parameter `crc`.
pub mod Heads
use open_ull_receiver.Base.{
  ℕ, ◌+◌, ◌<◌, ◌^◌, bit_and, Bool, not, ◌&&◌, List, [], ◌∷◌, length, get_or, take, put_at,
  replicate, ◌==◌, All, IsByte,
}
use open_ull_receiver.AirSession.{put32}
use open_ull_receiver.SpiFrame.{get32_at}

abbrev pub cw_bytes : ℕ
cw_bytes = 1280

abbrev pub cw_crc : ℕ
cw_crc = 1276

-- The offsets of the samples, and of the encoded audio, in a request and in a response.
abbrev pub cw_play_in : ℕ
cw_play_in = 32

abbrev pub cw_mic_in : ℕ
cw_mic_in = 992

abbrev pub cw_play_out : ℕ
cw_play_out = 32

abbrev pub cw_mic_out : ℕ
cw_mic_out = 224

-- The flags, and the bits of the status.
abbrev pub cw_play : ℕ
cw_play = 1

abbrev pub cw_mic : ℕ
cw_mic = 2

abbrev pub cw_plc : ℕ
cw_plc = 4

abbrev pub cw_reset : ℕ
cw_reset = 8

abbrev pub cw_ok : ℕ
cw_ok = 0

abbrev pub cw_bad_wire : ℕ
cw_bad_wire = 1

abbrev pub cw_encode_error : ℕ
cw_encode_error = 2

abbrev pub cw_decode_error : ℕ
cw_decode_error = 4

abbrev pub cw_request : ℕ
cw_request = 0x31513244

abbrev pub cw_response : ℕ
cw_response = 0x31523244

-- `flags & mask`, as a condition.
abbrev pub any_flag : ℕ → ℕ → Bool
any_flag flags mask = not (bit_and flags mask == 0)

-- The numbers that `cw_begin` puts into the head.
pub record WireHead : Type 0 where
  pub magic : ℕ
  pub flags : ℕ
  pub status : ℕ
  pub session : ℕ
  pub seq : ℕ
  pub radio_frame : ℕ

unfoldable pub cw_begin : WireHead → List ℕ
cw_begin h = put_at 16 (put32 h.radio_frame) (
    put_at 12 (put32 h.seq) (
      put_at 8 (put32 h.session) (
        put_at 6 (h.status ∷ []) (
          put_at 5 (h.flags ∷ [])
            (put_at 4 (2 ∷ []) (put_at 0 (put32 h.magic) (replicate cw_bytes 0)))))))

module _ (crc : List ℕ → ℕ) where
  unfoldable pub cw_seal : List ℕ → List ℕ
  cw_seal f = put_at cw_crc (put32 (crc (take cw_crc f))) f

  unfoldable pub cw_valid : List ℕ → ℕ → Bool
  cw_valid f magic =
      get32_at 0 f == magic
      && get_or f 4 0 == 2
      && get_or f 7 0 == 0
      && bit_and (get_or f 5 0) 0xf0 == 0
      && get32_at cw_crc f == crc (take cw_crc f)
