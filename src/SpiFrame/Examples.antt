-- ===== src/SpiFrame/Examples.antt =====
-- Runs of the model of firmware/radio/src/spi_protocol.h.
use open_ull_receiver.Base.{
  ℕ, ◌≡◌, refl, true, false, List, [], ◌∷◌, length, take, drop, put_at, arith, All, IsByte,
}
use open_ull_receiver.AirSession.{put16, put32}
use open_ull_receiver.SpiFrame.{Head, dsp_begin, dsp_seal, dsp_valid, dsp_frame, dsp_crc32}
use open_ull_receiver.SpiFrame.Heads.{IsHead, HasHead}
use open_ull_receiver.SpiFrame.Received.{dsp_valid-dsp_frame}

-- A request to decode.
abbrev head : Head
head = record {
  magic = 0x31515044;
  op = 1;
  session = 0xdeadbeef;
  seq = 7;
  radio_frame = 123456;
  size = 3;
  status = 0;
}

head-IsHead : IsHead head
head-IsHead = record {
  magic = omega arith;
  op = omega arith;
  session = omega arith;
  seq = omega arith;
  radio_frame = omega arith;
  size = omega arith;
  status = omega arith;
}

abbrev payload : List ℕ
payload = 1 ∷ 2 ∷ 255 ∷ []

payload-IsByte : All IsByte payload
payload-IsByte = (omega arith, (omega arith, (omega arith, tt)))

dsp_valid-dsp_frame_example :
    (length (dsp_frame head payload) ≡ 512)
    × (dsp_valid (dsp_frame head payload) head.magic ≡ true)
    × HasHead head (dsp_frame head payload)
    × (take (length payload) (drop 24 (dsp_frame head payload)) ≡ payload)
dsp_valid-dsp_frame_example =
    dsp_valid-dsp_frame head head-IsHead payload payload-IsByte (omega arith)

-- A damaged byte of the payload is found.
damaged_refused : dsp_valid (put_at 25 (3 ∷ []) (dsp_frame head payload)) head.magic ≡ false
unfolding dsp_valid dsp_frame dsp_seal dsp_begin dsp_crc32 put16 put32
damaged_refused = refl
