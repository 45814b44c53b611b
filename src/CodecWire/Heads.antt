-- ===== src/CodecWire/Heads.antt =====
-- What is read from a frame of firmware/radio/src/codec_wire.h, and that the other side takes it.
use open_ull_receiver.Base.{
  ℕ, ◌+◌, ◌^◌, ◌<◌, ◌≡◌, refl, sym, ap, ◌∙◌, true, List, length, get_or, take, put_at, arith,
  bit_and, ◌==◌, ◌&&◌, take-put_at, take_below,
}
use open_ull_receiver.AirSession.{put16, put32}
use open_ull_receiver.SpiFrame.{get32_at}
use open_ull_receiver.SpiFrame.Heads.{get_or-take}
use open_ull_receiver.SpiFrame.Received.{get32_at-put_at}
use open_ull_receiver.CodecWire.{WireHead, cw_begin, cw_seal, cw_valid, cw_crc}

-- A head whose numbers fit their fields.
pub record IsHead (h : WireHead) : Type 0 where
  pub magic : h.magic < 2 ^ 32
  pub flags : bit_and h.flags 0xf0 ≡ 0
  pub session : h.session < 2 ^ 32
  pub seq : h.seq < 2 ^ 32
  pub radio_frame : h.radio_frame < 2 ^ 32

-- The head as it is read from a frame.
pub record HasHead (h : WireHead) (f : List ℕ) : Type 0 where
  pub magic : get32_at 0 f ≡ h.magic
  pub version : get_or f 4 0 ≡ 2
  pub flags : get_or f 5 0 ≡ h.flags
  pub status : get_or f 6 0 ≡ h.status
  pub reserved : get_or f 7 0 ≡ 0
  pub session : get32_at 8 f ≡ h.session
  pub seq : get32_at 12 f ≡ h.seq
  pub radio_frame : get32_at 16 f ≡ h.radio_frame

pub length-cw_begin : (h : WireHead) → length (cw_begin h) ≡ 1280
unfolding cw_begin put16 put32
length-cw_begin h = refl

pub cw_begin-HasHead : (h : WireHead) → IsHead h → HasHead h (cw_begin h)
unfolding cw_begin put16 put32
cw_begin-HasHead h i = record {
  magic = omega (arith, i.magic);
  version = refl;
  flags = refl;
  status = refl;
  reserved = refl;
  session = omega (arith, i.session);
  seq = omega (arith, i.seq);
  radio_frame = omega (arith, i.radio_frame);
}

-- The head of a frame is that of any other with the same first bytes.
pub HasHead-same : (h : WireHead) (f g : List ℕ) → take 32 f ≡ take 32 g → HasHead h f → HasHead h g
HasHead-same h f g e a =
    let byte : (k : ℕ) → k < 32 → get_or g k 0 ≡ get_or f k 0 = λ k lt.
      sym (get_or-take 32 k g lt)
      ∙ ap (λ (l : List ℕ). get_or l k 0) (sym e)
      ∙ get_or-take 32 k f lt in
    let four : (k : ℕ) → k + 3 < 32 → get32_at k g ≡ get32_at k f = λ k lt. omega (
      arith,
      byte k (omega arith),
      byte (k + 1) (omega arith),
      byte (k + 2) (omega arith),
      byte (k + 3) (omega arith),
    ) in
    record {
      magic = four 0 (omega arith) ∙ a.magic;
      version = byte 4 (omega arith) ∙ a.version;
      flags = byte 5 (omega arith) ∙ a.flags;
      status = byte 6 (omega arith) ∙ a.status;
      reserved = byte 7 (omega arith) ∙ a.reserved;
      session = four 8 (omega arith) ∙ a.session;
      seq = four 12 (omega arith) ∙ a.seq;
      radio_frame = four 16 (omega arith) ∙ a.radio_frame;
    }

-- The five tests of the check.
passes :
    {x m v z f c k : ℕ}
    → x ≡ m
    → v ≡ 2
    → z ≡ 0
    → f ≡ 0
    → c ≡ k
    → (x == m && v == 2 && z == 0 && f == 0 && c == k) ≡ true
passes p q r s t = ground arith

-- A frame that begins with a head, once it is sealed with a checksum of 32 bits.
pub cw_valid-cw_seal :
    (crc : List ℕ → ℕ)
    → ((l : List ℕ) → crc l < 2 ^ 32)
    → (h : WireHead) (f : List ℕ) → IsHead h
    → length f ≡ 1280
    → HasHead h f
    → HasHead h (cw_seal crc f) × (cw_valid crc (cw_seal crc f) h.magic ≡ true)
unfolding cw_seal cw_valid
cw_valid-cw_seal crc small h f i len a =
    let c = crc (take cw_crc f) in
    let g = put_at cw_crc (put32 c) f in
    let b = HasHead-same h f g (sym (take_below 32 cw_crc (put32 c) f (omega arith))) a in
    (
      b,
      passes b.magic b.version b.reserved (ap (λ (x : ℕ). bit_and x 0xf0) b.flags ∙ i.flags) (
          get32_at-put_at cw_crc c f (omega (arith, len)) (small (take cw_crc f))
          ∙ ap crc (sym (take-put_at cw_crc (put32 c) f))),
    )
