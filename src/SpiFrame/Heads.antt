-- ===== src/SpiFrame/Heads.antt =====
-- The head and the checksum of a frame of firmware/radio/src/spi_protocol.h.
use open_ull_receiver.Base.{
  ℕ, zero, suc, ◌+◌, ◌^◌, ◌≤◌, ◌<◌, ◌≡◌, refl, sym, ap, ◌∙◌, List, [], ◌∷◌, length, get_or, take,
  drop, replicate, arith, bit_xor, All, All-put_at, All-replicate, IsByte,
}
use open_ull_receiver.AirSession.{put16, put32}
use open_ull_receiver.AirFrame.{crc32_bit, crc32_bits, crc32_bytes, crc32_continue, not32}
use open_ull_receiver.AirFrame.Crc.{crc32_continue-lt}
use open_ull_receiver.SpiFrame.{
  dsp_crc_bits, dsp_crc_bytes, Head, dsp_begin, dsp_crc32, get16_at, get32_at, capacity,
}

-- A head whose numbers fit their fields.
pub record IsHead (h : Head) : Type 0 where
  pub magic : h.magic < 2 ^ 32
  pub op : h.op < 2 ^ 8
  pub session : h.session < 2 ^ 32
  pub seq : h.seq < 2 ^ 32
  pub radio_frame : h.radio_frame < 2 ^ 32
  pub size : h.size ≤ capacity
  pub status : h.status < 2 ^ 16

-- A byte before `n` is that of the first `n`.
pub get_or-take : (n i : ℕ) (xs : List ℕ) → i < n → get_or (take n xs) i 0 ≡ get_or xs i 0
get_or-take zero i xs h = absurd (omega arith)
get_or-take (suc n) i [] h = refl
get_or-take (suc n) zero (x ∷ xs) h = refl
get_or-take (suc n) (suc i) (x ∷ xs) h = get_or-take n i xs (omega arith)

pub get_or-drop : (n i : ℕ) (xs : List ℕ) → get_or (drop n xs) i 0 ≡ get_or xs (n + i) 0
get_or-drop zero i xs = ap (λ (k : ℕ). get_or xs k 0) (omega arith)
get_or-drop (suc n) i [] = refl
get_or-drop (suc n) i (x ∷ xs) = get_or-drop n i xs ∙ step
  where
    same : suc (n + i) ≡ suc n + i
    same = omega arith

    step : get_or (x ∷ xs) (suc (n + i)) 0 ≡ get_or (x ∷ xs) (suc n + i) 0
    step = ap (λ (k : ℕ). get_or (x ∷ xs) k 0) same

-- A step, and a byte, of the two checksums are the same.
dsp_crc_bits_same : (n crc : ℕ) → dsp_crc_bits n crc ≡ crc32_bits n crc
dsp_crc_bits_same zero crc = refl
dsp_crc_bits_same (suc n) crc = dsp_crc_bits_same n (crc32_bit crc)

dsp_crc_bytes_same : (crc : ℕ) (xs : List ℕ) → dsp_crc_bytes crc xs ≡ crc32_bytes crc xs
dsp_crc_bytes_same crc [] = refl
dsp_crc_bytes_same crc (x ∷ xs) =
    ap (λ (c : ℕ). dsp_crc_bytes c xs) (dsp_crc_bits_same 8 (bit_xor crc x))
    ∙ dsp_crc_bytes_same (crc32_bits 8 (bit_xor crc x)) xs

-- The checksum of these frames is the one of the Air records, started from 0.
pub dsp_crc32-crc32_continue : (xs : List ℕ) → dsp_crc32 xs ≡ crc32_continue 0 xs
unfolding dsp_crc32 crc32_continue
dsp_crc32-crc32_continue xs = ap not32 (dsp_crc_bytes_same 0xffffffff xs)

pub dsp_crc32-lt : (xs : List ℕ) → All IsByte xs → dsp_crc32 xs < 2 ^ 32
dsp_crc32-lt xs a = rw (dsp_crc32-crc32_continue xs) (crc32_continue-lt 0 xs a (omega arith))

put16-IsByte : (v : ℕ) → All IsByte (put16 v)
unfolding put16
put16-IsByte v = (omega arith, (omega arith, tt))

put32-IsByte : (v : ℕ) → All IsByte (put32 v)
unfolding put32 put16
put32-IsByte v = (omega arith, (omega arith, (omega arith, (omega arith, tt))))

module _ (h : Head) (i : IsHead h) where
  pub length-dsp_begin : length (dsp_begin h) ≡ 512
  unfolding dsp_begin put16 put32
  length-dsp_begin = refl

  pub dsp_begin-IsByte : All IsByte (dsp_begin h)
  unfolding dsp_begin
  dsp_begin-IsByte =
      let put = All-put_at IsByte in
      let zeros = All-replicate IsByte 512 0 (omega arith) in
      let a = put 0 (put32 h.magic) (replicate 512 0) (put32-IsByte h.magic) zeros in
      let b = put 4 (1 ∷ []) _ (omega arith, tt) a in
      let c = put 5 (h.op ∷ []) _ (omega (arith, i.op), tt) b in
      let d = put 8 (put32 h.session) _ (put32-IsByte h.session) c in
      let e = put 12 (put32 h.seq) _ (put32-IsByte h.seq) d in
      let f = put 16 (put32 h.radio_frame) _ (put32-IsByte h.radio_frame) e in
      let g = put 20 (put16 h.size) _ (put16-IsByte h.size) f in
      put 22 (put16 h.status) _ (put16-IsByte h.status) g

-- The head as it is read from a frame.
pub record HasHead (h : Head) (f : List ℕ) : Type 0 where
  pub magic : get32_at 0 f ≡ h.magic
  pub version : get_or f 4 0 ≡ 1
  pub op : get_or f 5 0 ≡ h.op
  pub session : get32_at 8 f ≡ h.session
  pub seq : get32_at 12 f ≡ h.seq
  pub radio_frame : get32_at 16 f ≡ h.radio_frame
  pub size : get16_at 20 f ≡ h.size
  pub status : get16_at 22 f ≡ h.status

pub dsp_begin-HasHead : (h : Head) → IsHead h → HasHead h (dsp_begin h)
unfolding dsp_begin put16 put32
dsp_begin-HasHead h i = record {
  magic = omega (arith, i.magic);
  version = refl;
  op = refl;
  session = omega (arith, i.session);
  seq = omega (arith, i.seq);
  radio_frame = omega (arith, i.radio_frame);
  size = omega (arith, i.size);
  status = omega (arith, i.status);
}

-- The head of a frame is that of any other with the same first bytes.
pub HasHead-same : (h : Head) (f g : List ℕ) → take 24 f ≡ take 24 g → HasHead h f → HasHead h g
HasHead-same h f g e a =
    let byte : (k : ℕ) → k < 24 → get_or g k 0 ≡ get_or f k 0 = λ k lt.
      sym (get_or-take 24 k g lt)
      ∙ ap (λ (l : List ℕ). get_or l k 0) (sym e)
      ∙ get_or-take 24 k f lt in
    let two : (k : ℕ) → k + 1 < 24 → get16_at k g ≡ get16_at k f =
      λ k lt. omega (arith, byte k (omega arith), byte (k + 1) (omega arith)) in
    let four : (k : ℕ) → k + 3 < 24 → get32_at k g ≡ get32_at k f = λ k lt. omega (
      arith,
      byte k (omega arith),
      byte (k + 1) (omega arith),
      byte (k + 2) (omega arith),
      byte (k + 3) (omega arith),
    ) in
    record {
      magic = four 0 (omega arith) ∙ a.magic;
      version = byte 4 (omega arith) ∙ a.version;
      op = byte 5 (omega arith) ∙ a.op;
      session = four 8 (omega arith) ∙ a.session;
      seq = four 12 (omega arith) ∙ a.seq;
      radio_frame = four 16 (omega arith) ∙ a.radio_frame;
      size = two 20 (omega arith) ∙ a.size;
      status = two 22 (omega arith) ∙ a.status;
    }
