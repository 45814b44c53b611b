-- ===== src/SpiFrame/Received.antt =====
-- That the other side of firmware/radio/src/spi_protocol.h accepts a sealed frame, and what it reads.
use open_ull_receiver.Base.{
  ℕ, ◌+◌, ◌^◌, ◌≤◌, ◌<◌, ◌≡◌, sym, ap, ◌∙◌, true, List, length, get_or, take, drop, put_at, arith,
  All, All-put_at, All-take, IsByte, length-put_at, take-put_at, read-put_at, take_below, ◌==◌,
  ◌&&◌, leb, part_below,
}
use open_ull_receiver.AirSession.{put16, put32}
use open_ull_receiver.SpiFrame.{
  Head, dsp_begin, dsp_seal, dsp_valid, dsp_frame, dsp_crc32, get32_at, crc_at, payload_at,
  capacity,
}
use open_ull_receiver.SpiFrame.Heads.{
  IsHead, HasHead, get_or-take, get_or-drop, dsp_crc32-lt, HasHead-same, dsp_begin-HasHead,
  length-dsp_begin, dsp_begin-IsByte,
}

n_zero : (n : ℕ) → n ≡ n + 0
n_zero n = omega arith

-- A number of 32 bits is read back where it was put.
pub get32_at-put_at :
    (n c : ℕ) (u : List ℕ) → n + 4 ≤ length u → c < 2 ^ 32 → get32_at n (put_at n (put32 c) u) ≡ c
unfolding put32 put16
get32_at-put_at n c u h lt =
    let f = put_at n (put32 c) u in
    let r : take 4 (drop n f) ≡ put32 c = read-put_at n (put32 c) u h in
    let byte : (k : ℕ) → k < 4 → get_or f (n + k) 0 ≡ get_or (put32 c) k 0 = λ k q.
      sym (get_or-drop n k f)
      ∙ sym (get_or-take 4 k (drop n f) q)
      ∙ ap (λ (l : List ℕ). get_or l k 0) r in
    let start : get_or f n 0 ≡ get_or f (n + 0) 0 = ap (λ (k : ℕ). get_or f k 0) (n_zero n) in
    omega (
      arith,
      lt,
      start,
      byte 0 (omega arith),
      byte 1 (omega arith),
      byte 2 (omega arith),
      byte 3 (omega arith),
    )

-- A sealed array carries the checksum of all that stands before it.
dsp_seal_lem :
    (u : List ℕ)
    → length u ≡ 512
    → All IsByte u
    → get32_at crc_at (dsp_seal u) ≡ dsp_crc32 (take crc_at (dsp_seal u))
unfolding dsp_seal
dsp_seal_lem u l a =
    let c = dsp_crc32 (take crc_at u) in
    get32_at-put_at crc_at c u (omega (arith, l))
      (dsp_crc32-lt (take crc_at u) (All-take IsByte crc_at u a))
    ∙ ap dsp_crc32 (sym (take-put_at crc_at (put32 c) u))

-- The four tests of the check.
passes :
    {x m v n c k : ℕ}
    → x ≡ m
    → v ≡ 1
    → n ≤ 480
    → c ≡ k
    → (x == m && v == 1 && leb n 480 && c == k) ≡ true
passes p q r s = ground arith

module _ (h : Head) (i : IsHead h) (payload : List ℕ) (bytes : All IsByte payload)
    (room : length payload ≤ capacity) where
  -- The frame before its seal.
  abbrev unsealed : List ℕ
  unsealed = put_at payload_at payload (dsp_begin h)

  length-unsealed : length unsealed ≡ 512
  length-unsealed = length-put_at payload_at payload (dsp_begin h) ∙ length-dsp_begin h i

  length-dsp_frame : length (dsp_frame h payload) ≡ 512
  unfolding dsp_frame dsp_seal
  length-dsp_frame =
      length-put_at crc_at (put32 (dsp_crc32 (take crc_at unsealed))) unsealed ∙ length-unsealed

  head_kept : take 24 (dsp_begin h) ≡ take 24 (dsp_frame h payload)
  unfolding dsp_frame dsp_seal
  head_kept = sym (
      take_below 24 508 (put32 (dsp_crc32 (take crc_at unsealed))) unsealed (omega arith)
      ∙ take-put_at 24 payload (dsp_begin h))

  head_read : HasHead h (dsp_frame h payload)
  head_read = HasHead-same h (dsp_begin h) (dsp_frame h payload) head_kept (dsp_begin-HasHead h i)

  crc_read : get32_at crc_at (dsp_frame h payload) ≡ dsp_crc32 (take crc_at (dsp_frame h payload))
  unfolding dsp_frame
  crc_read =
      dsp_seal_lem unsealed length-unsealed
        (All-put_at IsByte payload_at payload (dsp_begin h) bytes (dsp_begin-IsByte h i))

  payload_read : take (length payload) (drop payload_at (dsp_frame h payload)) ≡ payload
  unfolding dsp_frame dsp_seal
  payload_read =
      part_below 24 (length payload) 508 (put32 (dsp_crc32 (take crc_at unsealed))) unsealed
        (omega (arith, room))
      ∙ read-put_at 24 payload (dsp_begin h) (omega (arith, room, length-dsp_begin h i))

  -- A sealed frame with a payload of up to 480 bytes has 512 bytes, passes the check of the other
  -- side under its magic number, and every number of its head and the payload are read back.
  pub dsp_valid-dsp_frame :
      (length (dsp_frame h payload) ≡ 512)
      × (dsp_valid (dsp_frame h payload) h.magic ≡ true)
      × HasHead h (dsp_frame h payload)
      × (take (length payload) (drop 24 (dsp_frame h payload)) ≡ payload)
  unfolding dsp_valid
  dsp_valid-dsp_frame = (
    length-dsp_frame,
    passes head_read.magic head_read.version (omega (arith, head_read.size, i.size)) crc_read,
    head_read,
    payload_read,
  )
