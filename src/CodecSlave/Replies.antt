-- ===== src/CodecSlave/Replies.antt =====
-- What `process` of firmware/codec/src/main.c answers.
use open_ull_receiver.Base.{
  ℕ, zero, suc, ◌+◌, ◌^◌, ◌<◌, ◌≤◌, ◌≡◌, All, IsByte, refl, sym, ap, ◌∙◌, Bool, true, false, not,
  ◌&&◌, ◌||◌, Option, none, some, List, [], ◌∷◌, length, get_or, take, arith, bit_and, bit_or, ◌==◌,
  if◌then◌else◌, all_below, all_below_sound, length-put_at, take_below,
}
use open_ull_receiver.SpiFrame.{get32_at}
use open_ull_receiver.CodecWire.{
  cw_begin, cw_valid, cw_response, cw_play, cw_play_out, cw_mic_out, any_flag, WireHead,
}
use open_ull_receiver.CodecWire.Heads.{
  IsHead, HasHead, HasHead-same, length-cw_begin, cw_begin-HasHead, cw_valid-cw_seal,
}
use open_ull_receiver.CodecSlave.Again.{slave_process-process_new}
use open_ull_receiver.CodecSlave.{
  Codecs, Slave, Answer, slave_process, process_new, answer_play, answer_mic, answer_frame,
  put_some, crc_ok, header_ok, decode_audio, is_repeated,
}

-- The flags of an answer: none outside the mask, and the one for audio only if it was asked for.
abbrev with_flags : ℕ → ℕ → Bool → ℕ
with_flags asked flags audio =
    let f = bit_or flags (bit_and asked 8) in if audio then bit_or f (bit_and asked 6) else f

abbrev pub fair : ℕ → ℕ → Bool
fair asked flags =
    bit_and flags 0xf0 == 0 && (not (any_flag flags cw_play) || any_flag asked cw_play)

fair_cases :
    (asked flags : ℕ) (audio : Bool)
    → flags < 2
    → fair asked flags ≡ true
    → (fair asked (with_flags asked 0 true) && fair asked (with_flags asked 0 false)) ≡ true
    → (not (fair asked 1)
        || fair asked (with_flags asked 1 true) && fair asked (with_flags asked 1 false))
      ≡ true
    → fair asked (with_flags asked flags audio) ≡ true
fair_cases asked zero true k e low high = ground arith
fair_cases asked zero false k e low high = ground arith
fair_cases asked (suc zero) true k e low high = ground arith
fair_cases asked (suc zero) false k e low high = ground arith
fair_cases asked (suc (suc n)) audio k e low high = absurd (omega arith)

with_flags-fair :
    (asked flags : ℕ) (audio : Bool)
    → asked < 256
    → flags < 2
    → fair asked flags ≡ true
    → fair asked (with_flags asked flags audio) ≡ true
unfolding all_below
with_flags-fair asked flags audio h k e =
    let low =
      all_below_sound 256 (λ a. fair a (with_flags a 0 true) && fair a (with_flags a 0 false)) asked
        refl h in
    let high =
      all_below_sound 256
        (λ a. not (fair a 1) || fair a (with_flags a 1 true) && fair a (with_flags a 1 false)) asked
        refl h in
    fair_cases asked flags audio k e low high

fair-high : (asked flags : ℕ) → fair asked flags ≡ true → bit_and flags 0xf0 ≡ 0
fair-high asked flags h = ground arith

pub fair-asked :
    (asked flags : ℕ)
    → fair asked flags ≡ true
    → any_flag flags cw_play ≡ true
    → any_flag asked cw_play ≡ true
fair-asked asked flags h on = ground arith

-- The head of the answer to a request.
abbrev pub reply_head : ℕ → ℕ → List ℕ → WireHead
reply_head flags status rx = record {
  magic = cw_response;
  flags = flags;
  status = status;
  session = get32_at 8 rx;
  seq = get32_at 12 rx;
  radio_frame = get32_at 16 rx;
}

IsByte-get_or : (xs : List ℕ) (i : ℕ) → All IsByte xs → get_or xs i 0 < 256
IsByte-get_or [] i a = omega arith
IsByte-get_or (x ∷ xs) zero a = a.0
IsByte-get_or (x ∷ xs) (suc i) a = IsByte-get_or xs i a.1

get32_at-lt : (i : ℕ) (xs : List ℕ) → All IsByte xs → get32_at i xs < 2 ^ 32
get32_at-lt i xs a = omega (
  arith,
  IsByte-get_or xs i a,
  IsByte-get_or xs (i + 1) a,
  IsByte-get_or xs (i + 2) a,
  IsByte-get_or xs (i + 3) a,
)

reply-IsHead :
    (flags status : ℕ) (rx : List ℕ)
    → All IsByte rx
    → bit_and flags 0xf0 ≡ 0
    → IsHead (reply_head flags status rx)
reply-IsHead flags status rx a e = record {
  magic = omega arith;
  flags = e;
  session = get32_at-lt 8 rx a;
  seq = get32_at-lt 12 rx a;
  radio_frame = get32_at-lt 16 rx a;
}

-- What is put behind the head leaves it and the length.
length-put_some : (i : ℕ) (o : Option (List ℕ)) (f : List ℕ) → length (put_some i o f) ≡ length f
length-put_some i none f = refl
length-put_some i (some bytes) f = length-put_at i bytes f

take-put_some :
    (i : ℕ) (o : Option (List ℕ)) (f : List ℕ) → 32 ≤ i → take 32 (put_some i o f) ≡ take 32 f
take-put_some i none f h = refl
take-put_some i (some bytes) f h = take_below 32 i bytes f h

module _ {E D : Type 0} (codecs : Codecs E D) (crc : List ℕ → ℕ) where
  -- What the encoder and the decoder add to the flags.
  pub play_fair :
      (s : Slave E D) (rx : List ℕ)
      → let a = answer_play codecs s rx in (a.flags < 2) × (fair (get_or rx 5 0) a.flags ≡ true)
  unfolding answer_play
  play_fair s rx = ground arith

  pub mic_fair :
      (a : Answer E D) (rx : List ℕ)
      → get_or rx 5 0 < 256
      → a.flags < 2
      → fair (get_or rx 5 0) a.flags ≡ true
      → fair (get_or rx 5 0) (answer_mic codecs a rx).flags ≡ true
  unfolding answer_mic
  mic_fair a rx h k e =
      ground (arith, with_flags-fair (get_or rx 5 0) a.flags (decode_audio rx) h k e)

  module _ (small : (l : List ℕ) → crc l < 2 ^ 32) (rx : List ℕ) (bytes : All IsByte rx) where
    -- A frame with these flags is taken, and its head is that of the request.
    frame_read :
        (flags status : ℕ) (play mic : Option (List ℕ))
        → bit_and flags 0xf0 ≡ 0
        → let f = answer_frame crc flags status rx play mic in
          HasHead (reply_head flags status rx) f × (cw_valid crc f cw_response ≡ true)
    unfolding answer_frame
    frame_read flags status play mic e =
        let h = reply_head flags status rx in
        let i = reply-IsHead flags status rx bytes e in
        let f = put_some cw_play_out play (cw_begin h) in
        let g = put_some cw_mic_out mic f in
        cw_valid-cw_seal crc small h g i
          (length-put_some cw_mic_out mic f
            ∙ length-put_some cw_play_out play (cw_begin h)
            ∙ length-cw_begin h)
          (HasHead-same h f g (sym (take-put_some cw_mic_out mic f (omega arith))) (
            HasHead-same h (cw_begin h) f
              (sym (take-put_some cw_play_out play (cw_begin h) (omega arith)))
              (cw_begin-HasHead h i)))

    -- A sound request that is not the last one again gets a frame that passes the check of a
    -- response. It names the session, the number and the radio frame of the request, and it is
    -- said to hold encoded audio only if the request asked for that.
    pub process_replies :
        (s : Slave E D) (bits : ℕ)
        → crc_ok crc rx ≡ true
        → header_ok rx bits ≡ true
        → is_repeated s rx ≡ false
        → let f = (slave_process codecs crc s rx bits).tx in
          (cw_valid crc f cw_response ≡ true)
          × (get32_at 8 f ≡ get32_at 8 rx)
          × (get32_at 12 f ≡ get32_at 12 rx)
          × (get32_at 16 f ≡ get32_at 16 rx)
          × (any_flag (get_or f 5 0) cw_play ≡ true → any_flag (get_or rx 5 0) cw_play ≡ true)
    unfolding process_new
    process_replies s bits c h fresh =
        let t = record s { last_bits = bits } in
        let p = answer_play codecs t rx in
        let a = answer_mic codecs p rx in
        let (low, first) = play_fair t rx in
        let e = mic_fair p rx (IsByte-get_or rx 5 bytes) low first in
        let (r, v) =
          frame_read a.flags a.status a.play a.mic (fair-high (get_or rx 5 0) a.flags e) in
        rw (slave_process-process_new codecs crc s rx bits c h fresh) (
          v,
          r.session,
          r.seq,
          r.radio_frame,
          λ on.
              fair-asked (get_or rx 5 0) a.flags e
                (sym (ap (λ (x : ℕ). any_flag x cw_play) r.flags) ∙ on),
        )
