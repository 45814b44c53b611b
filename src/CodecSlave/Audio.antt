-- ===== src/CodecSlave/Audio.antt =====
-- Which frames of `process` in firmware/codec/src/main.c say that they hold encoded audio.
use open_ull_receiver.Base.{
  ℕ, ◌<◌, ◌≡◌, ◌⊎◌, inl, inr, refl, sym, ap, ◌∙◌, true, false, not, ◌&&◌, Option, none, some, List,
  get_or, take, arith, branch,
}
use open_ull_receiver.AirSession.{put16, put32}
use open_ull_receiver.SpiFrame.{get32_at}
use open_ull_receiver.UsbPcm.View.{get_or-put_at}
use open_ull_receiver.CodecWire.{
  cw_begin, cw_seal, cw_crc, cw_play, cw_play_out, cw_mic_out, any_flag,
}
use open_ull_receiver.CodecSlave.{
  Codecs, Slave, slave_process, process_new, answer_play, answer_mic, answer_frame, put_some,
  crc_ok, header_ok, is_repeated,
}
use open_ull_receiver.CodecSlave.Replies.{play_fair, mic_fair, fair-asked, reply_head}

put_some_read :
    (i : ℕ) (o : Option (List ℕ)) (f : List ℕ) → 5 < i → get_or (put_some i o f) 5 0 ≡ get_or f 5 0
put_some_read i none f h = refl
put_some_read i (some bytes) f h = get_or-put_at i bytes f 5 (inl (omega arith))

-- The flags that are read from an answer.
answer_flags :
    (crc : List ℕ → ℕ) (flags status : ℕ) (rx : List ℕ) (play mic : Option (List ℕ))
    → get_or (answer_frame crc flags status rx play mic) 5 0 ≡ flags
unfolding answer_frame cw_seal cw_begin put32 put16
answer_flags crc flags status rx play mic =
    let f = put_some cw_play_out play (cw_begin (reply_head flags status rx)) in
    let g = put_some cw_mic_out mic f in
    get_or-put_at cw_crc (put32 (crc (take cw_crc g))) g 5 (inl (omega arith))
    ∙ put_some_read cw_mic_out mic f (omega arith)
    ∙ put_some_read cw_play_out play (cw_begin (reply_head flags status rx)) (omega arith)

quiet : any_flag 0 cw_play ≡ true → ⊥
quiet e = ground arith

module _ {E D : Type 0} (codecs : Codecs E D) (crc : List ℕ → ℕ) where
  -- What a request leaves in the slave.
  pub record Fairly (s : Slave E D) (rx : List ℕ) (t : Slave E D) : Type 0 where
    pub fair : any_flag (get_or t.tx 5 0) cw_play ≡ true → any_flag (get_or rx 5 0) cw_play ≡ true
    pub number :
        t.have_cached ≡ true
        → (t.last_seq ≡ get32_at 12 rx) ⊎ ((s.have_cached ≡ true) × (t.last_seq ≡ s.last_seq))

  new-Fairly :
      (s : Slave E D) (rx : List ℕ)
      → get_or rx 5 0 < 256
      → Fairly s rx (process_new codecs crc s rx)
  unfolding process_new
  new-Fairly s rx low =
      let p = answer_play codecs s rx in
      let a = answer_mic codecs p rx in
      let (small, first) = play_fair codecs crc s rx in
      let e = mic_fair codecs crc p rx low small first in
      record {
        fair = λ on. fair-asked (get_or rx 5 0) a.flags e (
            ap (λ (x : ℕ). any_flag x cw_play)
              (sym (answer_flags crc a.flags a.status rx a.play a.mic))
            ∙ on);
        number = λ _. inl refl;
      }

  bad_wire :
      (s : Slave E D) (rx : List ℕ) (bits crcs headers errors : ℕ)
      → Fairly s rx (record s {
        last_bits = bits;
        bad_crc = crcs;
        bad_header = headers;
        tx = answer_frame crc 0 1 rx none none;
        errors = errors;
      })
  bad_wire s rx bits crcs headers errors = record {
    fair = λ on.
        absurd (
          quiet
            (sym (ap (λ (x : ℕ). any_flag x cw_play) (answer_flags crc 0 1 rx none none)) ∙ on));
    number = λ have. inr (have, refl);
  }

  noted :
      (s : Slave E D) (rx : List ℕ) (bits crcs headers : ℕ)
      → get_or rx 5 0 < 256
      → let t = record s { last_bits = bits; bad_crc = crcs; bad_header = headers } in
        Fairly s rx (process_new codecs crc t rx)
  noted s rx bits crcs headers low =
      let h =
        new-Fairly (record s { last_bits = bits; bad_crc = crcs; bad_header = headers }) rx low in
      record { fair = h.fair; number = h.number }

  -- A request that is not the last one again is answered with encoded audio only if it asks for some.
  pub slave_process-Fairly :
      (s : Slave E D) (rx : List ℕ) (bits : ℕ)
      → get_or rx 5 0 < 256
      → is_repeated s rx ≡ false
      → Fairly s rx (slave_process codecs crc s rx bits)
  unfolding slave_process
  slave_process-Fairly s rx bits low fresh =
      let P : Slave E D → Type 0 = λ t. Fairly s rx t in
      branch P (not (crc_ok crc rx && header_ok rx bits)) (λ _. bad_wire s rx _ _ _ _)
        (λ _.
          branch P (is_repeated s rx) (λ again. absurd (ground arith)) (λ _. noted s rx _ _ _ low))
