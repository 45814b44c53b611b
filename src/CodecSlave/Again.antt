-- ===== src/CodecSlave/Again.antt =====
-- That `process` of firmware/codec/src/main.c answers a request again without working on it again.
use open_ull_receiver.Base.{ℕ, ◌≡◌, refl, true, false, List, arith, inc32, inl, inr, Bool-cases}
use open_ull_receiver.CodecSlave.{
  Codecs, Slave, slave_process, process_new, answer_play, answer_mic, encode_job, decode_job,
  decode_reset_job, crc_ok, header_ok, is_repeated,
}

module _ {E D : Type 0} (codecs : Codecs E D) (crc : List ℕ → ℕ) where
  -- An answered request is the last one; asking it again runs neither codec.
  repeat_lem :
      (t : Slave E D) (rx : List ℕ) (bits : ℕ)
      → crc_ok crc rx ≡ true
      → header_ok rx bits ≡ true
      → is_repeated t rx ≡ true
      → t.tx ≡ t.cached
      → t.last_bits ≡ bits
      → slave_process codecs crc t rx bits ≡ record t { duplicates = inc32 t.duplicates }
  unfolding slave_process
  repeat_lem t rx bits c h r e b = ground arith

  jobs-last_bits :
      (s : Slave E D) (rx : List ℕ)
      → (answer_mic codecs (answer_play codecs s rx) rx).slave.last_bits ≡ s.last_bits
  unfolding answer_mic answer_play encode_job decode_job decode_reset_job
  jobs-last_bits s rx = ground arith

  -- A sound request that is not the last one.
  pub slave_process-process_new :
      (s : Slave E D) (rx : List ℕ) (bits : ℕ)
      → crc_ok crc rx ≡ true
      → header_ok rx bits ≡ true
      → is_repeated s rx ≡ false
      → slave_process codecs crc s rx bits
        ≡ process_new codecs crc (record s { last_bits = bits }) rx
  unfolding slave_process
  slave_process-process_new s rx bits c h r = ground arith

  -- What it leaves behind.
  new_settled :
      (s : Slave E D) (rx : List ℕ)
      → let t = process_new codecs crc s rx in
        (is_repeated t rx ≡ true) × (t.tx ≡ t.cached) × (t.last_bits ≡ s.last_bits)
  unfolding process_new
  new_settled s rx = (ground arith, refl, jobs-last_bits s rx)

  repeated_settled :
      (s : Slave E D) (rx : List ℕ) (bits : ℕ)
      → crc_ok crc rx ≡ true
      → header_ok rx bits ≡ true
      → is_repeated s rx ≡ true
      → let t = slave_process codecs crc s rx bits in
        (is_repeated t rx ≡ true) × (t.tx ≡ t.cached) × (t.last_bits ≡ bits)
  unfolding slave_process
  repeated_settled s rx bits c h r = ground arith

  settled :
      (s : Slave E D) (rx : List ℕ) (bits : ℕ)
      → crc_ok crc rx ≡ true
      → header_ok rx bits ≡ true
      → let t = slave_process codecs crc s rx bits in
        (is_repeated t rx ≡ true) × (t.tx ≡ t.cached) × (t.last_bits ≡ bits)
  settled s rx bits c h = elim (Bool-cases (is_repeated s rx)) [
    | inl again ↦ repeated_settled s rx bits c h again
    | inr fresh ↦
        rw (slave_process-process_new s rx bits c h fresh)
          (new_settled (record s { last_bits = bits }) rx)
  ]

  -- A request that is sound in checksum and head, sent again, is answered with the very same frame:
  -- nothing but the count of duplicates changes, so that neither the encoder nor the decoder runs
  -- twice on it.
  pub process_again :
      (s : Slave E D) (rx : List ℕ) (bits : ℕ)
      → crc_ok crc rx ≡ true
      → header_ok rx bits ≡ true
      → let t = slave_process codecs crc s rx bits in
        slave_process codecs crc t rx bits ≡ record t { duplicates = inc32 t.duplicates }
  process_again s rx bits c h =
      let (again, same, seen) = settled s rx bits c h in
      repeat_lem (slave_process codecs crc s rx bits) rx bits c h again same seen
