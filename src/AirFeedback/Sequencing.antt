-- ===== src/AirFeedback/Sequencing.antt =====
-- The sequence numbers that firmware/radio/src/air_feedback.c sends, frame by frame.
use open_ull_receiver.Base.{
  ℕ, ◌+◌, ◌-◌, ◌%◌, ◌^◌, ◌<◌, ◌≤◌, ◌≡◌, ◌⊎◌, ◌==◌, ◌&&◌, if◌then◌else◌, Bool, Bool-cases, inl, inr,
  ◌∙◌, ap, true, false, arith, u32,
}
use open_ull_receiver.Base.Bits.{bit_and_ones}
use open_ull_receiver.AirFeedback.{Channel, note_channel, sequence_of, expiry_age}

-- The numbers of one channel on the circle of 16.
expiry_age_lem :
    (frame start : ℕ) → frame < 2 ^ 32 → start < 2 ^ 32 → expiry_age frame start ≡ frame - start - 1
unfolding expiry_age
expiry_age_lem frame start p q = ground arith

-- The records that have passed `1 + k` frames after a reply's frame: one for each frame, save that the record
-- of the session's first frame, `start`, has the next frame too. If the reply in `start` acknowledged that
-- record, the one after it takes the next frame instead, and is sent once more in the frame behind that.
abbrev pub passed : ℕ → ℕ → Bool → ℕ → ℕ
passed frame start acknowledged k =
    if start == frame then (if acknowledged && k == 0 then 1 else k) else 1 + k

-- A reply after the session's first frame.
after_first :
    (ch : Channel) (frame start sequence k : ℕ)
    → ch.valid ≡ true
    → ch.after_tx ≡ false
    → ch.frame ≡ frame
    → start < frame
    → frame + 1 + k < 2 ^ 32
    → sequence < 16
    → ch.expected_tx ≡ sequence ⊎ ch.expected_tx ≡ (sequence + 1) % 16
    → (sequence_of ch frame start ≡ (ch.expected_tx, ch.next_ack))
      × ((sequence_of ((note_channel frame true sequence ch).0) (frame + 1 + k) start).0
          ≡ (sequence + 1 + k) % 16)
unfolding sequence_of note_channel
after_first ch frame start sequence k v a f s w q e =
    let now = expiry_age_lem frame start (omega arith) (omega arith) in
    let later = expiry_age_lem (frame + 1 + k) start w (omega arith) in
    let here = expiry_age_lem ch.frame start (omega arith) (omega arith) in
    ground (
      arith,
      now,
      later,
      here,
      bit_and_ones 4 (sequence + 1),
      bit_and_ones 4 (u32 (ch.expected_tx + 0)),
      bit_and_ones 4 (u32 (ch.expected_tx + k)),
      bit_and_ones 4 (u32 (ch.expected_tx + (1 + k))),
    )

-- A reply in it.
module _ (ch : Channel) (frame sequence k : ℕ) (v : ch.valid ≡ true) (a : ch.after_tx ≡ false)
    (f : ch.frame ≡ frame) (w : frame + 1 + k < 2 ^ 32) (q : sequence < 16) where
  first_now : ch.expected_tx < 16 → sequence_of ch frame frame ≡ (ch.expected_tx, ch.next_ack)
  unfolding sequence_of
  first_now e =
      let now = expiry_age_lem frame frame (omega arith) (omega arith) in
      let here = expiry_age_lem ch.frame frame (omega arith) (omega arith) in
      ground (arith, now, here, bit_and_ones 4 (u32 (ch.expected_tx + 0)))

  first_repeated :
      ch.expected_tx ≡ sequence
      → (sequence_of ((note_channel frame true sequence ch).0) (frame + 1 + k) frame).0
        ≡ (sequence + k) % 16
  unfolding sequence_of note_channel
  first_repeated e =
      let later = expiry_age_lem (frame + 1 + k) frame w (omega arith) in
      let here = expiry_age_lem ch.frame frame (omega arith) (omega arith) in
      ground (
        arith,
        later,
        here,
        bit_and_ones 4 (sequence + 1),
        bit_and_ones 4 (u32 (ch.expected_tx + k)),
      )

  first_acknowledged :
      ch.expected_tx ≡ (sequence + 1) % 16
      → (sequence_of ((note_channel frame true sequence ch).0) (frame + 1 + k) frame).0
        ≡ (sequence + (if k == 0 then 1 else k)) % 16
  unfolding sequence_of note_channel
  first_acknowledged e =
      let later = expiry_age_lem (frame + 1 + k) frame w (omega arith) in
      let here = expiry_age_lem ch.frame frame (omega arith) (omega arith) in
      ground (
        arith,
        later,
        here,
        bit_and_ones 4 (sequence + 1),
        bit_and_ones 4 (u32 (ch.expected_tx + 0)),
        bit_and_ones 4 (u32 (ch.expected_tx + (k - 1))),
      )

-- For a channel with a reply of this frame that no sending has followed, in the session's first frame or later,
-- and with a reply that expects the sequence number sent in this frame or the next one: in this frame the
-- sender repeats what the headset expects, and acknowledges what it sent. From the next frame on, as long as
-- the frames stay below 2 ^ 32, it counts up from the sequence number that it sent in this frame by the
-- records that have passed: after the session's first frame by one each frame, whether the reply had
-- acknowledged the record or asked for it again, so that an acknowledgement is not counted twice and an
-- expired record is not sent again; in the session's first frame by one less, except where an acknowledged
-- record is followed at once by the next.
pub sequence_of-note_channel :
    (ch : Channel) (frame start sequence k : ℕ)
    → ch.valid ≡ true
    → ch.after_tx ≡ false
    → ch.frame ≡ frame
    → start ≤ frame
    → frame + 1 + k < 2 ^ 32
    → sequence < 16
    → ch.expected_tx ≡ sequence ⊎ ch.expected_tx ≡ (sequence + 1) % 16
    → (sequence_of ch frame start ≡ (ch.expected_tx, ch.next_ack))
      × ((sequence_of ((note_channel frame true sequence ch).0) (frame + 1 + k) start).0
          ≡ (sequence + passed frame start (ch.expected_tx == (sequence + 1) % 16) k) % 16)
sequence_of-note_channel ch frame start sequence k v a f s w q e =
    elim (Bool-cases (start == frame)) [
      | inr after ↦
          let (now, later) = after_first ch frame start sequence k v a f (ground arith) w q e in
          (now, rw after (later ∙ ap (λ (n : ℕ). n % 16) (omega arith)))
      | inl same ↦
          let here : start ≡ frame = ground arith in
          let now = first_now ch frame sequence k v a f w q (ground arith) in
          rw (same, here)
            (
              now,
              elim (Bool-cases (ch.expected_tx == (sequence + 1) % 16)) [
                | inl acked ↦
                    rw acked (first_acknowledged ch frame sequence k v a f w q (ground arith))
                | inr unacked ↦
                    rw unacked (first_repeated ch frame sequence k v a f w q (ground arith))
              ],
            )
    ]
