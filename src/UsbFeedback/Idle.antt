-- ===== src/UsbFeedback/Idle.antt =====
-- What firmware/radio/components/ull_usb/usb_feedback.c does when nothing is consumed.
use open_ull_receiver.Base.{
  ℕ, ◌<◌, dec_le, ◌⊎◌, inl, inr, ◌+◌, ◌*◌, ◌≤◌, ◌≡◌, false, arith, List, [], ◌∷◌, length,
}
use open_ull_receiver.UsbFeedback.{Rate, nominal_q16, target_frames, feedback_step, note_consumed}

-- Steps at which the encoder has consumed nothing more, with the fill of the ring at each.
pub idle_steps : List ℕ → Rate → Rate
idle_steps [] s = s
idle_steps (queued ∷ rest) s = idle_steps rest (feedback_step s queued s.consumed)

-- One step leaves the settled state of an idle stream as it is.
settled_step :
    (s : Rate) (queued : ℕ)
    → 100 ≤ s.idle_packets
    → let t = feedback_step s queued s.consumed in
      (100 ≤ t.idle_packets)
      × (t.active ≡ false)
      × (t.value_q16 ≡ nominal_q16)
      × (t.average_q8 ≡ target_frames * 256)
unfolding feedback_step note_consumed
settled_step s queued h = (ground arith, ground arith, ground arith, ground arith)

idle_step :
    (s : Rate) (queued : ℕ)
    → s.idle_packets < 100
    → let t = feedback_step s queued s.consumed in
      (t.idle_packets ≡ s.idle_packets + 1)
      × (99 ≤ s.idle_packets
          → (t.active ≡ false) × (t.value_q16 ≡ nominal_q16) × (t.average_q8 ≡ target_frames * 256))
unfolding feedback_step note_consumed
idle_step s queued h = (ground arith, λ k. (ground arith, ground arith, ground arith))

-- The state of a stream that has stopped.
abbrev IsSettled : Rate → Type 0
IsSettled t =
    (100 ≤ t.idle_packets)
    × (t.active ≡ false)
    × (t.value_q16 ≡ nominal_q16)
    × (t.average_q8 ≡ target_frames * 256)

stays : (fills : List ℕ) (s : Rate) → IsSettled s → IsSettled (idle_steps fills s)
unfolding idle_steps
stays [] s h = h
stays (queued ∷ rest) s h =
    stays rest (feedback_step s queued s.consumed) (settled_step s queued (h.0))

-- By then the state is that of a stream that has stopped.
settles :
    (fills : List ℕ) (s : Rate)
    → 100 ≤ length fills + s.idle_packets
    → IsSettled s ⊎ s.idle_packets < 100
    → IsSettled (idle_steps fills s)
unfolding idle_steps
settles [] s h (inl e) = e
settles [] s h (inr e) = absurd (omega arith)
settles (queued ∷ rest) s h (inl e) = stays (queued ∷ rest) s e
settles (queued ∷ rest) s h (inr running) =
    let t = feedback_step s queued s.consumed in
    let (count, last) = idle_step s queued running in
    settles rest t (omega (arith, count)) (elim (dec_le 99 s.idle_packets) [
      | yes now ↦ inl (omega (arith, count), (last now).0, (last now).1, (last now).2)
      | no later ↦ inr (omega (arith, count))
    ])

-- The same from any state: the first step of a stopped stream settles it.
settles_all : (fills : List ℕ) (s : Rate) → 100 ≤ length fills → IsSettled (idle_steps fills s)
unfolding idle_steps
settles_all [] s h = absurd (omega arith)
settles_all (queued ∷ rest) s h = elim (dec_le 100 s.idle_packets) [
  | yes stopped ↦ stays rest (feedback_step s queued s.consumed) (settled_step s queued stopped)
  | no running ↦ settles (queued ∷ rest) s (omega arith) (inr (omega arith))
]

-- After 100 packets in which nothing was consumed, and after any number more, the stream counts as
-- stopped, the rate is exactly the nominal one and the average is the target, whatever came before.
pub idle_steps_settle :
    (s : Rate) (fills : List ℕ)
    → 100 ≤ length fills
    → let t = idle_steps fills s in
      (t.active ≡ false) × (t.value_q16 ≡ nominal_q16) × (t.average_q8 ≡ target_frames * 256)
idle_steps_settle s fills h = let (n, a, v, q) = settles_all fills s h in (a, v, q)
