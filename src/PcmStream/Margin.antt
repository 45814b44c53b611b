-- ===== src/PcmStream/Margin.antt =====
-- That firmware/radio/src/pcm_stream.c asks for no more encoded audio than its queue has room for.
use open_ull_receiver.Base.{
  ◌&&◌, ℕ, ◌+◌, ◌≤◌, ◌≡◌, refl, sym, ap, ◌∙◌, Bool, true, false, some, List, arith, Bool-cases, inl,
  inr,
}
use open_ull_receiver.AudioSource.{init}
use open_ull_receiver.AudioSource.Contents.{init-IsValid}
use open_ull_receiver.CodecWire.{cw_valid, cw_response}
use open_ull_receiver.PcmStream.{
  Stream, Phase, booted, mic_enable, new_session, pause_for_reconnect, stream_rearm,
  resume_after_reconnect, air_microphone_frame,
}
use open_ull_receiver.PcmStream.Responses.{
  Wire, exchange, accept_response, answers_previous, encoded_frame,
}
use open_ull_receiver.PcmStream.Turns.{timed}
use open_ull_receiver.PcmStream.Beside.{Beside, exchange-Beside, timed-Beside}
use open_ull_receiver.PcmStream.Accepts.{accept_response_taken, accept_response_refused}
use open_ull_receiver.PcmStream.Cases.{Ended, begin_turn-Begun, end_turn-Ended}
use open_ull_receiver.PcmStream.Room.{HasRoom, push-HasRoom, select-HasRoom, rearm-HasRoom}
use open_ull_receiver.PcmStream.Runs.{Past, Run, previous_after}
use open_ull_receiver.PcmStream.Due.{audio, due, is_busy, Honest, Margin, less, kept, begun-Margin}

-- A response takes the place of the previous request's answer, and no more.
accepted-Margin :
    (crc : List ℕ → ℕ) (s : Stream) (rx : List ℕ) (session taken n : ℕ) (previous : List ℕ)
    → HasRoom s.source (due s.have_previous previous + n)
    → (cw_valid crc rx cw_response ≡ true
        → s.have_previous ≡ true
        → answers_previous s rx ≡ true
        → audio rx ≡ true
        → audio previous ≡ true)
    → let t = (accept_response crc s rx session taken).0 in
      HasRoom t.source n × (t.counters.queue_drops ≡ s.counters.queue_drops)
accepted-Margin crc s rx session taken n previous h honest =
    elim (Bool-cases (accept_response crc s rx session taken).1) [
      | inr refused ↦
          let a = accept_response_refused crc s rx session taken refused in
          (rw a.source (less s.source _ _ (omega arith) h), a.drops)
      | inl ok ↦
          let (valid, have, answers, a) = accept_response_taken crc s rx session taken ok in
          elim (Bool-cases (audio rx)) [
            | inr silent ↦
                let (same, drops) = a.silent silent in
                (rw same (less s.source _ _ (omega arith) h), drops)
            | inl holds ↦
                let asked : due s.have_previous previous ≡ 1 =
                  ground (arith, have, honest valid have answers holds) in
                let (same, drops) = a.pushed holds in
                let (room, good) =
                  push-HasRoom s.source (encoded_frame rx) n
                    (less s.source _ _ (omega (arith, asked)) h) in
                (rw same room, drops good)
          ]
    ]

-- The same once the answer is in, from a stream with the requests of another.
answered-Margin :
    (crc : List ℕ → ℕ) (s e : Stream) (rx : List ℕ) (session taken : ℕ) (previous : List ℕ)
    → Beside s e
    → Margin s previous
    → is_busy s.phase ≡ true
    → (cw_valid crc rx cw_response ≡ true
        → s.have_previous ≡ true
        → answers_previous s rx ≡ true
        → audio rx ≡ true
        → audio previous ≡ true)
    → let t = (accept_response crc e rx session taken).0 in
      HasRoom t.source (due true s.tx) × (t.counters.queue_drops ≡ 0)
answered-Margin crc s e rx session taken previous b h busy honest =
    let room : HasRoom e.source (due e.have_previous previous + due true s.tx) =
      rw (b.source, b.have_previous) (less s.source _ _ (ground (arith, busy)) h.room) in
    let (r, d) =
      accepted-Margin crc e rx session taken (due true s.tx) previous room (λ valid have answers.
        honest valid (sym b.have_previous ∙ have)
          (ground (arith, b.previous_session, b.previous_seq, answers))) in
    (r, d ∙ b.drops ∙ h.drops)

-- Which frame is the previous request's after a turn.
module _ (s : Stream) (w : Wire) (frame : List ℕ) where
  pub at_phase :
      (p : Phase) → s.phase ≡ p → previous_after s.phase s w frame ≡ previous_after p s w frame
  at_phase p e = ap (λ (q : Phase). previous_after q s w frame) e

  pub kept_frame :
      (p : Phase)
      → s.phase ≡ p
      → (exchange s w).1 ≡ false
      → previous_after s.phase s w frame ≡ frame
  kept_frame Phase.top e lost = at_phase Phase.top e
  kept_frame Phase.waiting e lost = at_phase Phase.waiting e
  kept_frame (Phase.probing x) e lost = at_phase (Phase.probing x) e ∙ ground arith
  kept_frame (Phase.transferring x) e lost = at_phase (Phase.transferring x) e ∙ ground arith

  pub new_frame :
      (p : Phase)
      → s.phase ≡ p
      → is_busy p ≡ true
      → (exchange s w).1 ≡ true
      → previous_after s.phase s w frame ≡ s.tx
  new_frame Phase.top e busy moved = absurd (ground arith)
  new_frame Phase.waiting e busy moved = absurd (ground arith)
  new_frame (Phase.probing x) e busy moved = at_phase (Phase.probing x) e ∙ ground arith
  new_frame (Phase.transferring x) e busy moved = at_phase (Phase.transferring x) e ∙ ground arith

-- A turn that ends without an exchange.
lost-Margin :
    (s e u : Stream) (previous : List ℕ)
    → Beside s e
    → u.source ≡ e.source
    → u.counters.queue_drops ≡ e.counters.queue_drops
    → due u.have_previous previous ≤ due e.have_previous previous
    → is_busy u.phase ≡ false
    → Margin s previous
    → Margin u previous
lost-Margin s e u previous b p q l idle h =
    kept s u previous (p ∙ b.source) (q ∙ b.drops) (ground (arith, b.have_previous)) h

both_true : {a b : Bool} → a ≡ true → b ≡ true → (a && b) ≡ true
both_true p q = ground arith

ended-Margin :
    (crc : List ℕ → ℕ) (s : Stream) (w : Wire) (taken : ℕ) (u : Stream) (ok : Bool)
    (previous : List ℕ)
    → Margin s previous
    → ((is_busy s.phase && (exchange s w).1) ≡ true
        → cw_valid crc w.rx cw_response ≡ true
        → s.have_previous ≡ true
        → answers_previous s w.rx ≡ true
        → audio w.rx ≡ true
        → audio previous ≡ true)
    → Ended crc s w taken u ok
    → Margin u (previous_after s.phase s w previous)
ended-Margin crc s w taken u ok previous h honest (Ended.resting (inl e)) =
    rw (at_phase s w previous Phase.top e) h
ended-Margin crc s w taken u ok previous h honest (Ended.resting (inr e)) =
    rw (at_phase s w previous Phase.waiting e) h
ended-Margin crc s w taken u ok previous h honest (Ended.departing e _) =
    rw (at_phase s w previous Phase.waiting e) (kept s u previous refl refl (omega arith) h)
ended-Margin crc s w taken u ok previous h honest (Ended.probe_failed x e lost) =
    let b = exchange-Beside s w in
    rw (kept_frame s w previous (Phase.probing x) e lost)
      (lost-Margin s (exchange s w).0 u previous b refl refl (omega arith) refl h)
ended-Margin crc s w taken u ok previous h honest (Ended.transfer_failed x e lost) =
    let b = exchange-Beside s w in
    rw (kept_frame s w previous (Phase.transferring x) e lost)
      (lost-Margin s (exchange s w).0 u previous b refl refl (omega arith) refl h)
ended-Margin crc s w taken u ok previous h honest (Ended.probe_done x ready e moved) =
    let b = exchange-Beside s w in
    let (room, drops) =
      answered-Margin crc s (exchange s w).0 w.rx x taken previous b h (ap is_busy e)
        (honest (both_true (ap is_busy e) moved)) in
    rw (new_frame s w previous (Phase.probing x) e refl moved)
      (record { room = less u.source _ _ (omega arith) room; drops = drops })
ended-Margin crc s w taken u ok previous h honest (Ended.transfer_done x current e moved) =
    let (room, drops) =
      answered-Margin crc s (timed (exchange s w).0 w) w.rx current taken previous
        (timed-Beside s w) h (ap is_busy e) (honest (both_true (ap is_busy e) moved)) in
    rw (new_frame s w previous (Phase.transferring x) e refl moved)
      (record { room = less u.source _ _ (omega arith) room; drops = drops })

-- The other steps.
heard-Margin :
    (s : Stream) (frame seq : ℕ) (payload : List ℕ) (now : ℕ) (previous : List ℕ)
    → Margin s previous
    → Margin (air_microphone_frame s frame seq payload now) previous
unfolding air_microphone_frame
heard-Margin s frame seq payload now previous h =
    kept s (air_microphone_frame s frame seq payload now) previous (ground arith) (ground arith)
      (ground arith) h

pause-Margin :
    (s : Stream) (previous : List ℕ) → Margin s previous → Margin (pause_for_reconnect s).0 previous
unfolding pause_for_reconnect
pause-Margin s previous h =
    kept s (pause_for_reconnect s).0 previous (ground arith) (ground arith) (ground arith) h

margin :
    (crc : List ℕ → ℕ) {s : Stream} {p : Past} (r : Run crc s p)
    → Honest crc r
    → Margin s p.previous
unfolding init booted mic_enable new_session stream_rearm resume_after_reconnect
margin crc (Run.boot random) h = record {
  room = record { valid = init-IsValid.0; room = omega arith };
  drops = refl;
}
margin crc (Run.hears {s} {p} frame seq payload now r) h =
    heard-Margin s frame seq payload now p.previous (margin crc r h)
margin crc (Run.asks {s} {p} event r) h =
    let m = margin crc r h in
    record { room = select-HasRoom s.source event _ true m.room; drops = m.drops }
margin crc (Run.enables {s} {p} v r) h =
    kept s _ p.previous refl refl (omega arith) (margin crc r h)
margin crc (Run.renews {s} {p} r) h = kept s _ p.previous refl refl (omega arith) (margin crc r h)
margin crc (Run.pauses {s} {p} r) h = pause-Margin s p.previous (margin crc r h)
margin crc (Run.rearms {s} {p} r) h =
    let m = margin crc r h in
    record { room = rearm-HasRoom s.source (some s.reconnect) _ m.room; drops = m.drops }
margin crc (Run.resumes {s} {p} r) h = kept s _ p.previous refl refl (omega arith) (margin crc r h)
margin crc (Run.begins {s} {p} t r top low) h =
    begun-Margin crc s t _ _ p.previous top (margin crc r h) (begin_turn-Begun crc s t)
margin crc (Run.ends {s} {p} w taken r) (h, fair) =
    ended-Margin crc s w taken _ _ p.previous (margin crc r h) fair (end_turn-Ended crc s w taken)

-- In every run against an honest codec board the queue of encoded audio keeps its invariant and has
-- room, besides the frames in it, for the answers to the previous and the present request that are
-- still due; no encoded frame is ever dropped for want of room.
pub Run-Margin :
    (crc : List ℕ → ℕ) {s : Stream} {p : Past} (r : Run crc s p)
    → Honest crc r
    → HasRoom s.source (due s.have_previous p.previous + due (is_busy s.phase) s.tx)
      × (s.counters.queue_drops ≡ 0)
Run-Margin crc r honest = let h = margin crc r honest in (h.room, h.drops)
