-- ===== src/PcmStream/Answered.antt =====
-- The responses that firmware/radio/src/pcm_stream.c accepts.
use open_ull_receiver.Base.{
  ℕ, suc, ◌+◌, ◌^◌, ◌≤◌, ◌<◌, ◌≡◌, refl, sym, ap, ◌∙◌, Bool, true, false, Option, List, ◌∷◌, arith,
  Bool-cases, inl, inr, if◌then◌else◌,
}
use open_ull_receiver.SpiFrame.{get32_at}
use open_ull_receiver.PcmStream.{
  Stream, MicPacket, Phase, booted, mic_enable, new_session, pause_for_reconnect, stream_rearm,
  resume_after_reconnect, air_microphone_frame,
}
use open_ull_receiver.PcmStream.Responses.{Wire, exchange, accept_response}
use open_ull_receiver.PcmStream.Turns.{WorkerTurn, enter_pause, probe, timed}
use open_ull_receiver.PcmStream.Beside.{Beside, transfer-Sent, exchange-Beside, timed-Beside}
use open_ull_receiver.PcmStream.Accepts.{accept_response_taken, accept_response_refused}
use open_ull_receiver.PcmStream.Cases.{Begun, Ended, begin_turn-Begun, end_turn-Ended}
use open_ull_receiver.PcmStream.Due.{is_busy, transfer-busy}
use open_ull_receiver.PcmStream.Runs.{Past, Run}
use open_ull_receiver.PcmStream.Ordered.{Falls, Falls-more, limit, Ordered, sent, rested}

begun-Ordered :
    (crc : List ℕ → ℕ) (s : Stream) (t : WorkerTurn) (u : Stream) (r : Option MicPacket)
    (accepted : List ℕ)
    → s.phase ≡ Phase.top
    → s.worker.seq + 1 < 2 ^ 32
    → Ordered s accepted
    → Begun crc s t u r
    → Ordered u accepted
unfolding enter_pause probe
begun-Ordered crc s t u r accepted top low h (Begun.pausing _) =
    rested s u accepted refl (inr refl) refl (inl refl) h
begun-Ordered crc s t u r accepted top low h (Begun.probing _) =
    sent s u accepted top low refl refl refl refl h
begun-Ordered crc s t u r accepted top low h Begun.idling =
    rested s u accepted refl (inl refl) refl (inr refl) h
begun-Ordered crc s t u r accepted top low h Begun.delaying =
    rested s u accepted refl (inl refl) refl (inr refl) h
begun-Ordered crc s t u r accepted top low h (Begun.transferring _) =
    let e = transfer-Sent crc (record s { mic_active = s.mic_enabled }) t in
    sent s u accepted top low e.have_previous e.previous_seq e.seq
      (transfer-busy crc (record s { mic_active = s.mic_enabled }) t) h

-- The list once an answer is in.
abbrev listed_answer : Bool → List ℕ → List ℕ → List ℕ
listed_answer ok rx accepted = if ok then get32_at 12 rx ∷ accepted else accepted

-- The answer in a busy stream `s`, from a stream `e` with its requests, leaves the numbers in order
-- below that of the present request.
answer-Falls :
    (crc : List ℕ → ℕ) (s e : Stream) (rx : List ℕ) (session taken : ℕ) (accepted : List ℕ)
    → Beside s e
    → is_busy s.phase ≡ true
    → Ordered s accepted
    → let (t, ok) = accept_response crc e rx session taken in
      Falls s.worker.seq (listed_answer ok rx accepted) × (t.worker.seq ≡ s.worker.seq)
answer-Falls crc s e rx session taken accepted b busy h =
    elim (Bool-cases (accept_response crc e rx session taken).1) [
      | inl ok ↦
          let (valid, have, answers, a) = accept_response_taken crc e rx session taken ok in
          let was : s.have_previous ≡ true = sym b.have_previous ∙ have in
          let number : get32_at 12 rx ≡ s.previous_seq = ground (arith, answers, b.previous_seq) in
          let bound : limit s ≡ s.previous_seq = ground arith in
          rw ok (
            (
              omega (arith, number, h.behind was busy),
              Falls-more (limit s) (get32_at 12 rx) accepted (omega (arith, number, bound)) h.falls,
            ),
            a.seq ∙ b.seq,
          )
      | inr refused ↦
          let a = accept_response_refused crc e rx session taken refused in
          let low : limit s ≤ s.worker.seq = ground (arith, h.past, busy) in
          rw refused (Falls-more (limit s) s.worker.seq accepted low h.falls, a.seq ∙ b.seq)
    ]

-- A request that becomes the previous one.
retired :
    (s u : Stream) (accepted : List ℕ)
    → Falls s.worker.seq accepted
    → u.have_previous ≡ true
    → u.previous_seq ≡ s.worker.seq
    → u.worker.seq ≡ s.worker.seq
    → is_busy u.phase ≡ false
    → s.worker.seq < 2 ^ 32
    → Ordered u accepted
retired s u accepted f a b c idle low = record {
  falls = Falls-more s.worker.seq (limit u) accepted (ground arith) f;
  past = λ e. omega arith;
  behind = λ e g. absurd (ground arith);
  seq = omega arith;
}

ended-Ordered :
    (crc : List ℕ → ℕ) (s : Stream) (w : Wire) (taken : ℕ) (u : Stream) (ok : Bool)
    (accepted : List ℕ)
    → Ordered s accepted
    → Ended crc s w taken u ok
    → Ordered u (listed_answer ok w.rx accepted)
ended-Ordered crc s w taken u ok accepted h (Ended.resting _) = h
ended-Ordered crc s w taken u ok accepted h (Ended.departing _ _) =
    rested s u accepted refl (inl refl) refl (inl refl) h
ended-Ordered crc s w taken u ok accepted h (Ended.probe_failed x e lost) =
    let b = exchange-Beside s w in
    rested s u accepted b.seq (inl b.have_previous) b.previous_seq (inl refl) h
ended-Ordered crc s w taken u ok accepted h (Ended.transfer_failed x e lost) =
    let b = exchange-Beside s w in rested s u accepted b.seq (inr refl) b.previous_seq (inl refl) h
ended-Ordered crc s w taken u ok accepted h (Ended.probe_done x ready e moved) =
    let (f, same) =
      answer-Falls crc s (exchange s w).0 w.rx x taken accepted (exchange-Beside s w) (ap is_busy e)
        h in
    retired s u _ f refl same same refl h.seq
ended-Ordered crc s w taken u ok accepted h (Ended.transfer_done x current e moved) =
    let (f, same) =
      answer-Falls crc s (timed (exchange s w).0 w) w.rx current taken accepted (timed-Beside s w)
        (ap is_busy e) h in
    retired s u _ f refl same same refl h.seq

-- The other steps.
heard-Ordered :
    (s : Stream) (frame seq : ℕ) (payload : List ℕ) (now : ℕ) (accepted : List ℕ)
    → Ordered s accepted
    → Ordered (air_microphone_frame s frame seq payload now) accepted
unfolding air_microphone_frame
heard-Ordered s frame seq payload now accepted h =
    rested s (air_microphone_frame s frame seq payload now) accepted (ground arith)
      (inl (ground arith)) (ground arith) (inr (ground arith)) h

pause-Ordered :
    (s : Stream) (accepted : List ℕ)
    → Ordered s accepted
    → Ordered (pause_for_reconnect s).0 accepted
unfolding pause_for_reconnect
pause-Ordered s accepted h =
    rested s (pause_for_reconnect s).0 accepted (ground arith) (inl (ground arith)) (ground arith)
      (inr (ground arith)) h

ordered : (crc : List ℕ → ℕ) {s : Stream} {p : Past} → Run crc s p → Ordered s p.accepted
unfolding booted mic_enable new_session stream_rearm resume_after_reconnect
ordered crc (Run.boot random) = record {
  falls = tt;
  past = λ e. omega arith;
  behind = λ e f. absurd (ground arith);
  seq = omega arith;
}
ordered crc (Run.hears {s} {p} frame seq payload now r) =
    heard-Ordered s frame seq payload now p.accepted (ordered crc r)
ordered crc (Run.asks {s} {p} event r) =
    rested s _ p.accepted refl (inl refl) refl (inr refl) (ordered crc r)
ordered crc (Run.enables {s} {p} v r) =
    rested s _ p.accepted refl (inl refl) refl (inr refl) (ordered crc r)
ordered crc (Run.renews {s} {p} r) =
    rested s _ p.accepted refl (inl refl) refl (inr refl) (ordered crc r)
ordered crc (Run.pauses {s} {p} r) = pause-Ordered s p.accepted (ordered crc r)
ordered crc (Run.rearms {s} {p} r) =
    rested s _ p.accepted refl (inl refl) refl (inr refl) (ordered crc r)
ordered crc (Run.resumes {s} {p} r) =
    rested s _ p.accepted refl (inl refl) refl (inr refl) (ordered crc r)
ordered crc (Run.begins {s} {p} t r top low) =
    begun-Ordered crc s t _ _ p.accepted top low (ordered crc r) (begin_turn-Begun crc s t)
ordered crc (Run.ends {s} {p} w taken r) =
    ended-Ordered crc s w taken _ _ p.accepted (ordered crc r) (end_turn-Ended crc s w taken)

-- In every run, as long as the 32-bit number of the requests has not gone round, the accepted
-- responses answer requests of ever higher numbers, none of them above that of the last request: no
-- response is accepted twice, and none behind a later one.
pub Run-Falls :
    (crc : List ℕ → ℕ) {s : Stream} {p : Past} → Run crc s p → Falls (suc s.worker.seq) p.accepted
Run-Falls crc {s} {p} r =
    let h = ordered crc r in
    Falls-more (limit s) (suc s.worker.seq) p.accepted (ground (arith, h.past)) h.falls
