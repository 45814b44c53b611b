-- ===== src/PcmStream/Paused.antt =====
-- The pause of firmware/radio/src/pcm_stream.c for a reconnect.
use open_ull_receiver.Base.{
  ℕ, ◌%◌, ◌≡◌, refl, sym, ap, ◌∙◌, Bool, true, false, Option, List, [], arith, window, Bool-cases,
  inl, inr,
}
use open_ull_receiver.AudioSource.{Barrier, request, resume, paused, depart, acknowledge}
use open_ull_receiver.PcmStream.{
  no_packet, Stream, MicPacket, Phase, booted, mic_enable, new_session, pause_for_reconnect,
  stream_rearm, resume_after_reconnect, air_microphone_frame, paused_for_reconnect,
}
use open_ull_receiver.PcmStream.Responses.{Wire, exchange, accept_response}
use open_ull_receiver.PcmStream.Queue.{queued, contents}
use open_ull_receiver.PcmStream.Turns.{
  WorkerTurn, end_turn, end_phase, leave_pause, enter_pause, probe, transfer, timed,
}
use open_ull_receiver.PcmStream.Beside.{transfer-Sent, exchange-Beside}
use open_ull_receiver.PcmStream.Accepts.{accept_response_taken, accept_response_refused}
use open_ull_receiver.PcmStream.Cases.{Begun, Ended, begin_turn-Begun, end_turn-Ended}
use open_ull_receiver.PcmStream.Runs.{Past, Run}

abbrev is_waiting : Phase → Bool
is_waiting Phase.waiting = true
is_waiting _ = false

-- The worker has acknowledged just when it waits, and while it does it has nothing in hand.
record Rests (s : Stream) : Type 0 where
  told : s.reconnect.acknowledged ≡ is_waiting s.phase
  previous : s.reconnect.acknowledged ≡ true → s.have_previous ≡ false
  quiet : s.reconnect.acknowledged ≡ true → s.mic_active ≡ false
  empty : s.reconnect.acknowledged ≡ true → s.read_pos ≡ s.written

-- A step to a state that does not wait.
restless :
    (s t : Stream)
    → s.reconnect.acknowledged ≡ false
    → t.reconnect.acknowledged ≡ s.reconnect.acknowledged
    → is_waiting t.phase ≡ false
    → Rests t
restless s t a b c = ground arith

transfer-phase :
    (crc : List ℕ → ℕ) (s : Stream) (t : WorkerTurn) → is_waiting (transfer crc s t).0.phase ≡ false
unfolding transfer
transfer-phase crc s t = refl

Begun-Rests :
    (crc : List ℕ → ℕ) (s : Stream) (t : WorkerTurn) (u : Stream) (r : Option MicPacket)
    → Rests s
    → s.phase ≡ Phase.top
    → Begun crc s t u r
    → Rests u
unfolding enter_pause probe acknowledge
Begun-Rests crc s t u r h top (Begun.pausing _) = record {
  told = refl;
  previous = λ _. refl;
  quiet = λ _. refl;
  empty = λ _. refl;
}
Begun-Rests crc s t u r h top (Begun.probing _) = restless s u (ground (arith, h.told)) refl refl
Begun-Rests crc s t u r h top Begun.idling =
    restless s u (ground (arith, h.told)) refl (ground arith)
Begun-Rests crc s t u r h top Begun.delaying =
    restless s u (ground (arith, h.told)) refl (ground arith)
Begun-Rests crc s t u r h top (Begun.transferring _) =
    restless s u (ground (arith, h.told))
      (ap (λ (b : Barrier). b.acknowledged)
        (transfer-Sent crc (record s { mic_active = s.mic_enabled }) t).reconnect)
      (transfer-phase crc _ t)

accept_response-reconnect :
    (crc : List ℕ → ℕ) (s : Stream) (rx : List ℕ) (session taken : ℕ)
    → (accept_response crc s rx session taken).0.reconnect ≡ s.reconnect
accept_response-reconnect crc s rx session taken =
    elim (Bool-cases (accept_response crc s rx session taken).1) [
      | inl ok ↦ ground (arith, accept_response_taken crc s rx session taken ok)
      | inr refused ↦ ground (arith, accept_response_refused crc s rx session taken refused)
    ]

-- The worker is not waiting where an exchange ends.
not_waiting :
    (s : Stream) (p : Phase)
    → Rests s
    → s.phase ≡ p
    → is_waiting p ≡ false
    → s.reconnect.acknowledged ≡ false
not_waiting s p h e w = h.told ∙ ap is_waiting e ∙ w

Ended-Rests :
    (crc : List ℕ → ℕ) (s : Stream) (w : Wire) (taken : ℕ) (u : Stream) (ok : Bool)
    → Rests s
    → Ended crc s w taken u ok
    → Rests u
unfolding depart
Ended-Rests crc s w taken u ok h (Ended.resting _) = h
Ended-Rests crc s w taken u ok h (Ended.departing _ _) = record {
  told = refl;
  previous = λ e. absurd (ground arith);
  quiet = λ e. absurd (ground arith);
  empty = λ e. absurd (ground arith);
}
Ended-Rests crc s w taken u ok h (Ended.probe_failed x e _) =
    restless s u (not_waiting s (Phase.probing x) h e refl)
      (ap (λ (b : Barrier). b.acknowledged) (exchange-Beside s w).reconnect) refl
Ended-Rests crc s w taken u ok h (Ended.transfer_failed x e _) =
    restless s u (not_waiting s (Phase.transferring x) h e refl)
      (ap (λ (b : Barrier). b.acknowledged) (exchange-Beside s w).reconnect) refl
Ended-Rests crc s w taken u ok h (Ended.probe_done x _ e _) =
    restless s u (not_waiting s (Phase.probing x) h e refl)
      (ap (λ (b : Barrier). b.acknowledged)
        (accept_response-reconnect crc (exchange s w).0 w.rx x taken
          ∙ (exchange-Beside s w).reconnect))
      refl
Ended-Rests crc s w taken u ok h (Ended.transfer_done x current e _) =
    restless s u (not_waiting s (Phase.transferring x) h e refl)
      (ap (λ (b : Barrier). b.acknowledged)
        (accept_response-reconnect crc (timed (exchange s w).0 w) w.rx current taken
          ∙ (exchange-Beside s w).reconnect))
      refl

heard-Rests :
    (s : Stream) (frame seq : ℕ) (payload : List ℕ) (now : ℕ)
    → Rests s
    → Rests (air_microphone_frame s frame seq payload now)
unfolding air_microphone_frame
heard-Rests s frame seq payload now h = ground arith

pause-Rests : (s : Stream) → Rests s → Rests (pause_for_reconnect s).0
unfolding pause_for_reconnect request
pause-Rests s h = ground arith

Run-Rests : (crc : List ℕ → ℕ) {s : Stream} {p : Past} → Run crc s p → Rests s
unfolding booted mic_enable new_session stream_rearm resume_after_reconnect resume
Run-Rests crc (Run.boot random) = record {
  told = refl;
  previous = λ e. refl;
  quiet = λ e. refl;
  empty = λ e. refl;
}
Run-Rests crc (Run.hears {s} frame seq payload now r) =
    heard-Rests s frame seq payload now (Run-Rests crc r)
Run-Rests crc (Run.asks event r) =
    (let h = Run-Rests crc r in
      record { told = h.told; previous = h.previous; quiet = h.quiet; empty = h.empty })
Run-Rests crc (Run.enables v r) =
    (let h = Run-Rests crc r in
      record { told = h.told; previous = h.previous; quiet = h.quiet; empty = h.empty })
Run-Rests crc (Run.renews r) =
    (let h = Run-Rests crc r in
      record { told = h.told; previous = h.previous; quiet = h.quiet; empty = h.empty })
Run-Rests crc (Run.pauses {s} r) = pause-Rests s (Run-Rests crc r)
Run-Rests crc (Run.rearms r) =
    (let h = Run-Rests crc r in
      record { told = h.told; previous = h.previous; quiet = h.quiet; empty = h.empty })
Run-Rests crc (Run.resumes r) =
    (let h = Run-Rests crc r in
      record { told = h.told; previous = h.previous; quiet = h.quiet; empty = h.empty })
Run-Rests crc (Run.begins {s} t r top low) =
    Begun-Rests crc s t _ _ (Run-Rests crc r) top (begin_turn-Begun crc s t)
Run-Rests crc (Run.ends {s} w taken r) =
    Ended-Rests crc s w taken _ _ (Run-Rests crc r) (end_turn-Ended crc s w taken)

waits : (p : Phase) → is_waiting p ≡ true → p ≡ Phase.waiting
waits Phase.top e = absurd (ground arith)
waits Phase.waiting e = refl
waits (Phase.probing x) e = absurd (ground arith)
waits (Phase.transferring x) e = absurd (ground arith)

nothing_queued : (s : Stream) → s.read_pos ≡ s.written → contents s ≡ []
nothing_queued s e =
    let gone : queued s ≡ 0 = omega (arith, e) in
    ap (λ (n : ℕ). window no_packet 16 s.packets (s.read_pos % 16) n) gone

stays : (s : Stream) → s.reconnect.requested ≡ true → leave_pause s ≡ s
unfolding leave_pause
stays s asked = ground arith

stands_still :
    (crc : List ℕ → ℕ) (s : Stream) (w : Wire) (taken : ℕ)
    → s.phase ≡ Phase.waiting
    → s.reconnect.requested ≡ true
    → end_turn crc s w taken ≡ (s, false)
unfolding end_turn end_phase leave_pause
stands_still crc s w taken e asked =
    ap (λ (p : Phase). end_phase crc p s w taken) e
    ∙ ap (λ (u : Stream). (u, false)) (stays s asked)

-- Whenever the coordinator sees the worker paused, the worker stands still until it is resumed: it
-- waits, has switched the microphone off and emptied its queue, and has forgotten its last request,
-- so that no response to that will be accepted.
pub Run-paused :
    (crc : List ℕ → ℕ) {s : Stream} {p : Past}
    → Run crc s p
    → paused_for_reconnect s ≡ true
    → (s.phase ≡ Phase.waiting)
      × (s.mic_active ≡ false)
      × (s.have_previous ≡ false)
      × (contents s ≡ [])
      × ((w : Wire) (taken : ℕ) → end_turn crc s w taken ≡ (s, false))
unfolding paused_for_reconnect paused
Run-paused crc {s} r h =
    let a = Run-Rests crc r in
    let both : (s.reconnect.requested ≡ true) × (s.reconnect.acknowledged ≡ true) = ground arith in
    let phase = waits s.phase (sym a.told ∙ both.1) in
    (
      phase,
      a.quiet both.1,
      a.previous both.1,
      nothing_queued s (a.empty both.1),
      λ w taken. stands_still crc s w taken phase both.0,
    )
