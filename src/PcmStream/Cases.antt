-- ===== src/PcmStream/Cases.antt =====
-- The ways a turn of `run` in firmware/radio/src/pcm_stream.c goes.
use open_ull_receiver.Base.{
  ℕ, ◌⊎◌, inl, inr, ◌≡◌, refl, Bool, true, false, not, ◌&&◌, ◌||◌, Option, none, List, branch,
  arith, ltb, ◌+◌,
}
use open_ull_receiver.AudioSource.{depart}
use open_ull_receiver.PcmStream.{Stream, MicPacket, Phase}
use open_ull_receiver.PcmStream.Responses.{Wire, exchange, accept_response}
use open_ull_receiver.PcmStream.Turns.{
  WorkerTurn, begin_turn, end_turn, end_phase, end_probe, end_transfer, enter_pause, leave_pause,
  probe, transfer, plays, idle_turn, timed, disarmed, retire,
}

module _ (crc : List ℕ → ℕ) (s : Stream) where
  pub data Begun (t : WorkerTurn) : Stream → Option MicPacket → Type 0 where
    pausing : s.reconnect.requested ≡ true → Begun t (enter_pause s) none
    probing : s.reconnect.requested ≡ false → Begun t (probe crc s) none
    idling : Begun t (idle_turn s) none
    delaying : Begun t (record s { mic_active = s.mic_enabled }) none
    transferring :
        s.reconnect.requested ≡ false
        → Begun t
            (transfer crc (record s { mic_active = s.mic_enabled }) t).0
            (transfer crc (record s { mic_active = s.mic_enabled }) t).1

  pub begin_turn-Begun : (t : WorkerTurn) → Begun t (begin_turn crc s t).0 (begin_turn crc s t).1
  unfolding begin_turn
  begin_turn-Begun t =
      let P : Stream × Option MicPacket → Type 0 = λ r. Begun t r.0 r.1 in
      branch P s.reconnect.requested (λ asked. Begun.pausing asked)
        (λ free.
          branch P (not s.ready) (λ _. Begun.probing free)
            (λ _.
              branch P (not s.source.requested) (λ _. Begun.idling)
                (λ _.
                  branch P
                    (not (plays s t)
                      && (not s.mic_enabled || ltb t.now (s.worker.last_transfer + 5000)))
                    (λ _. Begun.delaying) (λ _. Begun.transferring free))))

  -- The end of a turn, with the frame received by it.
  pub data Ended (w : Wire) (taken : ℕ) : Stream → Bool → Type 0 where
    resting : (s.phase ≡ Phase.top) ⊎ (s.phase ≡ Phase.waiting) → Ended w taken s false
    departing :
        s.phase ≡ Phase.waiting
        → s.reconnect.requested ≡ false
        → Ended w taken (record s { reconnect = depart s.reconnect; phase = Phase.top }) false
    probe_failed :
        (session : ℕ)
        → s.phase ≡ Phase.probing session
        → (exchange s w).1 ≡ false
        → Ended w taken (record (exchange s w).0 { phase = Phase.top }) false
    probe_done :
        (session : ℕ) (ready : Bool)
        → s.phase ≡ Phase.probing session
        → (exchange s w).1 ≡ true
        → Ended w taken
            (retire
              (record (accept_response crc (exchange s w).0 w.rx session taken).0 { ready = ready })
              session)
            (accept_response crc (exchange s w).0 w.rx session taken).1
    transfer_failed :
        (session : ℕ)
        → s.phase ≡ Phase.transferring session
        → (exchange s w).1 ≡ false
        → Ended w taken (disarmed (exchange s w).0) false
    transfer_done :
        (session current : ℕ)
        → s.phase ≡ Phase.transferring session
        → (exchange s w).1 ≡ true
        → Ended w taken
            (retire (accept_response crc (timed (exchange s w).0 w) w.rx current taken).0 session)
            (accept_response crc (timed (exchange s w).0 w) w.rx current taken).1

  end_phase-Ended :
      (p : Phase) (w : Wire) (taken : ℕ)
      → s.phase ≡ p
      → Ended w taken (end_phase crc p s w taken).0 (end_phase crc p s w taken).1
  unfolding end_phase end_probe end_transfer leave_pause
  end_phase-Ended Phase.top w taken e = Ended.resting (inl e)
  end_phase-Ended Phase.waiting w taken e =
      branch (λ (u : Stream). Ended w taken u false) s.reconnect.requested
        (λ _. Ended.resting (inr e)) (λ go. Ended.departing e go)
  end_phase-Ended (Phase.probing session) w taken e =
      branch (λ (r : Stream × Bool). Ended w taken r.0 r.1) (not (exchange s w).1)
        (λ lost. Ended.probe_failed session e (ground arith))
        (λ moved. Ended.probe_done session _ e (ground arith))
  end_phase-Ended (Phase.transferring session) w taken e =
      branch (λ (r : Stream × Bool). Ended w taken r.0 r.1) (not (exchange s w).1)
        (λ lost. Ended.transfer_failed session e (ground arith))
        (λ moved. Ended.transfer_done session _ e (ground arith))

  pub end_turn-Ended :
      (w : Wire) (taken : ℕ) → Ended w taken (end_turn crc s w taken).0 (end_turn crc s w taken).1
  unfolding end_turn
  end_turn-Ended w taken = end_phase-Ended s.phase w taken refl
