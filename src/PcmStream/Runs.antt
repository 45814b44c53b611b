-- ===== src/PcmStream/Runs.antt =====
-- The runs of firmware/radio/src/pcm_stream.c: every sequence of steps of the worker, the radio and
-- the coordinator from the start on.
use open_ull_receiver.Base.{
  ℕ, ◌+◌, ◌^◌, ◌<◌, ◌≡◌, Bool, true, Option, none, some, List, [], ◌∷◌, ◌++◌, if◌then◌else◌,
}
use open_ull_receiver.SpiFrame.{get32_at}
use open_ull_receiver.AudioSource.{select}
use open_ull_receiver.PcmStream.{
  Stream, MicPacket, Phase, booted, air_microphone_frame, mic_enable, new_session,
  pause_for_reconnect, stream_rearm, resume_after_reconnect,
}
use open_ull_receiver.PcmStream.Responses.{Wire, exchange}
use open_ull_receiver.PcmStream.Queue.{heard}
use open_ull_receiver.PcmStream.Turns.{WorkerTurn, begin_turn, end_turn}

-- What has happened: the frame of the previous request, the numbers of the requests whose responses
-- were accepted, by what these say, the newest first, the packets queued, and those that were sent.
pub record Past : Type 0 where
  pub previous : List ℕ
  pub accepted : List ℕ
  pub heard : List MicPacket
  pub sent : List MicPacket

abbrev pub nothing : Past
nothing = record { previous = []; accepted = []; heard = []; sent = [] }

abbrev pub listed : Option MicPacket → List MicPacket
listed none = []
listed (some p) = p ∷ []

-- The frame that is the previous request's after an exchange, or after a wait.
abbrev pub previous_after : Phase → Stream → Wire → List ℕ → List ℕ
previous_after (Phase.probing session) s w frame = if (exchange s w).1 then s.tx else frame
previous_after (Phase.transferring session) s w frame = if (exchange s w).1 then s.tx else frame
previous_after _ s w frame = frame

module _ (crc : List ℕ → ℕ) where
  -- The radio asks for audio of event number `event`, the worker takes its turns, and the
  -- coordinator pauses, re-arms and resumes. The 32-bit number of the requests has not gone round.
  pub data Run : Stream → Past → Type 0 where
    boot : (random : ℕ) → Run (booted random) nothing
    hears :
        {s : Stream} {p : Past} (frame seq : ℕ) (payload : List ℕ) (now : ℕ)
        → Run s p
        → Run
            (air_microphone_frame s frame seq payload now)
            (record p { heard = p.heard ++ heard s frame seq payload now })
    asks :
        {s : Stream} {p : Past} (event : ℕ)
        → Run s p
        → Run (record s { source = (select s.source event true).0 }) p
    enables : {s : Stream} {p : Past} (v : Bool) → Run s p → Run (mic_enable s v) p
    renews : {s : Stream} {p : Past} → Run s p → Run (new_session s) p
    pauses : {s : Stream} {p : Past} → Run s p → Run (pause_for_reconnect s).0 p
    rearms : {s : Stream} {p : Past} → Run s p → Run (stream_rearm s).0 p
    resumes : {s : Stream} {p : Past} → Run s p → Run (resume_after_reconnect s) p
    begins :
        {s : Stream} {p : Past} (t : WorkerTurn)
        → Run s p
        → s.phase ≡ Phase.top
        → s.worker.seq + 1 < 2 ^ 32
        → Run (begin_turn crc s t).0 (record p { sent = p.sent ++ listed (begin_turn crc s t).1 })
    ends :
        {s : Stream} {p : Past} (w : Wire) (taken : ℕ)
        → Run s p
        → Run (end_turn crc s w taken).0 (record p {
          previous = previous_after s.phase s w p.previous;
          accepted =
              if (end_turn crc s w taken).1 then get32_at 12 w.rx ∷ p.accepted else p.accepted;
        })
