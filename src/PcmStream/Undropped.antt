-- ===== src/PcmStream/Undropped.antt =====
-- That the worker of firmware/radio/src/pcm_stream.c drops no encoded frame with the codec board of
-- firmware/codec/src/main.c.
use open_ull_receiver.Base.{
  ℕ, ◌+◌, ◌≡◌, ◌⊎◌, inl, inr, refl, sym, ap, ◌∙◌, Bool, true, false, List, arith,
}
use open_ull_receiver.CodecSlave.{Codecs, Slave, slave_process}
use open_ull_receiver.PcmStream.{
  Stream, Phase, booted, air_microphone_frame, pause_for_reconnect, mic_enable, new_session,
  stream_rearm, resume_after_reconnect,
}
use open_ull_receiver.PcmStream.Responses.{Wire, exchange}
use open_ull_receiver.PcmStream.Turns.{timed}
use open_ull_receiver.PcmStream.Beside.{exchange-Beside}
use open_ull_receiver.PcmStream.Accepts.{accept_response-seq}
use open_ull_receiver.PcmStream.Margin.{at_phase, kept_frame, new_frame}
use open_ull_receiver.PcmStream.Cases.{Ended, begin_turn-Begun, end_turn-Ended}
use open_ull_receiver.PcmStream.Due.{audio, is_busy, Honest}
use open_ull_receiver.PcmStream.Runs.{Past, Run, previous_after}
use open_ull_receiver.PcmStream.Room.{HasRoom}
use open_ull_receiver.PcmStream.Due.{due}
use open_ull_receiver.PcmStream.Margin.{Run-Margin}
use open_ull_receiver.PcmStream.Board.{Joined, Wired, Replied, rested, begun-Replied, answered}

module _ {E D : Type 0} (codecs : Codecs E D) (crc : List ℕ → ℕ) where
  -- Without an exchange the board stays as it is.
  unmoved :
      (s : Stream) (w : Wire) (b c : Slave E D)
      → Joined codecs crc s w b c
      → (is_busy s.phase ≡ false) ⊎ ((exchange s w).1 ≡ false)
      → c ≡ b
  unmoved s w b c j (inl e) = j.1 (ground arith)
  unmoved s w b c j (inr e) = j.1 (ground arith)

  moved_busy :
      (s : Stream) (w : Wire) (b c : Slave E D)
      → Joined codecs crc s w b c
      → is_busy s.phase ≡ true
      → (exchange s w).1 ≡ true
      → c ≡ slave_process codecs crc b s.tx 10240
  moved_busy s w b c j e f = (j.0 (ground arith)).1

  ended-Replied :
      (s : Stream) (w : Wire) (taken : ℕ) (u : Stream) (ok : Bool) (previous : List ℕ)
      (b c : Slave E D)
      → Joined codecs crc s w b c
      → Ended crc s w taken u ok
      → Replied codecs crc s previous b
      → Replied codecs crc u (previous_after s.phase s w previous) c
  ended-Replied s w taken u ok previous b c j (Ended.resting (inl e)) h =
      rw (at_phase s w previous Phase.top e, unmoved s w b c j (inl (ap is_busy e))) h
  ended-Replied s w taken u ok previous b c j (Ended.resting (inr e)) h =
      rw (at_phase s w previous Phase.waiting e, unmoved s w b c j (inl (ap is_busy e))) h
  ended-Replied s w taken u ok previous b c j (Ended.departing e _) h =
      rw (at_phase s w previous Phase.waiting e, unmoved s w b c j (inl (ap is_busy e)))
        (rested codecs crc s u previous b (inl refl) refl (inl refl) h)
  ended-Replied s w taken u ok previous b c j (Ended.probe_failed x e lost) h =
      let k = exchange-Beside s w in
      rw (kept_frame s w previous (Phase.probing x) e lost, unmoved s w b c j (inr lost))
        (rested codecs crc s u previous b (inl k.have_previous) k.seq (inl refl) h)
  ended-Replied s w taken u ok previous b c j (Ended.transfer_failed x e lost) h =
      let k = exchange-Beside s w in
      rw (kept_frame s w previous (Phase.transferring x) e lost, unmoved s w b c j (inr lost))
        (rested codecs crc s u previous b (inr refl) k.seq (inl refl) h)
  ended-Replied s w taken u ok previous b c j (Ended.probe_done x ready e moved) h =
      let same =
        accept_response-seq crc (exchange s w).0 w.rx x taken ∙ (exchange-Beside s w).seq in
      rw (new_frame s w previous (Phase.probing x) e refl moved) (
        answered codecs crc s u previous b c (moved_busy s w b c j (ap is_busy e) moved)
          (ap is_busy e) refl same h)
  ended-Replied s w taken u ok previous b c j (Ended.transfer_done x current e moved) h =
      let same =
        accept_response-seq crc (timed (exchange s w).0 w) w.rx current taken
        ∙ (exchange-Beside s w).seq in
      rw (new_frame s w previous (Phase.transferring x) e refl moved) (
        answered codecs crc s u previous b c (moved_busy s w b c j (ap is_busy e) moved)
          (ap is_busy e) refl same h)

  heard-Replied :
      (s : Stream) (frame seq : ℕ) (payload : List ℕ) (now : ℕ) (previous : List ℕ) (b : Slave E D)
      → Replied codecs crc s previous b
      → Replied codecs crc (air_microphone_frame s frame seq payload now) previous b
  unfolding air_microphone_frame
  heard-Replied s frame seq payload now previous b h =
      rested codecs crc s (air_microphone_frame s frame seq payload now) previous b
        (inl (ground arith)) (ground arith) (inr (ground arith, ground arith)) h

  pause-Replied :
      (s : Stream) (previous : List ℕ) (b : Slave E D)
      → Replied codecs crc s previous b
      → Replied codecs crc (pause_for_reconnect s).0 previous b
  unfolding pause_for_reconnect
  pause-Replied s previous b h =
      rested codecs crc s (pause_for_reconnect s).0 previous b (inl (ground arith)) (ground arith)
        (inr (ground arith, ground arith)) h

  answers :
      {s : Stream} {p : Past} (r : Run crc s p) (b : Slave E D)
      → Wired codecs crc r b
      → Replied codecs crc s p.previous b
  unfolding booted mic_enable new_session stream_rearm resume_after_reconnect
  answers (Run.boot random) b h = record {
    fair = λ have. absurd (ground arith);
    old = λ have. absurd (ground arith);
    behind = λ have busy. absurd (ground arith);
    request = λ busy. absurd (ground arith);
    low = omega arith;
  }
  answers (Run.hears {s} {p} frame seq payload now r) b h =
      heard-Replied s frame seq payload now p.previous b (answers r b h)
  answers (Run.asks {s} {p} event r) b h =
      rested codecs crc s _ p.previous b (inl refl) refl (inr (refl, refl)) (answers r b h)
  answers (Run.enables {s} {p} v r) b h =
      rested codecs crc s _ p.previous b (inl refl) refl (inr (refl, refl)) (answers r b h)
  answers (Run.renews {s} {p} r) b h =
      rested codecs crc s _ p.previous b (inl refl) refl (inr (refl, refl)) (answers r b h)
  answers (Run.pauses {s} {p} r) b h = pause-Replied s p.previous b (answers r b h)
  answers (Run.rearms {s} {p} r) b h =
      rested codecs crc s _ p.previous b (inl refl) refl (inr (refl, refl)) (answers r b h)
  answers (Run.resumes {s} {p} r) b h =
      rested codecs crc s _ p.previous b (inl refl) refl (inr (refl, refl)) (answers r b h)
  answers (Run.begins {s} {p} t r top low) b h =
      begun-Replied codecs crc s t _ _ p.previous b top low (begin_turn-Begun crc s t)
        (answers r b h)
  answers (Run.ends {s} {p} w taken r) c (b, h, j) =
      ended-Replied s w taken _ _ p.previous b c j (end_turn-Ended crc s w taken) (answers r b h)

  board-Honest :
      {s : Stream} {p : Past} (r : Run crc s p) (b : Slave E D)
      → Wired codecs crc r b
      → Honest crc r
  board-Honest (Run.boot random) b h = tt
  board-Honest (Run.hears frame seq payload now r) b h = board-Honest r b h
  board-Honest (Run.asks event r) b h = board-Honest r b h
  board-Honest (Run.enables v r) b h = board-Honest r b h
  board-Honest (Run.renews r) b h = board-Honest r b h
  board-Honest (Run.pauses r) b h = board-Honest r b h
  board-Honest (Run.rearms r) b h = board-Honest r b h
  board-Honest (Run.resumes r) b h = board-Honest r b h
  board-Honest (Run.begins t r top low) b h = board-Honest r b h
  board-Honest (Run.ends w taken r) c (b, h, j) = (
    board-Honest r b h,
    λ moved valid have number holds.
        (answers r b h).fair have (ap audio (sym (j.0 moved).0) ∙ holds),
  )

  -- In every run with the codec board on a wire that corrupts nothing, whatever its codecs return, the
  -- queue of encoded audio keeps its invariant and has room, besides the frames in it, for the answers
  -- to the previous and the present request that are still due; so no encoded frame is ever dropped.
  -- Exchanges may fail, and the radio and the coordinator may do anything in between.
  pub Run-Wired :
      {s : Stream} {p : Past} (r : Run crc s p) (b : Slave E D)
      → Wired codecs crc r b
      → HasRoom s.source (due s.have_previous p.previous + due (is_busy s.phase) s.tx)
        × (s.counters.queue_drops ≡ 0)
  Run-Wired r b h = Run-Margin crc r (board-Honest r b h)
