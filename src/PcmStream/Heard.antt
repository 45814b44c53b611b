-- ===== src/PcmStream/Heard.antt =====
-- Which microphone packets of firmware/radio/src/pcm_stream.c the codec board is sent.
use mathlib.Core.List.{append_assoc, Sublist}
use mathlib.Core.List.Sublist
use open_ull_receiver.Base.{
  ℕ, ◌≡◌, refl, ◌∙◌, Bool, Option, List, [], ◌++◌, arith, Bool-cases, inl, inr,
}
use open_ull_receiver.PcmStream.{
  Stream, MicPacket, booted, mic_enable, new_session, pause_for_reconnect, stream_rearm,
  resume_after_reconnect,
}
use open_ull_receiver.PcmStream.Responses.{Wire, exchange, accept_response}
use open_ull_receiver.PcmStream.Queue.{
  IsQueue, contents, heard, ring_same, air_microphone_frame_lem,
}
use open_ull_receiver.PcmStream.Turns.{end_turn, timed}
use open_ull_receiver.PcmStream.Accepts.{accept_response_taken, accept_response_refused}
use open_ull_receiver.PcmStream.Cases.{Ended, begin_turn-Begun, end_turn-Ended}
use open_ull_receiver.PcmStream.Runs.{Past, Run, listed}
use open_ull_receiver.PcmStream.Sends.{Sends, alike, begin_turn-Sends}

-- A response leaves the queue alone.
record HasQueue (s t : Stream) : Type 0 where
  packets : t.packets ≡ s.packets
  written : t.written ≡ s.written
  read_pos : t.read_pos ≡ s.read_pos

exchange-HasQueue : (s : Stream) (w : Wire) → HasQueue s (exchange s w).0
unfolding exchange
exchange-HasQueue s w = ground arith

accept_response-HasQueue :
    (crc : List ℕ → ℕ) (s : Stream) (rx : List ℕ) (session taken : ℕ)
    → HasQueue s (accept_response crc s rx session taken).0
accept_response-HasQueue crc s rx session taken =
    elim (Bool-cases (accept_response crc s rx session taken).1) [
      | inl ok ↦ ground (arith, accept_response_taken crc s rx session taken ok)
      | inr refused ↦ ground (arith, accept_response_refused crc s rx session taken refused)
    ]

then_queue : (s t u : Stream) → HasQueue s t → HasQueue t u → HasQueue s u
then_queue s t u a b = record {
  packets = b.packets ∙ a.packets;
  written = b.written ∙ a.written;
  read_pos = b.read_pos ∙ a.read_pos;
}

Ended-HasQueue :
    (crc : List ℕ → ℕ) (s : Stream) (w : Wire) (taken : ℕ) (u : Stream) (ok : Bool)
    → Ended crc s w taken u ok
    → HasQueue s u
Ended-HasQueue crc s w taken u ok (Ended.resting _) = record {
  packets = refl;
  written = refl;
  read_pos = refl;
}
Ended-HasQueue crc s w taken u ok (Ended.departing _ _) = record {
  packets = refl;
  written = refl;
  read_pos = refl;
}
Ended-HasQueue crc s w taken u ok (Ended.probe_failed _ _ _) =
    let h = exchange-HasQueue s w in
    record { packets = h.packets; written = h.written; read_pos = h.read_pos }
Ended-HasQueue crc s w taken u ok (Ended.transfer_failed _ _ _) =
    let h = exchange-HasQueue s w in
    record { packets = h.packets; written = h.written; read_pos = h.read_pos }
Ended-HasQueue crc s w taken u ok (Ended.probe_done session _ _ _) =
    let h =
      then_queue s (exchange s w).0 (accept_response crc (exchange s w).0 w.rx session taken).0
        (exchange-HasQueue s w)
        (accept_response-HasQueue crc (exchange s w).0 w.rx session taken) in
    record { packets = h.packets; written = h.written; read_pos = h.read_pos }
Ended-HasQueue crc s w taken u ok (Ended.transfer_done session current _ _) =
    let e = exchange-HasQueue s w in
    let t = timed (exchange s w).0 w in
    let h =
      then_queue s t (accept_response crc t w.rx current taken).0
        (record { packets = e.packets; written = e.written; read_pos = e.read_pos })
        (accept_response-HasQueue crc t w.rx current taken) in
    record { packets = h.packets; written = h.written; read_pos = h.read_pos }

-- A step that sends nothing more than these keeps the order.
sends_then :
    (s t : Stream) (r : Option MicPacket) (sent heard : List MicPacket)
    → Sends s t r
    → Sublist (sent ++ contents s) heard
    → Sublist ((sent ++ listed r) ++ contents t) heard
sends_then s t r sent heard a h =
    rw (append_assoc sent (listed r) (contents t))
      (Sublist.trans (Sublist.append (Sublist.refl sent) a.rest) h)

IsQueue-kept :
    (s t : Stream) (sent heard : List MicPacket)
    → HasQueue s t
    → IsQueue s × Sublist (sent ++ contents s) heard
    → IsQueue t × Sublist (sent ++ contents t) heard
IsQueue-kept s t sent heard k (q, h) = (
  ring_same s t q k.packets k.written k.read_pos,
  rw (alike s t k.packets k.written k.read_pos) h,
)

pause-HasQueue : (s : Stream) → HasQueue s (pause_for_reconnect s).0
unfolding pause_for_reconnect
pause-HasQueue s = ground arith

booted-IsQueue : (random : ℕ) → IsQueue (booted random) × (contents (booted random) ≡ [])
unfolding booted
booted-IsQueue random = (
  record { storage = refl; written = omega arith; read_pos = omega arith; fits = omega arith },
  refl,
)

-- In every run the microphone packets that were sent to the codec board, followed by those still
-- queued, are packets that were heard and queued, each once and in the order of their arrival; the
-- queue never holds more than sixteen.
pub Run-Sublist :
    (crc : List ℕ → ℕ) {s : Stream} {p : Past}
    → Run crc s p
    → IsQueue s × Sublist (p.sent ++ contents s) p.heard
unfolding mic_enable new_session pause_for_reconnect stream_rearm resume_after_reconnect
Run-Sublist crc (Run.boot random) =
    let (q, e) = booted-IsQueue random in (q, rw e (Sublist.refl []))
Run-Sublist crc (Run.hears {s} {p} frame seq payload now r) =
    let (q, h) = Run-Sublist crc r in
    let (v, e) = air_microphone_frame_lem s frame seq payload now q in
    (v, rw (e, ← append_assoc) (Sublist.append h (Sublist.refl (heard s frame seq payload now))))
Run-Sublist crc (Run.asks {s} {p} event r) =
    let (q, h) = Run-Sublist crc r in (ring_same s _ q refl refl refl, h)
Run-Sublist crc (Run.enables {s} {p} v r) =
    let (q, h) = Run-Sublist crc r in (ring_same s _ q refl refl refl, h)
Run-Sublist crc (Run.renews {s} {p} r) =
    let (q, h) = Run-Sublist crc r in (ring_same s _ q refl refl refl, h)
Run-Sublist crc (Run.pauses {s} {p} r) =
    IsQueue-kept s (pause_for_reconnect s).0 p.sent p.heard (pause-HasQueue s) (Run-Sublist crc r)
Run-Sublist crc (Run.rearms {s} {p} r) =
    let (q, h) = Run-Sublist crc r in (ring_same s _ q refl refl refl, h)
Run-Sublist crc (Run.resumes {s} {p} r) =
    let (q, h) = Run-Sublist crc r in (ring_same s _ q refl refl refl, h)
Run-Sublist crc (Run.begins {s} {p} t r top low) =
    let (q, h) = Run-Sublist crc r in
    let a = begin_turn-Sends crc s t _ _ q (begin_turn-Begun crc s t) in
    (a.queue, sends_then s _ _ p.sent p.heard a h)
Run-Sublist crc (Run.ends {s} {p} w taken r) =
    IsQueue-kept s (end_turn crc s w taken).0 p.sent p.heard
      (Ended-HasQueue crc s w taken _ _ (end_turn-Ended crc s w taken)) (Run-Sublist crc r)
