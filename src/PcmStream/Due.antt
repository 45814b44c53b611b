-- ===== src/PcmStream/Due.antt =====
-- The answers that firmware/radio/src/pcm_stream.c is owed, and what sending a request adds to them.
use open_ull_receiver.Base.{
  ℕ, ◌+◌, ◌≤◌, ◌<◌, ◌≡◌, refl, ap, ◌∙◌, Bool, true, false, ◌&&◌, Option, none, List, [], get_or,
  arith, if◌then◌else◌,
}
use open_ull_receiver.AudioSource.{Source, available}
use open_ull_receiver.CodecWire.{cw_valid, cw_response, cw_play, any_flag}
use open_ull_receiver.PcmStream.{Stream, MicPacket, Phase}
use open_ull_receiver.PcmStream.Responses.{exchange, answers_previous}
use open_ull_receiver.PcmStream.Turns.{WorkerTurn, enter_pause, probe, transfer, plays}
use open_ull_receiver.PcmStream.Beside.{transfer-Sent}
use open_ull_receiver.PcmStream.Cases.{Begun}
use open_ull_receiver.PcmStream.Room.{HasRoom}
use open_ull_receiver.PcmStream.Written.{flags_read, plays_flag}
use open_ull_receiver.PcmStream.Runs.{Past, Run}

-- Whether a frame that counts asks for audio, or says that it holds some.
abbrev pub audio : List ℕ → Bool
audio f = any_flag (get_or f 5 0) cw_play

abbrev pub due : Bool → List ℕ → ℕ
due counts f = if counts && audio f then 1 else 0

abbrev pub is_busy : Phase → Bool
is_busy Phase.top = false
is_busy Phase.waiting = false
is_busy (Phase.probing x) = true
is_busy (Phase.transferring x) = true

-- In each exchange of this run the codec board says that a response holds encoded audio only if the request that it
-- answers asked for that.
abbrev pub Honest : (crc : List ℕ → ℕ) {s : Stream} {p : Past} → Run crc s p → Type 0
Honest crc (Run.boot random) = Unit
Honest crc (Run.hears frame seq payload now r) = Honest crc r
Honest crc (Run.asks event r) = Honest crc r
Honest crc (Run.enables v r) = Honest crc r
Honest crc (Run.renews r) = Honest crc r
Honest crc (Run.pauses r) = Honest crc r
Honest crc (Run.rearms r) = Honest crc r
Honest crc (Run.resumes r) = Honest crc r
Honest crc (Run.begins t r top low) = Honest crc r
Honest crc (Run.ends {s} {p} w taken r) =
    Honest crc r
    × ((is_busy s.phase && (exchange s w).1) ≡ true
        → cw_valid crc w.rx cw_response ≡ true
        → s.have_previous ≡ true
        → answers_previous s w.rx ≡ true
        → audio w.rx ≡ true
        → audio p.previous ≡ true)

-- There is room for the answers to the previous request and to the present one.
pub record Margin (s : Stream) (previous : List ℕ) : Type 0 where
  pub room : HasRoom s.source (due s.have_previous previous + due (is_busy s.phase) s.tx)
  pub drops : s.counters.queue_drops ≡ 0

pub less : (s : Source) (n m : ℕ) → n ≤ m → HasRoom s m → HasRoom s n
less s n m l h = record { valid = h.valid; room = omega (arith, l, h.room) }

-- The same streams in what counts here.
pub kept :
    (s t : Stream) (previous : List ℕ)
    → t.source ≡ s.source
    → t.counters.queue_drops ≡ s.counters.queue_drops
    → due t.have_previous previous + due (is_busy t.phase) t.tx
      ≤ due s.have_previous previous + due (is_busy s.phase) s.tx
    → Margin s previous
    → Margin t previous
kept s t previous a b l h = record { room = rw a (less s.source _ _ l h.room); drops = b ∙ h.drops }

transfer-audio :
    (crc : List ℕ → ℕ) (s : Stream) (t : WorkerTurn) → audio (transfer crc s t).0.tx ≡ plays s t
unfolding transfer
transfer-audio crc s t =
    ap (λ (x : ℕ). any_flag x cw_play) (flags_read crc _ _ _ (plays s t) t.pcm _)
    ∙ plays_flag (plays s t) _ _

plays-available : (s : Stream) (t : WorkerTurn) → plays s t ≡ true → available s.source < 3
unfolding plays
plays-available s t h = ground arith

pub transfer-busy :
    (crc : List ℕ → ℕ) (s : Stream) (t : WorkerTurn) → is_busy (transfer crc s t).0.phase ≡ true
unfolding transfer
transfer-busy crc s t = refl

transfer-Margin :
    (crc : List ℕ → ℕ) (s : Stream) (t : WorkerTurn) (previous : List ℕ)
    → s.phase ≡ Phase.top
    → Margin s previous
    → Margin (transfer crc s t).0 previous
transfer-Margin crc s t previous top h =
    let u = (transfer crc s t).0 in
    let e = transfer-Sent crc s t in
    let idle : is_busy s.phase ≡ false = ap is_busy top in
    let room : available s.source + (due u.have_previous previous + due (is_busy u.phase) u.tx)
        ≤ 4 =
      ground (
        arith,
        e.have_previous,
        transfer-busy crc s t,
        transfer-audio crc s t,
        plays-available s t,
        h.room.room,
      ) in
    record {
      room = rw e.source (record { valid = h.room.valid; room = room });
      drops = e.drops ∙ h.drops;
    }

pub begun-Margin :
    (crc : List ℕ → ℕ) (s : Stream) (t : WorkerTurn) (u : Stream) (r : Option MicPacket)
    (previous : List ℕ)
    → s.phase ≡ Phase.top
    → Margin s previous
    → Begun crc s t u r
    → Margin u previous
unfolding enter_pause probe
begun-Margin crc s t u r previous top h (Begun.pausing _) =
    kept s u previous refl refl (omega arith) h
begun-Margin crc s t u r previous top h (Begun.probing _) =
    let idle : audio u.tx ≡ false =
      ap (λ (x : ℕ). any_flag x cw_play) (flags_read crc 0 _ _ false [] none) in
    kept s u previous refl refl (ground (arith, idle)) h
begun-Margin crc s t u r previous top h Begun.idling = kept s u previous refl refl (omega arith) h
begun-Margin crc s t u r previous top h Begun.delaying = kept s u previous refl refl (omega arith) h
begun-Margin crc s t u r previous top h (Begun.transferring _) =
    transfer-Margin crc (record s { mic_active = s.mic_enabled }) t previous top
      (kept s _ previous refl refl (omega arith) h)
