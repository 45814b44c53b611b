-- ===== src/PcmStream/Accepts.antt =====
-- What `accept_response` of firmware/radio/src/pcm_stream.c leaves as it is, and when it pushes.
use open_ull_receiver.Base.{
  inc32, ℕ, ◌≡◌, refl, ◌∙◌, Bool, true, false, ◌&&◌, some, List, get_or, arith, Bool-cases, inl,
  inr, if◌then◌else◌, ◌==◌,
}
use open_ull_receiver.AudioSource.{push}
use open_ull_receiver.PcmStream.{Stream}
use open_ull_receiver.PcmStream.Responses.{
  accept_response, accept_taken, accept_mic, accept_play, encoded_frame, answers_previous,
}
use open_ull_receiver.CodecWire.{cw_valid, cw_response, cw_play, cw_reset, any_flag}

-- All but the other counters.
pub record Still (s t : Stream) : Type 0 where
  pub source : t.source ≡ s.source
  pub reconnect : t.reconnect ≡ s.reconnect
  pub mic_active : t.mic_active ≡ s.mic_active
  pub have_previous : t.have_previous ≡ s.have_previous
  pub seq : t.worker.seq ≡ s.worker.seq
  pub packets : t.packets ≡ s.packets
  pub written : t.written ≡ s.written
  pub read_pos : t.read_pos ≡ s.read_pos
  pub drops : t.counters.queue_drops ≡ s.counters.queue_drops

Still-refl : (s : Stream) → Still s s
Still-refl s = record {
  source = refl;
  reconnect = refl;
  mic_active = refl;
  have_previous = refl;
  seq = refl;
  packets = refl;
  written = refl;
  read_pos = refl;
  drops = refl;
}

Still-trans : {s t u : Stream} → Still s t → Still t u → Still s u
Still-trans a b = record {
  source = b.source ∙ a.source;
  reconnect = b.reconnect ∙ a.reconnect;
  mic_active = b.mic_active ∙ a.mic_active;
  have_previous = b.have_previous ∙ a.have_previous;
  seq = b.seq ∙ a.seq;
  packets = b.packets ∙ a.packets;
  written = b.written ∙ a.written;
  read_pos = b.read_pos ∙ a.read_pos;
  drops = b.drops ∙ a.drops;
}

accept_mic-Still : (s : Stream) (rx : List ℕ) (taken : ℕ) → Still s (accept_mic s rx taken)
unfolding accept_mic
accept_mic-Still s rx taken = elim (Bool-cases (any_flag (get_or rx 5 0) 6 && s.mic_active)) [
  | inl some_mic ↦ rw some_mic (record {
    source = refl;
    reconnect = refl;
    mic_active = refl;
    have_previous = refl;
    seq = refl;
    packets = refl;
    written = refl;
    read_pos = refl;
    drops = refl;
  })
  | inr no_mic ↦ rw no_mic (Still-refl s)
]

-- What a response does to the queue of encoded frames: a push, if it says that it holds audio.
pub record Pushes (s : Stream) (rx : List ℕ) (t : Stream) : Type 0 where
  pub reconnect : t.reconnect ≡ s.reconnect
  pub mic_active : t.mic_active ≡ s.mic_active
  pub have_previous : t.have_previous ≡ s.have_previous
  pub seq : t.worker.seq ≡ s.worker.seq
  pub packets : t.packets ≡ s.packets
  pub written : t.written ≡ s.written
  pub read_pos : t.read_pos ≡ s.read_pos
  pub silent :
      any_flag (get_or rx 5 0) cw_play ≡ false
      → (t.source ≡ s.source) × (t.counters.queue_drops ≡ s.counters.queue_drops)
  pub pushed :
      any_flag (get_or rx 5 0) cw_play ≡ true
      → (t.source ≡ (push s.source (some (encoded_frame rx))).0)
        × ((push s.source (some (encoded_frame rx))).1 ≡ true
            → t.counters.queue_drops ≡ s.counters.queue_drops)

accept_play-Pushes : (s : Stream) (rx : List ℕ) → Pushes s rx (accept_play s rx)
unfolding accept_play
accept_play-Pushes s rx = ground arith

Pushes-then : (s : Stream) (rx : List ℕ) (t u : Stream) → Pushes s rx t → Still t u → Pushes s rx u
Pushes-then s rx t u a b = ground arith

then-Pushes : (s : Stream) (rx : List ℕ) (t u : Stream) → Still s t → Pushes t rx u → Pushes s rx u
then-Pushes s rx t u a b = ground arith

errors-Still :
    (s : Stream) (good : Bool)
    → let c = s.counters in
      Still s (
        if good
        then s
        else record s { counters = record c { codec_errors = inc32 c.codec_errors } })
errors-Still s true = Still-refl s
errors-Still s false = record {
  source = refl;
  reconnect = refl;
  mic_active = refl;
  have_previous = refl;
  seq = refl;
  packets = refl;
  written = refl;
  read_pos = refl;
  drops = refl;
}

resets-Still :
    (s : Stream) (reset : Bool)
    → let c = s.counters in
      Still s (
        if reset then record s { counters = record c { reset_count = inc32 c.reset_count } } else s)
resets-Still s true = record {
  source = refl;
  reconnect = refl;
  mic_active = refl;
  have_previous = refl;
  seq = refl;
  packets = refl;
  written = refl;
  read_pos = refl;
  drops = refl;
}
resets-Still s false = Still-refl s

accept_taken-Pushes : (s : Stream) (rx : List ℕ) (taken : ℕ) → Pushes s rx (accept_taken s rx taken)
unfolding accept_taken
accept_taken-Pushes s rx taken =
    let c = s.counters in
    let s1 =
      if get_or rx 6 0 == 0
      then s
      else record s { counters = record c { codec_errors = inc32 c.codec_errors } } in
    let s2 = accept_mic (accept_play s1 rx) rx taken in
    then-Pushes s rx s1 (accept_taken s rx taken) (errors-Still s (get_or rx 6 0 == 0)) (
      Pushes-then s1 rx s2 (accept_taken s rx taken)
        (Pushes-then s1 rx (accept_play s1 rx) s2 (accept_play-Pushes s1 rx)
          (accept_mic-Still (accept_play s1 rx) rx taken))
        (resets-Still s2 (any_flag (get_or rx 5 0) cw_reset)))

-- A response is accepted only if it is valid and answers the previous request.
pub accept_response_taken :
    (crc : List ℕ → ℕ) (s : Stream) (rx : List ℕ) (session taken : ℕ)
    → let (t, ok) = accept_response crc s rx session taken in
      ok ≡ true
      → (cw_valid crc rx cw_response ≡ true)
        × (s.have_previous ≡ true)
        × (answers_previous s rx ≡ true)
        × Pushes s rx t
unfolding accept_response
accept_response_taken crc s rx session taken = ground (arith, accept_taken-Pushes s rx taken)

-- A refused one changes nothing but the counters of errors.
pub accept_response_refused :
    (crc : List ℕ → ℕ) (s : Stream) (rx : List ℕ) (session taken : ℕ)
    → let (t, ok) = accept_response crc s rx session taken in ok ≡ false → Still s t
unfolding accept_response
accept_response_refused crc s rx session taken = ground arith

pub accept_response-seq :
    (crc : List ℕ → ℕ) (s : Stream) (rx : List ℕ) (session taken : ℕ)
    → (accept_response crc s rx session taken).0.worker.seq ≡ s.worker.seq
accept_response-seq crc s rx session taken =
    elim (Bool-cases (accept_response crc s rx session taken).1) [
      | inl ok ↦ (accept_response_taken crc s rx session taken ok).3.seq
      | inr refused ↦ (accept_response_refused crc s rx session taken refused).seq
    ]
