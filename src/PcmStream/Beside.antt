-- ===== src/PcmStream/Beside.antt =====
-- What the steps of firmware/radio/src/pcm_stream.c leave as it is.
use open_ull_receiver.Base.{
  ℕ, zero, suc, ◌+◌, ◌%◌, ◌≡◌, refl, ◌∙◌, Bool, true, false, List, get_or, sub32, inc32, u32, arith,
  Bool-cases, inl, inr, if◌then◌else◌,
}
use open_ull_receiver.PcmStream.{Stream, no_packet}
use open_ull_receiver.PcmStream.Responses.{Wire, exchange}
use open_ull_receiver.PcmStream.Requests.{is_stale, is_duplicate, next_packet, take_packet}
use open_ull_receiver.PcmStream.Turns.{WorkerTurn, transfer, plays, began, timed}

-- All but the counters, the microphone's queue and its history.
pub record Beside (s t : Stream) : Type 0 where
  pub source : t.source ≡ s.source
  pub reconnect : t.reconnect ≡ s.reconnect
  pub ready : t.ready ≡ s.ready
  pub mic_active : t.mic_active ≡ s.mic_active
  pub mic_enabled : t.mic_enabled ≡ s.mic_enabled
  pub have_previous : t.have_previous ≡ s.have_previous
  pub previous_session : t.previous_session ≡ s.previous_session
  pub previous_seq : t.previous_seq ≡ s.previous_seq
  pub drops : t.counters.queue_drops ≡ s.counters.queue_drops
  pub seq : t.worker.seq ≡ s.worker.seq

pub Beside-refl : (s : Stream) → Beside s s
Beside-refl s = record {
  source = refl;
  reconnect = refl;
  ready = refl;
  mic_active = refl;
  mic_enabled = refl;
  have_previous = refl;
  previous_session = refl;
  previous_seq = refl;
  drops = refl;
  seq = refl;
}

pub Beside-trans : {s t u : Stream} → Beside s t → Beside t u → Beside s u
Beside-trans a b = record {
  source = b.source ∙ a.source;
  reconnect = b.reconnect ∙ a.reconnect;
  ready = b.ready ∙ a.ready;
  mic_active = b.mic_active ∙ a.mic_active;
  mic_enabled = b.mic_enabled ∙ a.mic_enabled;
  have_previous = b.have_previous ∙ a.have_previous;
  previous_session = b.previous_session ∙ a.previous_session;
  previous_seq = b.previous_seq ∙ a.previous_seq;
  drops = b.drops ∙ a.drops;
  seq = b.seq ∙ a.seq;
}

-- The same for a first step that touches nothing else.
pub next_packet-Beside : (n : ℕ) (s : Stream) (now : ℕ) → Beside s (next_packet n s now).0
unfolding next_packet
next_packet-Beside zero s now = Beside-refl s
next_packet-Beside (suc n) s now =
    let p = get_or s.packets (s.read_pos % 16) no_packet in
    let c = s.counters in
    let t = record s { read_pos = inc32 s.read_pos } in
    let a = record t { counters = record c { mic_dropped = inc32 c.mic_dropped } } in
    let b = record t { counters = record c { duplicates = inc32 c.duplicates } } in
    let to_a : Beside s a = record {
      source = refl;
      reconnect = refl;
      ready = refl;
      mic_active = refl;
      mic_enabled = refl;
      have_previous = refl;
      previous_session = refl;
      previous_seq = refl;
      drops = refl;
      seq = refl;
    } in
    let to_b : Beside s b = record {
      source = refl;
      reconnect = refl;
      ready = refl;
      mic_active = refl;
      mic_enabled = refl;
      have_previous = refl;
      previous_session = refl;
      previous_seq = refl;
      drops = refl;
      seq = refl;
    } in
    elim (Bool-cases (is_stale s now p)) [
      | inl old ↦ rw old (Beside-trans to_a (next_packet-Beside n a now))
      | inr new ↦ elim (Bool-cases (is_duplicate s p)) [
        | inl twice ↦ rw (new, twice) (Beside-trans to_b (next_packet-Beside n b now))
        | inr once ↦
            rw (new, once)
              (record {
                source = refl;
                reconnect = refl;
                ready = refl;
                mic_active = refl;
                mic_enabled = refl;
                have_previous = refl;
                previous_session = refl;
                previous_seq = refl;
                drops = refl;
                seq = refl;
              })
      ]
    ]

pub take_packet-Beside :
    (s : Stream) (capture : Bool) (now : ℕ) → Beside s (take_packet s capture now).0
unfolding take_packet
take_packet-Beside s true now = next_packet-Beside (sub32 s.written s.read_pos) s now
take_packet-Beside s false now = record {
  source = refl;
  reconnect = refl;
  ready = refl;
  mic_active = refl;
  mic_enabled = refl;
  have_previous = refl;
  previous_session = refl;
  previous_seq = refl;
  drops = refl;
  seq = refl;
}

-- What an exchange leaves as it is: all but its counters and the fault.
pub exchange-Beside : (s : Stream) (w : Wire) → Beside s (exchange s w).0
unfolding exchange
exchange-Beside s w = ground arith

pub timed-Beside : (s : Stream) (w : Wire) → Beside s (timed (exchange s w).0 w)
timed-Beside s w =
    let b = exchange-Beside s w in
    record {
      source = b.source;
      reconnect = b.reconnect;
      ready = b.ready;
      mic_active = b.mic_active;
      mic_enabled = b.mic_enabled;
      have_previous = b.have_previous;
      previous_session = b.previous_session;
      previous_seq = b.previous_seq;
      drops = b.drops;
      seq = b.seq;
    }

-- What sending a request leaves as it is.
pub record Sent (s u : Stream) : Type 0 where
  pub source : u.source ≡ s.source
  pub reconnect : u.reconnect ≡ s.reconnect
  pub have_previous : u.have_previous ≡ s.have_previous
  pub previous_seq : u.previous_seq ≡ s.previous_seq
  pub drops : u.counters.queue_drops ≡ s.counters.queue_drops
  pub seq : u.worker.seq ≡ inc32 s.worker.seq

pub transfer-Sent : (crc : List ℕ → ℕ) (s : Stream) (t : WorkerTurn) → Sent s (transfer crc s t).0
unfolding transfer
transfer-Sent crc s t =
    let c = s.counters in
    let d =
      if plays s t then record c { playback_frames = u32 (c.playback_frames + t.got) } else c in
    let s1 = record s { worker = began s t; counters = d } in
    let b = take_packet-Beside s1 s.mic_enabled t.now in
    let kept : d.queue_drops ≡ c.queue_drops = ground arith in
    record {
      source = b.source;
      reconnect = b.reconnect;
      have_previous = b.have_previous;
      previous_seq = b.previous_seq;
      drops = b.drops ∙ kept;
      seq = b.seq;
    }
