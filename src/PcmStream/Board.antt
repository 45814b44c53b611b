-- ===== src/PcmStream/Board.antt =====
-- The worker of firmware/radio/src/pcm_stream.c and the codec board of firmware/codec/src/main.c, over
-- a wire that corrupts nothing.
use open_ull_receiver.Base.{
  ℕ, ◌+◌, ◌≤◌, ◌<◌, ◌^◌, ◌%◌, ◌≡◌, ◌⊎◌, inl, inr, refl, sym, ap, ◌∙◌, true, false, ◌&&◌, Option,
  none, List, [], get_or, arith, Bool-cases,
}
use open_ull_receiver.SpiFrame.{get32_at}
use open_ull_receiver.CodecSlave.{Codecs, Slave, slave_process, is_repeated}
use open_ull_receiver.CodecSlave.Audio.{slave_process-Fairly}
use open_ull_receiver.PcmStream.{Stream, MicPacket, Phase}
use open_ull_receiver.PcmStream.Responses.{Wire, exchange}
use open_ull_receiver.PcmStream.Turns.{WorkerTurn, enter_pause, probe, transfer, plays}
use open_ull_receiver.PcmStream.Beside.{transfer-Sent}
use open_ull_receiver.PcmStream.Cases.{Begun}
use open_ull_receiver.PcmStream.Written.{flags_read, seq_read, flags_of-lt}
use open_ull_receiver.PcmStream.Due.{audio, is_busy}
use open_ull_receiver.PcmStream.Runs.{Past, Run}

-- A request in the exchange that the board can read.
pub record IsRequest (s : Stream) : Type 0 where
  pub number : get32_at 12 s.tx ≡ s.worker.seq
  pub flags : get_or s.tx 5 0 < 256

under : {a b : ℕ} → a ≡ b → b < 256 → a < 256
under e h = omega (arith, e, h)

probe-IsRequest : (crc : List ℕ → ℕ) (s : Stream) → IsRequest (probe crc s)
unfolding probe
probe-IsRequest crc s =
    let low : (s.worker.seq + 1) % 2 ^ 32 < 2 ^ 32 = omega arith in
    record {
      number = seq_read crc 0 _ _ false [] none low;
      flags = under (flags_read crc 0 _ _ false [] none) (omega arith);
    }

transfer-IsRequest :
    (crc : List ℕ → ℕ) (s : Stream) (t : WorkerTurn) → IsRequest (transfer crc s t).0
unfolding transfer
transfer-IsRequest crc s t =
    let low : (s.worker.seq + 1) % 2 ^ 32 < 2 ^ 32 = omega arith in
    let e = transfer-Sent crc s t in
    record {
      number = seq_read crc _ _ _ (plays s t) t.pcm _ low ∙ sym e.seq;
      flags = under (flags_read crc _ _ _ (plays s t) t.pcm _) (flags_of-lt (plays s t) _ _);
    }

-- An exchange over the wire: the worker gets the board's frame, and the board the worker's.
module _ {E D : Type 0} (codecs : Codecs E D) (crc : List ℕ → ℕ) where
  abbrev pub Joined : Stream → Wire → Slave E D → Slave E D → Type 0
  Joined s w b c =
      ((is_busy s.phase && (exchange s w).1) ≡ true
        → (w.rx ≡ b.tx) × (c ≡ slave_process codecs crc b s.tx 10240))
      × ((is_busy s.phase && (exchange s w).1) ≡ false → c ≡ b)

  -- A run of the worker with a board that started when it did, which is now in this state.
  abbrev pub Wired : {s : Stream} {p : Past} → Run crc s p → Slave E D → Type 0
  Wired (Run.boot random) b = b.have_cached ≡ false
  Wired (Run.hears frame seq payload now r) b = Wired r b
  Wired (Run.asks event r) b = Wired r b
  Wired (Run.enables v r) b = Wired r b
  Wired (Run.renews r) b = Wired r b
  Wired (Run.pauses r) b = Wired r b
  Wired (Run.rearms r) b = Wired r b
  Wired (Run.resumes r) b = Wired r b
  Wired (Run.begins t r top low) b = Wired r b
  Wired (Run.ends {s} w taken r) c = (b : Slave E D) × Wired r b × Joined s w b c

  -- The board has answered the previous request, and no later one.
  pub record Replied (s : Stream) (previous : List ℕ) (b : Slave E D) : Type 0 where
    pub fair : s.have_previous ≡ true → audio b.tx ≡ true → audio previous ≡ true
    pub old : b.have_cached ≡ true → b.last_seq ≤ s.worker.seq
    pub behind : b.have_cached ≡ true → is_busy s.phase ≡ true → b.last_seq < s.worker.seq
    pub request : is_busy s.phase ≡ true → IsRequest s
    pub low : s.worker.seq < 2 ^ 32

  still_have :
      (s u : Stream)
      → (u.have_previous ≡ s.have_previous) ⊎ (u.have_previous ≡ false)
      → u.have_previous ≡ true
      → s.have_previous ≡ true
  still_have s u (inl e) have = sym e ∙ have
  still_have s u (inr e) have = absurd (ground arith)

  -- Steps without a request or an answer.
  pub rested :
      (s u : Stream) (previous : List ℕ) (b : Slave E D)
      → (u.have_previous ≡ s.have_previous) ⊎ (u.have_previous ≡ false)
      → u.worker.seq ≡ s.worker.seq
      → (is_busy u.phase ≡ false) ⊎ ((u.phase ≡ s.phase) × (u.tx ≡ s.tx))
      → Replied s previous b
      → Replied u previous b
  rested s u previous b hp e (inl idle) h = record {
    fair = λ have. h.fair (still_have s u hp have);
    old = λ have. omega (arith, e, h.old have);
    behind = λ have busy. absurd (ground arith);
    request = λ busy. absurd (ground arith);
    low = omega (arith, e, h.low);
  }
  rested s u previous b hp e (inr (p, t)) h =
      let same : is_busy u.phase ≡ is_busy s.phase = ap is_busy p in
      record {
        fair = λ have. h.fair (still_have s u hp have);
        old = λ have. omega (arith, e, h.old have);
        behind = λ have busy. omega (arith, e, h.behind have (sym same ∙ busy));
        request = λ busy.
            let q = h.request (sym same ∙ busy) in
            record { number = rw (t, e) q.number; flags = rw t q.flags };
        low = omega (arith, e, h.low);
      }

  -- A new request has a number that the board has not seen.
  asked :
      (s u : Stream) (previous : List ℕ) (b : Slave E D)
      → s.worker.seq + 1 < 2 ^ 32
      → u.have_previous ≡ s.have_previous
      → u.worker.seq ≡ (s.worker.seq + 1) % 2 ^ 32
      → IsRequest u
      → Replied s previous b
      → Replied u previous b
  asked s u previous b low hp e q h = record {
    fair = λ have. h.fair (sym hp ∙ have);
    old = λ have. omega (arith, e, low, h.old have);
    behind = λ have busy. omega (arith, e, low, h.old have);
    request = λ busy. q;
    low = omega (arith, e, low);
  }

  pub begun-Replied :
      (s : Stream) (t : WorkerTurn) (u : Stream) (r : Option MicPacket) (previous : List ℕ)
      (b : Slave E D)
      → s.phase ≡ Phase.top
      → s.worker.seq + 1 < 2 ^ 32
      → Begun crc s t u r
      → Replied s previous b
      → Replied u previous b
  unfolding enter_pause probe
  begun-Replied s t u r previous b top low (Begun.pausing _) h =
      rested s u previous b (inr refl) refl (inl refl) h
  begun-Replied s t u r previous b top low (Begun.probing _) h =
      asked s u previous b low refl refl (probe-IsRequest crc s) h
  begun-Replied s t u r previous b top low Begun.idling h =
      rested s u previous b (inl refl) refl (inl (ap is_busy top)) h
  begun-Replied s t u r previous b top low Begun.delaying h =
      rested s u previous b (inl refl) refl (inl (ap is_busy top)) h
  begun-Replied s t u r previous b top low (Begun.transferring _) h =
      let v = record s { mic_active = s.mic_enabled } in
      let e = transfer-Sent crc v t in
      asked s u previous b low e.have_previous e.seq (transfer-IsRequest crc v t) h

  -- The board's answer to the request in the exchange.
  pub answered :
      (s u : Stream) (previous : List ℕ) (b c : Slave E D)
      → c ≡ slave_process codecs crc b s.tx 10240
      → is_busy s.phase ≡ true
      → is_busy u.phase ≡ false
      → u.worker.seq ≡ s.worker.seq
      → Replied s previous b
      → Replied u s.tx c
  answered s u previous b c e busy idle same h =
      let q = h.request busy in
      let fresh : is_repeated b s.tx ≡ false = elim (Bool-cases b.have_cached) [
        | inl have ↦ ground (arith, h.behind have busy, q.number)
        | inr none_yet ↦ ground arith
      ] in
      let f = slave_process-Fairly codecs crc b s.tx 10240 q.flags fresh in
      rw e (record {
        fair = λ _. f.fair;
        old = λ have. elim (f.number have) [
          | inl now ↦ omega (arith, now, q.number, same)
          | inr (was, before) ↦ omega (arith, before, same, h.old was)
        ];
        behind = λ have on. absurd (ground arith);
        request = λ on. absurd (ground arith);
        low = omega (arith, same, h.low);
      })
