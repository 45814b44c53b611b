-- ===== src/PcmStream/Sends.antt =====
-- What a turn of firmware/radio/src/pcm_stream.c does to the queue of microphone packets.
use mathlib.Core.List.{Sublist}
use mathlib.Core.List.Sublist
use open_ull_receiver.Base.{
  ℕ, ◌+◌, ◌%◌, ◌≡◌, refl, ap, ap₂, ◌∙◌, Bool, true, false, Option, none, List, [], ◌∷◌, ◌++◌, sub32,
  u32, arith, Bool-cases, inl, inr, window, if◌then◌else◌, length,
}
use open_ull_receiver.PcmStream.{Stream, MicPacket, no_packet}
use open_ull_receiver.PcmStream.Queue.{IsQueue, queued, contents, ring_same}
use open_ull_receiver.PcmStream.Requests.{take_packet}
use open_ull_receiver.PcmStream.Turns.{WorkerTurn, enter_pause, probe, transfer, began, plays}
use open_ull_receiver.PcmStream.Microphone.{
  next_packet-first_kept, first_kept, behind_kept, kept_by,
}
use open_ull_receiver.PcmStream.Cases.{Begun}
use open_ull_receiver.PcmStream.Runs.{listed}

-- The kept packet and those behind it are some of the queue, in its order.
kept-Sublist :
    (keep : MicPacket → Bool) (ps : List MicPacket)
    → Sublist (listed (first_kept keep ps) ++ behind_kept keep ps) ps
kept-Sublist keep [] = Sublist.refl []
kept-Sublist keep (p ∷ ps) = elim (Bool-cases (keep p)) [
  | inl kept ↦ rw kept (Sublist.refl (p ∷ ps))
  | inr passed ↦ rw passed (Sublist.cons p (kept-Sublist keep ps))
]

empty-Sublist : (ps : List MicPacket) → Sublist [] ps
empty-Sublist [] = Sublist.refl []
empty-Sublist (p ∷ ps) = Sublist.cons p (empty-Sublist ps)

-- What a step does to the queue: it sends this packet, if any, and keeps some of the others.
pub record Sends (s t : Stream) (r : Option MicPacket) : Type 0 where
  pub queue : IsQueue t
  pub rest : Sublist (listed r ++ contents t) (contents s)

emptied :
    (s t : Stream)
    → IsQueue s
    → t.packets ≡ s.packets
    → t.written ≡ s.written
    → t.read_pos ≡ s.written
    → Sends s t none
emptied s t q a b c =
    let gone : queued t ≡ 0 = omega (arith, b, c, q.written) in
    let nothing : contents t ≡ [] =
      ap (λ (n : ℕ). window no_packet 16 t.packets (t.read_pos % 16) n) gone in
    record {
      queue = record {
        storage = ap (λ (l : List MicPacket). length l) a ∙ q.storage;
        written = omega (arith, b, q.written);
        read_pos = omega (arith, c, q.written);
        fits = omega (arith, gone);
      };
      rest = rw nothing (empty-Sublist (contents s));
    }

pub alike :
    (s t : Stream)
    → t.packets ≡ s.packets
    → t.written ≡ s.written
    → t.read_pos ≡ s.read_pos
    → contents t ≡ contents s
alike s t a b c =
    ap₂ (λ (w r : ℕ). window no_packet 16 t.packets (r % 16) (sub32 w r)) b c
    ∙ ap (λ (l : List MicPacket). window no_packet 16 l (s.read_pos % 16) (queued s)) a

same :
    (s t : Stream)
    → IsQueue s
    → t.packets ≡ s.packets
    → t.written ≡ s.written
    → t.read_pos ≡ s.read_pos
    → Sends s t none
same s t q a b c = record {
  queue = ring_same s t q a b c;
  rest = rw (alike s t a b c) (Sublist.refl (contents s));
}

take_packet-Sends :
    (s : Stream) (capture : Bool) (now : ℕ)
    → IsQueue s
    → Sends s (take_packet s capture now).0 (take_packet s capture now).1
unfolding take_packet
take_packet-Sends s false now q = emptied s _ q refl refl refl
take_packet-Sends s true now q =
    let (r, rest, valid) = next_packet-first_kept (queued s) s now q refl in
    record { queue = valid; rest = rw (r, rest) (kept-Sublist (kept_by s now) (contents s)) }

transfer-Sends :
    (crc : List ℕ → ℕ) (s : Stream) (t : WorkerTurn)
    → IsQueue s
    → Sends s (transfer crc s t).0 (transfer crc s t).1
unfolding transfer
transfer-Sends crc s t q =
    let c = s.counters in
    let s1 = record s {
      worker = began s t;
      counters =
          if plays s t then record c { playback_frames = u32 (c.playback_frames + t.got) } else c;
    } in
    let took = take_packet-Sends s1 s.mic_enabled t.now (ring_same s s1 q refl refl refl) in
    record {
      queue = ring_same (take_packet s1 s.mic_enabled t.now).0 _ took.queue refl refl refl;
      rest = took.rest;
    }

pub begin_turn-Sends :
    (crc : List ℕ → ℕ) (s : Stream) (t : WorkerTurn) (u : Stream) (r : Option MicPacket)
    → IsQueue s
    → Begun crc s t u r
    → Sends s u r
unfolding enter_pause probe
begin_turn-Sends crc s t u r q (Begun.pausing _) = emptied s u q refl refl refl
begin_turn-Sends crc s t u r q (Begun.probing _) = same s u q refl refl refl
begin_turn-Sends crc s t u r q Begun.idling = same s u q refl refl refl
begin_turn-Sends crc s t u r q Begun.delaying = same s u q refl refl refl
begin_turn-Sends crc s t u r q (Begun.transferring _) =
    let s1 = record s { mic_active = s.mic_enabled } in
    let h = transfer-Sends crc s1 t (ring_same s s1 q refl refl refl) in
    record { queue = h.queue; rest = h.rest }
