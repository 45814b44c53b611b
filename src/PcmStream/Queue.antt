-- ===== src/PcmStream/Queue.antt =====
-- The microphone packets queued in firmware/radio/src/pcm_stream.c, oldest first.
use open_ull_receiver.Base.{
  ℕ, suc, ◌%◌, ◌^◌, ◌≤◌, ◌<◌, ◌≡◌, ap, ap₂, ◌∙◌, not, ◌&&◌, List, [], ◌∷◌, ◌++◌, length, length-set,
  get_or, set, sub32, inc32, u32, arith, leb, if◌then◌else◌, window, window_append,
}
use mathlib.Core.List.{append-nil}
use open_ull_receiver.PcmStream.{Stream, MicPacket, queue_size, no_packet, air_microphone_frame}

pub record IsQueue (s : Stream) : Type 0 where
  pub storage : length s.packets ≡ 16
  pub written : s.written < 2 ^ 32
  pub read_pos : s.read_pos < 2 ^ 32
  pub fits : sub32 s.written s.read_pos ≤ 16

pub ring_same :
    (s t : Stream)
    → IsQueue s
    → t.packets ≡ s.packets
    → t.written ≡ s.written
    → t.read_pos ≡ s.read_pos
    → IsQueue t
ring_same s t q a b c = record {
  storage = ap (λ (l : List MicPacket). length l) a ∙ q.storage;
  written = omega (arith, b, q.written);
  read_pos = omega (arith, c, q.read_pos);
  fits = omega (arith, b, c, q.fits);
}

abbrev pub queued : Stream → ℕ
queued s = sub32 s.written s.read_pos

abbrev pub contents : Stream → List MicPacket
contents s = window no_packet queue_size s.packets (s.read_pos % queue_size) (queued s)

-- The packet made of what is heard.
abbrev pub packet_heard : Stream → ℕ → ℕ → List ℕ → ℕ → MicPacket
packet_heard s frame seq payload now = record {
  frame = frame;
  epoch = s.epoch;
  at_us = u32 now;
  seq = seq;
  payload = payload;
}

-- The packet that a call of `ull_air_microphone_frame` queues, if it does.
abbrev pub heard : Stream → ℕ → ℕ → List ℕ → ℕ → List MicPacket
heard s frame seq payload now =
    if s.mic_active && not (leb queue_size (queued s))
    then packet_heard s frame seq payload now ∷ []
    else []

-- A packet written behind those in the queue.
pushed :
    (packets : List MicPacket) (p : MicPacket) (written read : ℕ)
    → length packets ≡ 16
    → written < 2 ^ 32
    → read < 2 ^ 32
    → sub32 written read < 16
    → window no_packet 16 (set packets (written % 16) p) (read % 16) (sub32 (inc32 written) read)
      ≡ window no_packet 16 packets (read % 16) (sub32 written read) ++ (p ∷ [])
pushed packets p written read l w r h =
    ap (λ (n : ℕ). window no_packet 16 (set packets (written % 16) p) (read % 16) n)
      {y = suc (sub32 written read)} (omega arith)
    ∙ window_append no_packet 16 packets p (sub32 written read) (read % 16) (written % 16) l
        (omega arith) (omega arith) (ground arith)

pub air_microphone_frame_lem :
    (s : Stream) (frame seq : ℕ) (payload : List ℕ) (now : ℕ)
    → IsQueue s
    → let t = air_microphone_frame s frame seq payload now in
      IsQueue t × (contents t ≡ contents s ++ heard s frame seq payload now)
unfolding air_microphone_frame
air_microphone_frame_lem s frame seq payload now q =
    let p = packet_heard s frame seq payload now in
    ground (
      arith,
      length-set s.packets (s.written % 16) p,
      append-nil (contents s),
      pushed s.packets p s.written s.read_pos q.storage q.written q.read_pos,
    )

-- The oldest packet, and those behind it.
popped :
    (packets : List MicPacket) (written read n : ℕ)
    → written < 2 ^ 32
    → read < 2 ^ 32
    → sub32 written read ≡ suc n
    → window no_packet 16 packets (read % 16) (sub32 written read)
      ≡ get_or packets (read % 16) no_packet
        ∷ window no_packet 16 packets (inc32 read % 16) (sub32 written (inc32 read))
popped packets written read n w r e =
    ap (λ (k : ℕ). window no_packet 16 packets (read % 16) k) e
    ∙ ap (λ (l : List MicPacket). get_or packets (read % 16) no_packet ∷ l)
        (ap₂ (λ (a k : ℕ). window no_packet 16 packets a k) (ground arith) (omega arith))

-- Taking the oldest packet off.
pub contents_next :
    (s : Stream) (n : ℕ)
    → IsQueue s
    → queued s ≡ suc n
    → let t = record s { read_pos = inc32 s.read_pos } in
      IsQueue t
      × (queued t ≡ n)
      × (contents s ≡ get_or s.packets (s.read_pos % 16) no_packet ∷ contents t)
contents_next s n q e = (
  record {
    storage = q.storage;
    written = q.written;
    read_pos = omega arith;
    fits = omega (arith, q.fits, q.written, q.read_pos);
  },
  omega (arith, q.fits, q.written, q.read_pos),
  popped s.packets s.written s.read_pos n q.written q.read_pos e,
)
