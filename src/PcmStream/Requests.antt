-- ===== src/PcmStream/Requests.antt =====
-- The requests of `run` in firmware/radio/src/pcm_stream.c: the choice of the microphone packet, and the
-- frame.
use open_ull_receiver.Base.{
  ℕ, zero, suc, ◌+◌, ◌%◌, u32, sub32, inc32, Bool, true, false, not, ◌&&◌, ◌||◌, Option, none, some,
  List, get_or, put_at, ltb, ◌==◌, if◌then◌else◌,
}
use open_ull_receiver.AirSession.{put32}
use open_ull_receiver.CodecWire.{
  cw_begin, cw_seal, cw_request, cw_play, cw_mic, cw_reset, cw_play_in, cw_mic_in,
}
use open_ull_receiver.PcmStream.{MicPacket, Stream, queue_size, no_packet}

-- A packet is dropped for its epoch or its age, or as a repetition of the last one that was sent: the same frame,
-- or the same sequence number less than 16 frames on.
abbrev pub is_stale : Stream → ℕ → MicPacket → Bool
is_stale s now p = not (p.epoch == s.epoch) || ltb 40000 (sub32 (u32 now) p.at_us)

abbrev pub is_duplicate : Stream → MicPacket → Bool
is_duplicate s p =
    let delta = sub32 p.frame s.worker.last_mic_frame in
    s.worker.have_mic && (delta == 0 || p.seq == s.worker.last_mic_seq && ltb delta 16)

-- The microphone packet of a request: the loop up to the first packet that is neither, of those
-- that are left.
unfoldable pub next_packet : ℕ → Stream → ℕ → Stream × Option MicPacket
next_packet zero s now = (s, none)
next_packet (suc n) s now =
    let p = get_or s.packets (s.read_pos % queue_size) no_packet in
    let c = s.counters in
    let w = s.worker in
    let t = record s { read_pos = inc32 s.read_pos } in
    let stale =
      next_packet n (record t { counters = record c { mic_dropped = inc32 c.mic_dropped } }) now in
    let twice =
      next_packet n (record t { counters = record c { duplicates = inc32 c.duplicates } }) now in
    if is_stale s now p then stale else if is_duplicate s p then twice else (
      record t {
        worker = record w { last_mic_frame = p.frame; last_mic_seq = p.seq; have_mic = true };
      },
      some p,
    )

-- The microphone's part of a request.
unfoldable pub take_packet : Stream → Bool → ℕ → Stream × Option MicPacket
take_packet s capture now =
    let w = s.worker in
    if not capture
    then (record s { read_pos = s.written; worker = record w { have_mic = false } }, none)
    else next_packet (sub32 s.written s.read_pos) s now

abbrev pub put_packet : Option MicPacket → List ℕ → List ℕ
put_packet none f = f
put_packet (some p) f = put_at 16 (put32 p.frame) (put_at cw_mic_in p.payload f)

abbrev pub flags_of : Bool → Bool → Bool → ℕ
flags_of play due mic =
    (if play then cw_play else 0) + (if due then cw_reset else 0) + (if mic then cw_mic else 0)

abbrev pub has_packet : Option MicPacket → Bool
has_packet none = false
has_packet (some p) = true

-- The frame of a request that transfers audio.
unfoldable pub request_frame : (List ℕ → ℕ) → ℕ → ℕ → ℕ → Bool → List ℕ → Option MicPacket → List ℕ
request_frame crc flags session seq play pcm packet =
    let f = cw_begin (record {
      magic = cw_request;
      flags = flags;
      status = 0;
      session = session;
      seq = seq;
      radio_frame = 0;
    }) in
    cw_seal crc (put_packet packet (if play then put_at cw_play_in pcm f else f))
