-- ===== src/PcmStream/Microphone.antt =====
-- The choice of the next microphone packet in `run` of firmware/radio/src/pcm_stream.c, against a
-- search in the list of the queued packets.
use open_ull_receiver.Base.{
  window, ℕ, zero, suc, ◌%◌, ◌≡◌, refl, ap, Bool, not, ◌&&◌, Option, none, some, List, [], ◌∷◌,
  get_or, inc32, Bool-cases, inl, inr, if◌then◌else◌,
}
use open_ull_receiver.PcmStream.{Stream, MicPacket, no_packet}
use open_ull_receiver.PcmStream.Queue.{IsQueue, ring_same, queued, contents, contents_next}
use open_ull_receiver.PcmStream.Requests.{is_stale, is_duplicate, next_packet}

-- The first packet of a list that passes both tests, and what stands behind it.
abbrev pub keeps : (MicPacket → Bool) → (MicPacket → Bool) → MicPacket → Bool
keeps stale twice p = not (stale p) && not (twice p)

abbrev pub first_kept : (MicPacket → Bool) → List MicPacket → Option MicPacket
first_kept keep [] = none
first_kept keep (p ∷ ps) = let rest = first_kept keep ps in if keep p then some p else rest

abbrev pub behind_kept : (MicPacket → Bool) → List MicPacket → List MicPacket
behind_kept keep [] = []
behind_kept keep (p ∷ ps) = let rest = behind_kept keep ps in if keep p then ps else rest

-- The tests of a turn.
abbrev pub kept_by : Stream → ℕ → MicPacket → Bool
kept_by s now p = not (is_stale s now p) && not (is_duplicate s p)

pub next_packet-first_kept :
    (n : ℕ) (s : Stream) (now : ℕ)
    → IsQueue s
    → queued s ≡ n
    → let (t, r) = next_packet n s now in
      (r ≡ first_kept (kept_by s now) (contents s))
      × (contents t ≡ behind_kept (kept_by s now) (contents s))
      × IsQueue t
unfolding next_packet
next_packet-first_kept zero s now q e =
    let nothing : contents s ≡ [] =
      ap (λ (n : ℕ). window no_packet 16 s.packets (s.read_pos % 16) n) e in
    rw nothing (refl, refl, q)
next_packet-first_kept (suc n) s now q e =
    let p = get_or s.packets (s.read_pos % 16) no_packet in
    let c = s.counters in
    let t = record s { read_pos = inc32 s.read_pos } in
    let a = record t { counters = record c { mic_dropped = inc32 c.mic_dropped } } in
    let b = record t { counters = record c { duplicates = inc32 c.duplicates } } in
    let (valid, size, whole) = contents_next s n q e in
    let dropped = next_packet-first_kept n a now (ring_same t a valid refl refl refl) size in
    let doubled = next_packet-first_kept n b now (ring_same t b valid refl refl refl) size in
    elim (Bool-cases (is_stale s now p)) [
      | inl old ↦ rw (whole, old) dropped
      | inr new ↦ elim (Bool-cases (is_duplicate s p)) [
        | inl twice ↦ rw (whole, new, twice) doubled
        | inr once ↦ rw (whole, new, once) (refl, refl, ring_same t _ valid refl refl refl)
      ]
    ]
