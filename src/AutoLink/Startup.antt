-- ===== src/AutoLink/Startup.antt =====
-- The start of a connection and of its audio in firmware/radio/src/auto_link.c, and one turn of the loop that
-- keeps it. What other modules answer is an argument.
use open_ull_receiver.Base.{
  ℕ, ◌+◌, ◌%◌, ◌^◌, min, Bool, true, false, not, ◌&&◌, ◌||◌, none, some, Option, List, [], ◌∷◌,
  ◌++◌, length, take, drop, same_bytes, ltb, leb, ◌==◌, if◌then◌else◌,
}
use open_ull_receiver.AirSession.{put16}
use open_ull_receiver.AutoLink.Peer.{Bond, Link, Status, le16, byte_at, peer_init}
use open_ull_receiver.AutoLink.Acl.{send_acl}
use open_ull_receiver.AutoLink.Events.{on_peer}
use open_ull_receiver.AutoLink.Commands.{
  command, passes, unbounded, reset_opcode, clean_map, verify_map, reserve_audio,
}

-- Calls in a row, up to the first that fails.
infixr 20 ◌then_do◌
unfoldable pub ◌then_do◌ : (Link → Link × Bool) → (Link → Link × Bool) → Link → Link × Bool
(f then_do g) l = let r = f l in if r.1 then g r.0 else (r.0, false)

abbrev pub plain : Bond → ℕ → List ℕ → Link → Link × Bool
plain b opcode params l = let r = command b l opcode params unbounded in (r.0, r.1.good)

abbrev pub acl : List ℕ → Link → Link × Bool
acl p l = send_acl l 0x101 p

abbrev pub connection_params : Bond → List ℕ
connection_params b =
    (0 ∷ 1 ∷ 0 ∷ [])
    ++ (take 6 b.target
        ++ (1 ∷ 16 ∷ 0 ∷ 16 ∷ 0 ∷ 24 ∷ 0 ∷ 24 ∷ 0 ∷ 0 ∷ 0 ∷ 0xf4 ∷ 1 ∷ 2 ∷ 0 ∷ 2 ∷ 0 ∷ []))

abbrev pub features : List ℕ
features = 0 ∷ 0xff ∷ 0xf9 ∷ 1 ∷ 8 ∷ 0 ∷ 0 ∷ 0 ∷ 0x40 ∷ []

-- The size of a packet that the controller reports.
abbrev pub bytes_limit : Option (List ℕ) → ℕ
bytes_limit none = 0
bytes_limit (some p) = le16 (drop 1 p)

-- `start_connection`; the caller's queue is emptied, so what follows in it are new events.
unfoldable pub start_connection : Bond → Link → Link × Bool
start_connection b l =
    let fresh = record l { peer = peer_init; lost = false } in
    let begun = plain b reset_opcode [] fresh in
    let sizes = command b begun.0 0x2002 [] 16 in
    let limit = min (bytes_limit sizes.1.bytes) 251 in
    let limited = on_peer sizes.0 (record (sizes.0.peer) { acl_limit = limit }) in
    let said = command b limited 0x2003 [] 16 in
    if not begun.1
    then (begun.0, false)
    else if not
        (passes (λ p. length p == 4 && leb 27 (le16 (drop 1 p)) && not (byte_at p 3 == 0)) sizes.1)
    then (sizes.0, false)
    else if not (passes (λ p. length p == 9 && same_bytes 9 p features) said.1)
    then (said.0, false)
    else (plain b 0x0c01 (255 ∷ 255 ∷ 255 ∷ 255 ∷ 255 ∷ 255 ∷ 255 ∷ 63 ∷ [])
          then_do plain b 0x2001 (255 ∷ 255 ∷ 31 ∷ 0 ∷ 0 ∷ 0 ∷ 0 ∷ 0 ∷ [])
          then_do plain b 0x2005 (take 6 b.identity)
          then_do plain b 0x2014 clean_map
          then_do plain b 0x2043 (connection_params b)
          then_do (λ k. (record k { status = Status.searching_for_headset }, true)))
        said.0

-- Step 0: the source of sound, the map, the reservation, and the messages that open both streams.
unfoldable pub open_streams : Bond → Link → Link × Bool
open_streams b =
    verify_map b
    then_do plain b 0xfcf0 []
    then_do (λ l. (l, l.peer.diagnostic_ok))
    then_do reserve_audio b
    then_do acl (2 ∷ 1 ∷ 0 ∷ [])
    then_do acl (4 ∷ 1 ∷ 0 ∷ 100 ∷ 100 ∷ 0 ∷ [])
    then_do acl (2 ∷ 2 ∷ 0 ∷ [])
    then_do (λ l. plain b 0x2022 (put16 l.peer.handle ++ (put16 251 ++ put16 2120)) l)
    then_do (λ l. (
      record l { peer = record (l.peer) { startup_step = 1 }; status = Status.negotiating_audio },
      true,
    ))

-- Steps 1 and 2: a raw command that is tried again, at most twelve times, while its guard is 4.
unfoldable pub raw_step : Bond → Link → ℕ → ℕ → ℕ → Link × Bool
raw_step b l opcode next wait_until =
    let r = plain b opcode [] (on_peer l (record (l.peer) { raw_guard = 255; raw_status = 255 })) in
    let s = r.0.peer in
    let tries = (s.raw_tries + 1) % 2 ^ 8 in
    if r.1
    then (
      on_peer r.0 (record s { startup_step = next; raw_tries = 0; next_action = wait_until }),
      true,
    )
    else if not (s.raw_guard == 4)
    then (r.0, false)
    else if leb 12 tries
    then (on_peer r.0 (record s { raw_tries = tries }), false)
    else (on_peer r.0 (record s { raw_tries = tries; next_action = wait_until }), true)

-- Step 3: the stream. `trial` is whether the trial and its pump accept to run on, `fed` the time after.
unfoldable pub start_stream : Bond → Link → ℕ → Bool → ℕ → Link × Bool
start_stream b l now trial fed =
    let map = verify_map b l in
    let r = plain b 0xfcfb [] (on_peer map.0 (record (map.0.peer) { stream_attempted = true })) in
    let s = r.0.peer in
    let tries = (s.raw_tries + 1) % 2 ^ 8 in
    if not map.1 || not trial
    then (map.0, false)
    else if not r.1
    then (if leb 10 tries
        then (on_peer r.0 (record s { raw_tries = tries }), false)
        else (on_peer r.0 (record s { raw_tries = tries; next_action = now + 1000 }), true))
    else (acl (6 ∷ 1 ∷ 0 ∷ []) then_do acl (6 ∷ 2 ∷ 0 ∷ []) then_do (λ k. (
      record k {
        peer = record (k.peer) { last_feedback = fed };
        status = Status.streaming_usb_audio;
      },
      true,
    )))
        (on_peer r.0 (record s { started = true }))

-- `audio_startup`
unfoldable pub audio_startup : Bond → Link → ℕ → Bool → Bool → ℕ → Link × Bool
unfolding open_streams raw_step start_stream
audio_startup b l now source trial fed =
    let s = l.peer in
    if ltb now s.next_action
    then (l, true)
    else if s.startup_step == 0
    then (if not source then (l, true) else open_streams b l)
    else if s.startup_step == 1
    then (if ltb s.max_tx_octets 182 then (l, true) else raw_step b l 0xfcf3 2 (now + 250000))
    else if s.startup_step == 2
    then (if not s.raw_acked then (l, true) else raw_step b l 0xfcf4 3 (now + 1000))
    else if s.startup_step == 3
    then (if not s.air_ready then (l, true) else start_stream b l now trial fed)
    else (l, false)
