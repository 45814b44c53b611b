-- ===== src/AutoLink/Keeper.antt =====
-- One turn of the loop in `run` of firmware/radio/src/auto_link.c.
use open_ull_receiver.Base.{
  ℕ, ◌+◌, Bool, true, not, ◌&&◌, none, some, Option, List, [], ◌∷◌, ◌++◌, take, replicate, ltb, leb,
  ◌==◌, if◌then◌else◌,
}
use open_ull_receiver.AirSession.{put16}
use open_ull_receiver.AutoLink.Peer.{Bond, Peer, Link, no_handle}
use open_ull_receiver.AutoLink.Acl.{send_acl}
use open_ull_receiver.AutoLink.Events.{process, on_peer, fail, fail_unless}
use open_ull_receiver.AutoLink.Startup.{plain, audio_startup}

-- What the rest of the program answers in a turn: the time, the feedback count of the trial, whether its
-- pump is busy, whether there is a source of sound, whether the trial runs on, and the time once the
-- stream has started.
pub record Turn : Type 0 where
  pub now : ℕ
  pub feedback : ℕ
  pub pump_busy : Bool
  pub source : Bool
  pub trial : Bool
  pub fed : ℕ

-- The saved secrets of the encryption request: `saved_rand`, `saved_ediv` and `saved_ltk`.
pub record Secrets : Type 0 where
  pub rand : List ℕ
  pub ediv : List ℕ
  pub ltk : List ℕ

unfoldable pub take_event : Bond → Link → List (Option (ℕ × List ℕ)) → Link
take_event b l [] = l
take_event b l (none ∷ es) = record l { incoming = es }
take_event b l (some (now, e) ∷ es) = process b (record l { incoming = es }) now e

-- `audio_live`
unfoldable pub audio_live : Peer → Turn → Peer × Bool
audio_live s t =
    let s' =
      if t.feedback == s.previous_feedback
      then s
      else record s { previous_feedback = t.feedback; last_feedback = t.now } in
    (s', t.pump_busy && leb t.now (s'.last_feedback + 5000000))

-- The request for encryption, once, a second after the connection.
unfoldable pub encrypt_step : Bond → Secrets → Link → Turn → Link
encrypt_step b k l t =
    let l' = on_peer l (record (l.peer) { encryption_requested = true }) in
    let params = put16 l.peer.handle ++ (take 8 k.rand ++ (take 2 k.ediv ++ take 16 k.ltk)) in
    if not l.peer.encryption_requested && leb (l.peer.connected_at + 1000000) t.now
    then fail_unless (plain b 0x2019 params l')
    else l

-- The message that sets the peer up, once, when the link is encrypted.
unfoldable pub setup_step : Link → Link
setup_step l =
    let l' = on_peer l (record (l.peer) { setup = true }) in
    if l.peer.encrypted && not l.peer.setup
    then fail_unless (send_acl l' 0x101 (14 ∷ 1 ∷ replicate 43 0))
    else l

unfoldable pub startup_turn : Bond → Link → Turn → Link
startup_turn b l t =
    if l.peer.holding then fail_unless (audio_startup b l t.now t.source t.trial t.fed) else l

unfoldable pub deadline_step : Link → Turn → Link
deadline_step l t =
    if not l.peer.started && ltb (l.peer.connected_at + 20000000) t.now then fail l else l

-- The turn; `begun` is when the search began. The result is false where the loop is left by `break`.
unfoldable pub keeper_turn : Bond → Secrets → Link → ℕ → Turn → Link × Bool
keeper_turn b k l begun t =
    let u = take_event b l l.incoming in
    let live = audio_live u.peer t in
    if u.peer.started
    then ((if live.1 then on_peer u live.0 else fail (on_peer u live.0)), true)
    else if not (u.peer.handle == no_handle)
    then (deadline_step (startup_turn b (setup_step (encrypt_step b k u t)) t) t, true)
    else (u, leb t.now (begun + 20000000))
