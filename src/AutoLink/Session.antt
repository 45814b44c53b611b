-- ===== src/AutoLink/Session.antt =====
-- A whole connection of firmware/radio/src/auto_link.c: what arrives, the loop, and the end of the audio.
use open_ull_receiver.Base.{
  ℕ, Bool, true, false, not, ◌&&◌, ◌||◌, List, [], ◌∷◌, ◌++◌, length, ltb, leb, if◌then◌else◌,
}
use open_ull_receiver.AutoLink.Peer.{Bond, Link}
use open_ull_receiver.AutoLink.Startup.{plain, start_connection}
use open_ull_receiver.AutoLink.Keeper.{Turn, Secrets, keeper_turn}

-- `enabled`, `events` and `lost`, as the controller's task sees them.
pub record Inbox : Type 0 where
  pub enabled : Bool
  pub created : Bool
  pub events : List (List ℕ)
  pub lost : Bool

-- `ull_auto_receive`: whether the coordinator takes the packet.
unfoldable pub auto_receive : Inbox → List ℕ → Inbox × Bool
auto_receive s packet =
    if not s.enabled
    then (s, false)
    else if not s.created || ltb 512 (length packet) || leb 32 (length s.events)
    then (record s { lost = true }, true)
    else (record s { events = s.events ++ (packet ∷ []) }, true)

-- What a round of `stop_audio` sees: whether the pump is busy, the phase of the stream, and whether time is left.
pub record Look : Type 0 where
  pub busy : Bool
  pub phase : ℕ
  pub time_left : Bool

-- Its rounds, of which there is at least one; the list ends before the last, whose look decides nothing. False is
-- the first failure.
unfoldable pub stop_rounds : Bond → Link → List Look → Link × Bool
stop_rounds b l [] = plain b 0xfcfd [] l
stop_rounds b l (seen ∷ rest) =
    let r = plain b 0xfcfd [] l in
    let more = stop_rounds b r.0 rest in
    if not r.1
    then (r.0, false)
    else if not seen.busy && leb 3 seen.phase || not seen.time_left
    then (r.0, true)
    else more

-- `stop_audio`; `last` is what is seen after the rounds, `paused` whether the PCM stream has paused.
unfoldable pub stop_audio : Bond → Link → List Look → Look → Bool → Link × Bool
stop_audio b l looks last paused =
    let r = stop_rounds b l looks in
    if not l.peer.stream_attempted
    then (l, true)
    else if not r.1 || last.busy || ltb last.phase 3 || leb 6 last.phase || not paused
    then (r.0, false)
    else plain b 0xfcff [] r.0

-- The loop of `run` while the link is kept; the list ends where the coordinator is paused.
unfoldable pub keep_turns : Bond → Secrets → Link → ℕ → List Turn → Link
keep_turns b k l begun [] = l
keep_turns b k l begun (t ∷ ts) =
    let r = keeper_turn b k l begun t in
    let more = keep_turns b k r.0 begun ts in
    if l.peer.failed || l.peer.disconnected || l.lost then l else if r.1 then more else r.0

-- How a connection ends: its setup is tried again, another connection follows, or the device restarts.
pub data SessionEnd : Type 0 where
  retrying reconnecting restarting : SessionEnd

-- One pass of `run`.
unfoldable pub run_session :
    Bond → Secrets → Link → ℕ → List Turn → List Look → Look → Bool → Link × SessionEnd
run_session b k l begun turns looks last paused =
    let c = start_connection b l in
    let s = stop_audio b (keep_turns b k c.0 begun turns) looks last paused in
    if not c.1
    then (c.0, SessionEnd.retrying)
    else if s.1
    then (s.0, SessionEnd.reconnecting)
    else (s.0, SessionEnd.restarting)
