-- ===== src/AutoLink/Stopped.antt =====
-- The passes of `run` of firmware/radio/src/auto_link.c, and the end of their audio.
use open_ull_receiver.Base.{
  ℕ, ◌≡◌, ◌⊎◌, ◌≤◌, ◌<◌, refl, ap, Bool, true, false, not, ◌||◌, List, [], ◌∷◌, if◌then◌else◌,
  arith, Bool-cases, inl, inr,
}
use open_ull_receiver.AutoLink.Peer.{Bond, Link}
use open_ull_receiver.AutoLink.Startup.{start_connection}
use open_ull_receiver.AutoLink.Keeper.{Turn, Secrets, keeper_turn}
use open_ull_receiver.AutoLink.Kept.{Reached, Reached-started}
use open_ull_receiver.AutoLink.Session.{Look, stop_audio, keep_turns, SessionEnd, run_session}

keep_turns-Reached :
    (b : Bond) (k : Secrets) (l : Link) (begun : ℕ) (ts : List Turn)
    → Reached b k l
    → Reached b k (keep_turns b k l begun ts)
unfolding keep_turns
keep_turns-Reached b k l begun [] v = v
keep_turns-Reached b k l begun (t ∷ ts) v =
    let next = Reached.turned l begun t v in
    elim (Bool-cases (l.peer.failed || l.peer.disconnected || l.lost)) [
      | inl e ↦ rw e v
      | inr e ↦ elim (Bool-cases ((keeper_turn b k l begun t).1)) [
        | inl go ↦ rw (e, go) (keep_turns-Reached b k (keeper_turn b k l begun t).0 begun ts next)
        | inr done ↦ rw (e, done) next
      ]
    ]

-- The radio's pump is idle, the stream is over, and the PCM stream has paused.
pub record IsStopped (last : Look) (paused : Bool) : Type 0 where
  pub quiet : last.busy ≡ false
  pub over : 3 ≤ last.phase
  pub known : last.phase < 6
  pub held : paused ≡ true

stop_audio-IsStopped :
    (b : Bond) (l : Link) (looks : List Look) (last : Look) (paused : Bool)
    → (stop_audio b l looks last paused).1 ≡ true
    → l.peer.stream_attempted ≡ true
    → IsStopped last paused
unfolding stop_audio
stop_audio-IsStopped b l looks last paused ok tried = record {
  quiet = ground arith;
  over = ground arith;
  known = ground arith;
  held = ground arith;
}

outcome_of : SessionEnd → Bool
outcome_of SessionEnd.retrying = false
outcome_of SessionEnd.reconnecting = true
outcome_of SessionEnd.restarting = false

pass_stops :
    (c : Bool) (l : Link) (s : Link × Bool)
    → (let r : Link × SessionEnd =
          if not c
          then (l, SessionEnd.retrying)
          else if s.1
          then (s.0, SessionEnd.reconnecting)
          else (s.0, SessionEnd.restarting) in
        outcome_of r.1 ≡ true)
    → s.1 ≡ true
unfolding outcome_of
pass_stops true l (k, true) e = refl
pass_stops true l (k, false) e = cc
pass_stops false l s e = cc

-- A pass of `run` that goes on to connect again has stopped its audio: when the loop ended, the stream either had
-- not been started, or the pump was then seen idle, the stream in one of its phases 3 to 5, and the PCM
-- stream paused.
pub run_session_stops :
    (b : Bond) (k : Secrets) (l : Link) (begun : ℕ) (turns : List Turn) (looks : List Look)
    (last : Look) (paused : Bool)
    → (run_session b k l begun turns looks last paused).1 ≡ SessionEnd.reconnecting
    → ((keep_turns b k (start_connection b l).0 begun turns).peer.started ≡ false)
      ⊎ IsStopped last paused
unfolding run_session outcome_of
run_session_stops b k l begun turns looks last paused e =
    let c = start_connection b l in
    let end = keep_turns b k c.0 begun turns in
    let stopped =
      pass_stops c.1 c.0 (stop_audio b end looks last paused)
        (ap (λ (o : SessionEnd). outcome_of o) e) in
    elim (Bool-cases end.peer.started) [
      | inr off ↦ inl off
      | inl on ↦
          let reached = keep_turns-Reached b k c.0 begun turns (Reached.begun l) in
          let (_, _, _, _, _, _, tried, _) = Reached-started b k end reached on in
          inr (stop_audio-IsStopped b end looks last paused stopped tried)
    ]
