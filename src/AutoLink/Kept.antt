-- ===== src/AutoLink/Kept.antt =====
-- The states that the loop of firmware/radio/src/auto_link.c reaches, and when they stream audio.
use open_ull_receiver.Base.{
  ℕ, ◌+◌, ◌≡◌, ◌⊎◌, inl, inr, refl, Bool, true, false, not, ◌&&◌, none, some, Option, List, [], ◌∷◌,
  ◌++◌, ltb, leb, ◌==◌, if◌then◌else◌, arith, Bool-cases, take, replicate, min,
}
use open_ull_receiver.AirSession.{put16}
use open_ull_receiver.AutoLink.Peer.{Bond, Peer, Link, peer_init, no_handle}
use open_ull_receiver.AutoLink.Acl.{send_acl}
use open_ull_receiver.AutoLink.Events.{on_peer}
use open_ull_receiver.AutoLink.Commands.{command, unbounded, reset_opcode}
use open_ull_receiver.AutoLink.Startup.{
  ◌then_do◌, plain, audio_startup, start_connection, bytes_limit,
}
use open_ull_receiver.AutoLink.Keeper.{
  Turn, Secrets, take_event, audio_live, encrypt_step, setup_step, startup_turn, deadline_step,
  keeper_turn,
}
use open_ull_receiver.AutoLink.Handshake.{
  From, From_refl, From_trans, From_same, branch, fail-From, fail_unless-From, send_acl-From,
}
use open_ull_receiver.AutoLink.Handled.{process-From}
use open_ull_receiver.AutoLink.Staged.{RunFrom, branch_run, command-RunFrom, IsSound, From-IsSound}
use open_ull_receiver.AutoLink.Started.{audio_startup_sound}

peer_init-IsSound : IsSound peer_init
unfolding peer_init
peer_init-IsSound = record {
  shaken = record { secret = ground arith; verified = ground arith; held = ground arith };
  staged = record {
    most = omega arith;
    opened = ground arith;
    answered = ground arith;
    live = ground arith;
  };
}

-- Calls in a row, each of which takes nothing back.
abbrev Runs : (Link → Link × Bool) → Type 0
Runs f = (l : Link) → From l.peer (f l).0

then_do-Runs : (f g : Link → Link × Bool) → Runs f → Runs g → Runs (f then_do g)
unfolding ◌then_do◌
then_do-Runs f g p q l = elim (Bool-cases (f l).1) [
  | inl e ↦ rw e (From_trans (p l) (q (f l).0))
  | inr e ↦ rw e (p l)
]

plain-Runs : (b : Bond) (opcode : ℕ) (params : List ℕ) → Runs (plain b opcode params)
plain-Runs b opcode params l = (command-RunFrom b l opcode params unbounded (From_refl l)).link

limited-From :
    {s : Peer} (l : Link) (n : ℕ)
    → From s l
    → From s (on_peer l (record (l.peer) { acl_limit = n }))
limited-From l n f = From_trans f (record { keeps = ground arith; shaken = λ v. ground arith })

start_connection-RunFrom : (b : Bond) (l : Link) → RunFrom peer_init (start_connection b l)
unfolding start_connection
start_connection-RunFrom b l =
    let fresh = record l { peer = peer_init; lost = false } in
    let begun = plain b reset_opcode [] fresh in
    let sizes = command b begun.0 0x2002 [] 16 in
    let limit = min (bytes_limit sizes.1.bytes) 251 in
    let limited = on_peer sizes.0 (record (sizes.0.peer) { acl_limit = limit }) in
    let said = command b limited 0x2003 [] 16 in
    let f0 : From peer_init begun.0 = plain-Runs b reset_opcode [] fresh in
    let f1 : From peer_init sizes.0 = (command-RunFrom b begun.0 0x2002 [] 16 f0).link in
    let f2 : From peer_init said.0 =
      (command-RunFrom b limited 0x2003 [] 16 (limited-From sizes.0 limit f1)).link in
    let rest = then_do-Runs _ _ (plain-Runs b 0x0c01 _) (
      then_do-Runs _ _ (plain-Runs b 0x2001 _) (
        then_do-Runs _ _ (plain-Runs b 0x2005 _) (
          then_do-Runs _ _ (plain-Runs b 0x2014 _)
            (then_do-Runs _ _ (plain-Runs b 0x2043 _) (λ k. From_same refl))))) in
    branch_run (not begun.1) (record { link = f0 })
      (branch_run _ (record { link = f1 })
        (branch_run _ (record { link = f2 }) (record { link = From_trans f2 (rest said.0) })))

-- The steps of a turn.
take_event-From :
    (b : Bond) (l : Link) (es : List (Option (ℕ × List ℕ))) → From l.peer (take_event b l es)
unfolding take_event
take_event-From b l [] = From_refl l
take_event-From b l (none ∷ es) = From_same {l = record l { incoming = es }} refl
take_event-From b l (some (now, e) ∷ es) =
    From_trans (From_same {l = record l { incoming = es }} refl)
      (process-From b (record l { incoming = es }) now e)

fed-From :
    (l : Link) (m n : ℕ)
    → From l.peer (on_peer l (record (l.peer) { previous_feedback = m; last_feedback = n }))
fed-From l m n = record { keeps = ground arith; shaken = λ v. ground arith }

audio_live-From : (l : Link) (t : Turn) → From l.peer (on_peer l (audio_live l.peer t).0)
unfolding audio_live
audio_live-From l t = elim (Bool-cases (t.feedback == l.peer.previous_feedback)) [
  | inl e ↦ rw e (From_refl l)
  | inr e ↦ rw e (fed-From l t.feedback t.now)
]

requested-From :
    (l : Link) → From l.peer (on_peer l (record (l.peer) { encryption_requested = true }))
requested-From l = record { keeps = ground arith; shaken = λ v. ground arith }

encrypt_step-From :
    (b : Bond) (k : Secrets) (l : Link) (t : Turn) → From l.peer (encrypt_step b k l t)
unfolding encrypt_step
encrypt_step-From b k l t =
    let l' = on_peer l (record (l.peer) { encryption_requested = true }) in
    let params = put16 l.peer.handle ++ (take 8 k.rand ++ (take 2 k.ediv ++ take 16 k.ltk)) in
    branch (not l.peer.encryption_requested && leb (l.peer.connected_at + 1000000) t.now)
      (λ _.
        fail_unless-From (plain b 0x2019 params l')
          (From_trans (requested-From l) (plain-Runs b 0x2019 params l')))
      (λ _. From_refl l)

set_up-From : (l : Link) → From l.peer (on_peer l (record (l.peer) { setup = true }))
set_up-From l = record { keeps = ground arith; shaken = λ v. ground arith }

setup_step-From : (l : Link) → From l.peer (setup_step l)
unfolding setup_step
setup_step-From l =
    let l' = on_peer l (record (l.peer) { setup = true }) in
    let message = 14 ∷ 1 ∷ replicate 43 0 in
    branch (l.peer.encrypted && not l.peer.setup)
      (λ _.
        fail_unless-From (send_acl l' 0x101 message)
          (From_trans (set_up-From l) (send_acl-From l' 0x101 message)))
      (λ _. From_refl l)

-- A link in a sound state, and what a test or a failure makes of it.
record Held (l : Link) : Type 0 where
  sound : IsSound l.peer

branch-Held :
    {x y : Link} (c : Bool) → (c ≡ true → Held x) → (c ≡ false → Held y) → Held (if c then x else y)
branch-Held true f g = f refl
branch-Held false f g = g refl

From-Held : {s : Peer} {l : Link} → From s l → IsSound s → Held l
From-Held f v = record { sound = From-IsSound f v }

record HeldTurn (r : Link × Bool) : Type 0 where
  turn : Held r.0

branch_turn :
    {x y : Link × Bool} (c : Bool)
    → (c ≡ true → HeldTurn x)
    → (c ≡ false → HeldTurn y)
    → HeldTurn (if c then x else y)
branch_turn true f g = f refl
branch_turn false f g = g refl

startup_turn-Held : (b : Bond) (l : Link) (t : Turn) → Held l → Held (startup_turn b l t)
unfolding startup_turn
startup_turn-Held b l t v =
    branch-Held l.peer.holding
      (λ h.
        let r = audio_startup b l t.now t.source t.trial t.fed in
        From-Held (fail_unless-From r (From_refl r.0))
          ((audio_startup_sound b l t.now t.source t.trial t.fed v.sound h).run))
      (λ _. v)

deadline_step-Held : (l : Link) (t : Turn) → Held l → Held (deadline_step l t)
unfolding deadline_step
deadline_step-Held l t v =
    branch-Held (not l.peer.started && ltb (l.peer.connected_at + 20000000) t.now)
      (λ _. From-Held (fail-From l) v.sound) (λ _. v)

keeper_turn-Held :
    (b : Bond) (k : Secrets) (l : Link) (begun : ℕ) (t : Turn)
    → Held l
    → Held (keeper_turn b k l begun t).0
unfolding keeper_turn
keeper_turn-Held b k l begun t v =
    let u = take_event b l l.incoming in
    let w : Held u = From-Held (take_event-From b l l.incoming) v.sound in
    let live = audio_live u.peer t in
    let e = encrypt_step b k u t in
    let x : Held e = From-Held (encrypt_step-From b k u t) w.sound in
    let y : Held (setup_step e) = From-Held (setup_step-From e) x.sound in
    let z = deadline_step-Held _ t (startup_turn-Held b (setup_step e) t y) in
    let fed : Held (on_peer u live.0) = From-Held (audio_live-From u t) w.sound in
    (branch_turn u.peer.started
      (λ _. record {
        turn =
            branch-Held live.1 (λ _. fed) (λ _. From-Held (fail-From (on_peer u live.0)) fed.sound);
      })
      (λ _.
        branch_turn (not (u.peer.handle == no_handle)) (λ _. record { turn = z })
          (λ _. record { turn = w }))).turn

-- The links that the loop reaches: a connection that has begun, and any turns after it, whatever happens
-- between them.
pub data Reached (b : Bond) (k : Secrets) : Link → Type 0 where
  begun : (l : Link) → Reached b k (start_connection b l).0
  turned :
      (l : Link) (since : ℕ) (t : Turn) → Reached b k l → Reached b k (keeper_turn b k l since t).0
  queued :
      (l : Link) (accepts : List Bool) (incoming : List (Option (ℕ × List ℕ))) (lost : Bool)
      → Reached b k l
      → Reached b k (record l { accepts = accepts; incoming = incoming; lost = lost })

Reached-Held : (b : Bond) (k : Secrets) (l : Link) → Reached b k l → Held l
Reached-Held b k _ (begun l) = From-Held ((start_connection-RunFrom b l).link) peer_init-IsSound
Reached-Held b k _ (turned l since t r) = keeper_turn-Held b k l since t (Reached-Held b k l r)
Reached-Held b k _ (queued l accepts incoming lost r) = record {
  sound = (Reached-Held b k l r).sound;
}

pub Reached-started :
    (b : Bond) (k : Secrets) (l : Link)
    → Reached b k l
    → l.peer.started ≡ true
    → ((l.peer.encrypted ≡ true) ⊎ (l.peer.failed ≡ true))
      × (l.peer.peer_verified ≡ true)
      × (l.peer.idle_sent ≡ true)
      × (l.peer.holding ≡ true)
      × (l.peer.raw_acked ≡ true)
      × (l.peer.air_ready ≡ true)
      × (l.peer.stream_attempted ≡ true)
      × (l.peer.startup_step ≡ 3)
Reached-started b k l r on =
    let v = (Reached-Held b k l r).sound in
    let (three, ready, tried) = v.staged.live on in
    let held = v.staged.opened (omega arith) in
    let idle = v.shaken.held held in
    let verified = v.shaken.verified idle in
    (v.shaken.secret verified, verified, idle, held, v.staged.answered three, ready, tried, three)
