-- ===== src/AutoLink/Staged.antt =====
-- The stages of the audio in firmware/radio/src/auto_link.c, through commands, starting and the loop.
use open_ull_receiver.Base.{
  ℕ, ◌≤◌, ◌<◌, ◌≡◌, inl, inr, refl, ◌∙◌, Bool, true, false, not, none, some, Option, Option-cases,
  List, [], ◌∷◌, ◌++◌, length, put_at, ltb, ◌==◌, if◌then◌else◌, arith, Bool-cases,
}
use open_ull_receiver.AirSession.{put16}
use open_ull_receiver.AutoLink.Peer.{Bond, Peer, Link, Status, send_packet}
use open_ull_receiver.AutoLink.Events.{process, on_peer}
use open_ull_receiver.AutoLink.Commands.{
  reset_opcode, answer_of, await, command, verify_map, ask_activity, reserve_slot, reserve_audio,
  unbounded, advertising, reserved,
}
use open_ull_receiver.AutoLink.Startup.{◌then_do◌, plain, acl, open_streams}
use open_ull_receiver.AutoLink.Handshake.{
  IsShaken, Keeps, From, From_refl, From_trans, From_same, branch, send_packet-peer, send_acl-From,
}
use open_ull_receiver.AutoLink.Handled.{process-From}

-- The result of a call, from what the peer was.
pub record RunFrom {ℓ} {A : Type ℓ} (s : Peer) (r : Link × A) : Type ℓ where
  pub link : From s r.0

pub branch_run {ℓ} :
    {A : Type ℓ} {s : Peer} {x y : Link × A} (c : Bool)
    → RunFrom s x
    → RunFrom s y
    → RunFrom s (if c then x else y)
branch_run true f g = f
branch_run false f g = g

await-RunFrom :
    {s : Peer} (b : Bond) (opcode room : ℕ) (l : Link) (es : List (Option (ℕ × List ℕ)))
    → From s l
    → RunFrom s (await b opcode room l es)
unfolding await
await-RunFrom b opcode room l [] f = record { link = From_trans f (From_same refl) }
await-RunFrom b opcode room l (none ∷ es) f = record { link = From_trans f (From_same refl) }
await-RunFrom {s} b opcode room l (some (now, e) ∷ es) f =
    let l' = if opcode == reset_opcode then l else process b l now e in
    let g : From s l' =
      branch (opcode == reset_opcode) (λ _. f) (λ _. From_trans f (process-From b l now e)) in
    let rest = await-RunFrom b opcode room l' es g in
    elim (Option-cases (answer_of opcode room e)) [
      | inl more ↦
          rw (more, await)
            (branch_run l.lost (record { link = From_trans g (From_same refl) }) rest)
      | inr (r, found) ↦ rw (found, await) (record { link = From_trans f (From_same refl) })
    ]

pub command-RunFrom :
    {s : Peer} (b : Bond) (l : Link) (opcode : ℕ) (params : List ℕ) (room : ℕ)
    → From s l
    → RunFrom s (command b l opcode params room)
unfolding command
command-RunFrom {s} b l opcode params room f =
    let p = (1 ∷ put16 opcode) ++ (length params ∷ params) in
    let sent : From s (send_packet l p).0 = From_trans f (From_same (send_packet-peer l p)) in
    branch_run (ltb 60 (length params)) (record { link = f })
      (branch_run (not (send_packet l p).1) (record { link = sent })
        (await-RunFrom b opcode room (send_packet l p).0 (send_packet l p).0.incoming sent))

abbrev unasked : Link → Link
unasked l = on_peer l (record (l.peer) { activity_valid = false })

unasked-From : {s : Peer} (l : Link) → From s l → From s (unasked l)
unasked-From l f = From_trans f (record { keeps = ground arith; shaken = λ v. ground arith })

pub verify_map-RunFrom : {s : Peer} (b : Bond) (l : Link) → From s l → RunFrom s (verify_map b l)
unfolding verify_map
verify_map-RunFrom b l f = record {
  link = (command-RunFrom b l 0x2015 (put16 l.peer.handle) 8 f).link;
}

ask_activity-RunFrom : {s : Peer} (b : Bond) (l : Link) → From s l → RunFrom s (ask_activity b l)
unfolding ask_activity
ask_activity-RunFrom b l f = record {
  link = (command-RunFrom b (unasked l) 0xfcfa [] unbounded (unasked-From l f)).link;
}

reserve_slot-RunFrom :
    {s : Peer} (b : Bond) (l : Link) (set : ℕ) (expected : List ℕ)
    → From s l
    → RunFrom s (reserve_slot b l set expected)
unfolding reserve_slot
reserve_slot-RunFrom b l set expected f =
    let r = command b (unasked l) 0x2036 (advertising set) unbounded in
    let first =
      (command-RunFrom b (unasked l) 0x2036 (advertising set) unbounded (unasked-From l f)).link in
    branch_run (not r.1.good) (record { link = first })
      (record { link = (command-RunFrom b r.0 0xfcfa [] unbounded first).link })

reserve_audio-RunFrom : {s : Peer} (b : Bond) (l : Link) → From s l → RunFrom s (reserve_audio b l)
unfolding reserve_audio
reserve_audio-RunFrom b l f =
    let asked = ask_activity b l in
    let e0 = asked.0.peer.activity in
    let e1 = put_at 5 (reserved 0xee) e0 in
    let e2 = put_at 10 (reserved 0xef) e1 in
    let e3 = put_at 15 (reserved 0xed) e2 in
    let s1 = reserve_slot b asked.0 0xee e1 in
    let s2 = reserve_slot b s1.0 0xef e2 in
    let f0 = ask_activity-RunFrom b l f in
    let f1 = reserve_slot-RunFrom b asked.0 0xee e1 f0.link in
    let f2 = reserve_slot-RunFrom b s1.0 0xef e2 f1.link in
    let f3 = reserve_slot-RunFrom b s2.0 0xed e3 f2.link in
    branch_run _ (record { link = f0.link })
      (branch_run (not s1.1) (record { link = f1.link })
        (branch_run (not s2.1) (record { link = f2.link }) f3))

-- What is true of the audio at each stage.
pub record IsStaged (s : Peer) : Type 0 where
  pub most : s.startup_step ≤ 3
  pub opened : 0 < s.startup_step → s.holding ≡ true
  pub answered : s.startup_step ≡ 3 → s.raw_acked ≡ true
  pub live :
      s.started ≡ true → (s.startup_step ≡ 3) × (s.air_ready ≡ true) × (s.stream_attempted ≡ true)

pub record IsSound (s : Peer) : Type 0 where
  pub shaken : IsShaken s
  pub staged : IsStaged s

Keeps-IsStaged : {s t : Peer} → Keeps s t → IsStaged s → IsStaged t
Keeps-IsStaged k v = ground arith

pub From-IsSound : {s : Peer} {l : Link} → From s l → IsSound s → IsSound l.peer
From-IsSound f v = record { shaken = f.shaken v.shaken; staged = Keeps-IsStaged f.keeps v.staged }

-- A state at a stage `n` of a held connection, with what step 3 needs.
pub record At (n : ℕ) (ready : Bool) (l : Link) : Type 0 where
  pub sound : IsSound l.peer
  pub held : l.peer.holding ≡ true
  pub stage : l.peer.startup_step ≡ n
  pub prepared : ready ≡ true → (l.peer.air_ready ≡ true)

pub From-At :
    {n : ℕ} {ready : Bool} {l : Link} (k : Link) → From k.peer l → At n ready k → At n ready l
From-At k f a =
    let keep = f.keeps in
    record {
      sound = From-IsSound f a.sound;
      held = ground (arith, keep.holds a.held);
      stage = keep.stage ∙ a.stage;
      prepared = λ r. keep.ready (a.prepared r);
    }

-- Calls in a row: each but the last stays at the stage, and the last ends in a sound state.
abbrev pub Stays : ℕ → Bool → (Link → Link × Bool) → Type 0
Stays n ready f = (l : Link) → At n ready l → At n ready (f l).0

abbrev pub Ends : ℕ → Bool → (Link → Link × Bool) → Type 0
Ends n ready f = (l : Link) → At n ready l → IsSound (f l).0.peer

pub then_do-Ends :
    (n : ℕ) (ready : Bool) (f g : Link → Link × Bool)
    → Stays n ready f
    → Ends n ready g
    → Ends n ready (f then_do g)
unfolding ◌then_do◌
then_do-Ends n ready f g stays ends l a = elim (Bool-cases (f l).1) [
  | inl e ↦ rw e (ends (f l).0 (stays l a))
  | inr e ↦ rw e ((stays l a).sound)
]

pub plain-Stays :
    {n : ℕ} {ready : Bool} (b : Bond) (opcode : ℕ) (params : List ℕ)
    → Stays n ready (plain b opcode params)
plain-Stays b opcode params l a =
    From-At l ((command-RunFrom b l opcode params unbounded (From_refl l)).link) a

pub acl-Stays : {n : ℕ} {ready : Bool} (p : List ℕ) → Stays n ready (acl p)
acl-Stays p l a = From-At l (send_acl-From l 0x101 p) a

-- A step of the stages: forward, with what it needs.
pub advance :
    (l : Link) (n m : ℕ) (ready : Bool) (s : Peer)
    → At n ready l
    → m ≤ 3
    → (m ≡ 3 → l.peer.raw_acked ≡ true)
    → s.startup_step ≡ m
    → (s.peer_verified ≡ l.peer.peer_verified)
      × (s.encrypted ≡ l.peer.encrypted)
      × (s.failed ≡ l.peer.failed)
      × (s.idle_sent ≡ l.peer.idle_sent)
      × (s.holding ≡ l.peer.holding)
      × (s.raw_acked ≡ l.peer.raw_acked)
    → s.started ≡ false
    → IsSound s
advance l n m ready s a h k e same off =
    let sh = a.sound.shaken in
    record {
      shaken = record {
        secret = ground (arith, sh.secret);
        verified = ground (arith, sh.verified);
        held = ground (arith, sh.held);
      };
      staged = record {
        most = omega arith;
        opened = ground (arith, a.held);
        answered = ground (arith, k);
        live = ground arith;
      };
    }

opened-Ends : Ends 0 false (λ l. (
  record l { peer = record (l.peer) { startup_step = 1 }; status = Status.negotiating_audio },
  true,
))
opened-Ends l a =
    advance l 0 1 false (record (l.peer) { startup_step = 1 }) a (omega arith)
      (λ e. absurd (omega arith)) refl (refl, refl, refl, refl, refl, refl)
      (ground (arith, a.sound.staged.live, a.stage))

pub open_streams-Ends : (b : Bond) → Ends 0 false (open_streams b)
unfolding open_streams
open_streams-Ends b =
    then_do-Ends 0 false _ _ (λ l a. From-At l ((verify_map-RunFrom b l (From_refl l)).link) a)
      (then_do-Ends 0 false _ _ (plain-Stays b 0xfcf0 []) (
        then_do-Ends 0 false _ _ (λ l a. a)
          (then_do-Ends 0 false _ _
            (λ l a. From-At l ((reserve_audio-RunFrom b l (From_refl l)).link) a)
            (then_do-Ends 0 false _ _ (acl-Stays (2 ∷ 1 ∷ 0 ∷ [])) (
              then_do-Ends 0 false _ _ (acl-Stays (4 ∷ 1 ∷ 0 ∷ 100 ∷ 100 ∷ 0 ∷ [])) (
                then_do-Ends 0 false _ _ (acl-Stays (2 ∷ 2 ∷ 0 ∷ []))
                  (then_do-Ends 0 false _ _ (λ l a. plain-Stays b 0x2022 _ l a) opened-Ends)))))))
