-- ===== src/AutoLink/Started.antt =====
-- How `audio_startup` of firmware/radio/src/auto_link.c takes the stages of the audio.
use open_ull_receiver.Base.{
  ℕ, ◌+◌, ◌%◌, ◌^◌, ◌≤◌, ◌<◌, ◌≡◌, refl, Bool, true, false, not, ◌||◌, [], ◌∷◌, ltb, leb, ◌==◌,
  if◌then◌else◌, arith, ==_iff,
}
use open_ull_receiver.AutoLink.Peer.{Bond, Link, Status}
use open_ull_receiver.AutoLink.Events.{on_peer}
use open_ull_receiver.AutoLink.Commands.{verify_map, unbounded}
use open_ull_receiver.AutoLink.Startup.{plain, acl, raw_step, start_stream, audio_startup}
use open_ull_receiver.AutoLink.Handshake.{From, From_refl}
use open_ull_receiver.AutoLink.Staged.{
  command-RunFrom, verify_map-RunFrom, IsSound, From-IsSound, At, From-At, Ends, then_do-Ends,
  acl-Stays, open_streams-Ends, advance,
}

-- Sound links, and both ways of a test.
pub record SoundRun (r : Link × Bool) : Type 0 where
  pub run : IsSound r.0.peer

branch_sound :
    {x y : Link × Bool} (c : Bool)
    → (c ≡ true → SoundRun x)
    → (c ≡ false → SoundRun y)
    → SoundRun (if c then x else y)
branch_sound true f g = f refl
branch_sound false f g = g refl

-- The counters of attempts and the time of the next one do not matter.
abbrev retried : Link → ℕ → ℕ → Link
retried l tries at_time = on_peer l (record (l.peer) { raw_tries = tries; next_action = at_time })

retried-From : (l : Link) (tries at_time : ℕ) → From l.peer (retried l tries at_time)
retried-From l tries at_time = record { keeps = ground arith; shaken = λ v. ground arith }

guarded-From :
    (l : Link) (a c : ℕ)
    → From l.peer (on_peer l (record (l.peer) { raw_guard = a; raw_status = c }))
guarded-From l a c = record { keeps = ground arith; shaken = λ v. ground arith }

raw_step_sound :
    (b : Bond) (l : Link) (opcode n next wait_until : ℕ)
    → At n false l
    → n < 3
    → next ≤ 3
    → (next ≡ 3 → l.peer.raw_acked ≡ true)
    → SoundRun (raw_step b l opcode next wait_until)
unfolding raw_step
raw_step_sound b l opcode n next wait_until a lt most acked =
    let g = on_peer l (record (l.peer) { raw_guard = 255; raw_status = 255 }) in
    let u = (plain b opcode [] g).0 in
    let f : From l.peer u =
      (command-RunFrom b g opcode [] unbounded (guarded-From l 255 255)).link in
    let v : At n false u = From-At l f a in
    let tries = (u.peer.raw_tries + 1) % 2 ^ 8 in
    branch_sound (plain b opcode [] g).1
      (λ ok. record {
        run =
            advance u n next false
              (record (u.peer) { startup_step = next; raw_tries = 0; next_action = wait_until }) v
              most (λ e. f.keeps.acked (acked e)) refl (refl, refl, refl, refl, refl, refl)
              (ground (arith, v.sound.staged.live, v.stage));
      })
      (λ no_answer.
        branch_sound (not (u.peer.raw_guard == 4)) (λ _. record { run = v.sound })
          (λ _.
            branch_sound (leb 12 tries)
              (λ _. record { run = From-IsSound (retried-From u tries u.peer.next_action) v.sound })
              (λ _. record { run = From-IsSound (retried-From u tries wait_until) v.sound })))

attempted-IsSound :
    (l : Link) → IsSound l.peer → IsSound (record (l.peer) { stream_attempted = true })
attempted-IsSound l v =
    let sh = v.shaken in
    let st = v.staged in
    record {
      shaken = record { secret = sh.secret; verified = sh.verified; held = sh.held };
      staged = record {
        most = st.most;
        opened = st.opened;
        answered = st.answered;
        live = λ e. let (three, ready, _) = st.live e in (three, ready, refl);
      };
    }

-- The stream has started: what that takes is at hand.
streaming-At :
    (l : Link)
    → At 3 true l
    → l.peer.stream_attempted ≡ true
    → At 3 true (on_peer l (record (l.peer) { started = true }))
streaming-At l a e =
    let sh = a.sound.shaken in
    let st = a.sound.staged in
    record {
      sound = record {
        shaken = record { secret = sh.secret; verified = sh.verified; held = sh.held };
        staged = record {
          most = st.most;
          opened = st.opened;
          answered = st.answered;
          live = λ _. (a.stage, a.prepared refl, e);
        };
      };
      held = a.held;
      stage = a.stage;
      prepared = a.prepared;
    }

fed-Ends :
    (fed : ℕ)
    → Ends 3 true (λ k. (
      record k {
        peer = record (k.peer) { last_feedback = fed };
        status = Status.streaming_usb_audio;
      },
      true,
    ))
fed-Ends fed l a =
    let f : From l.peer (on_peer l (record (l.peer) { last_feedback = fed })) = record {
      keeps = ground arith;
      shaken = λ v. ground arith;
    } in
    From-IsSound f a.sound

start_stream_sound :
    (b : Bond) (l : Link) (now : ℕ) (trial : Bool) (fed : ℕ)
    → At 3 true l
    → SoundRun (start_stream b l now trial fed)
unfolding start_stream
start_stream_sound b l now trial fed a =
    let map = verify_map b l in
    let m : At 3 true map.0 = From-At l ((verify_map-RunFrom b l (From_refl l)).link) a in
    let tried = on_peer map.0 (record (map.0.peer) { stream_attempted = true }) in
    let t : At 3 true tried = record {
      sound = attempted-IsSound map.0 m.sound;
      held = m.held;
      stage = m.stage;
      prepared = m.prepared;
    } in
    let r = plain b 0xfcfb [] tried in
    let f : From tried.peer r.0 =
      (command-RunFrom b tried 0xfcfb [] unbounded (From_refl tried)).link in
    let u : At 3 true r.0 = From-At tried f t in
    let tries = (r.0.peer.raw_tries + 1) % 2 ^ 8 in
    branch_sound (not map.1 || not trial) (λ _. record { run = m.sound })
      (λ _.
        branch_sound (not r.1)
          (λ _.
            branch_sound (leb 10 tries)
              (λ _. record {
                run = From-IsSound (retried-From r.0 tries r.0.peer.next_action) u.sound;
              })
              (λ _. record { run = From-IsSound (retried-From r.0 tries (now + 1000)) u.sound }))
          (λ _. record {
            run =
                then_do-Ends 3 true (acl (6 ∷ 1 ∷ 0 ∷ [])) _ (acl-Stays (6 ∷ 1 ∷ 0 ∷ []))
                  (then_do-Ends 3 true (acl (6 ∷ 2 ∷ 0 ∷ [])) _ (acl-Stays (6 ∷ 2 ∷ 0 ∷ []))
                    (fed-Ends fed))
                  (on_peer r.0 (record (r.0.peer) { started = true }))
                  (streaming-At r.0 u f.keeps.attempt);
          }))

pub audio_startup_sound :
    (b : Bond) (l : Link) (now : ℕ) (source trial : Bool) (fed : ℕ)
    → IsSound l.peer
    → l.peer.holding ≡ true
    → SoundRun (audio_startup b l now source trial fed)
unfolding audio_startup
audio_startup_sound b l now source trial fed v h =
    let s = l.peer in
    let same : SoundRun (l, true) = record { run = v } in
    let at : (n : ℕ) → (s.startup_step == n) ≡ true → At n false l = λ n e. record {
      sound = v;
      held = h;
      stage = (==_iff s.startup_step n).0 e;
      prepared = λ x. absurd (cc);
    } in
    branch_sound (ltb now s.next_action) (λ _. same)
      (λ _.
        branch_sound (s.startup_step == 0)
          (λ e.
            branch_sound (not source) (λ _. same)
              (λ _. record { run = open_streams-Ends b l (at 0 e) }))
          (λ _.
            branch_sound (s.startup_step == 1)
              (λ e.
                branch_sound (ltb s.max_tx_octets 182) (λ _. same)
                  (λ _.
                    raw_step_sound b l 0xfcf3 1 2 (now + 250000) (at 1 e) (omega arith)
                      (omega arith) (λ x. absurd (omega arith))))
              (λ _.
                branch_sound (s.startup_step == 2)
                  (λ e.
                    branch_sound (not s.raw_acked) (λ _. same)
                      (λ k.
                        raw_step_sound b l 0xfcf4 2 3 (now + 1000) (at 2 e) (omega arith)
                          (omega arith) (λ _. ground arith)))
                  (λ _.
                    branch_sound (s.startup_step == 3)
                      (λ e.
                        branch_sound (not s.air_ready) (λ _. same)
                          (λ k. start_stream_sound b l now trial fed (record {
                            sound = v;
                            held = h;
                            stage = (==_iff s.startup_step 3).0 e;
                            prepared = λ _. ground arith;
                          })))
                      (λ _. record { run = v })))))
