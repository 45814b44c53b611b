-- ===== src/AirFeedback/Accepting.antt =====
-- What the acceptance of a reply does to the state of firmware/radio/src/air_feedback.c.
use open_ull_receiver.Base.{
  ℕ, ◌+◌, ◌-◌, ◌*◌, ◌%◌, ◌<◌, ◌≡◌, ◌↔◌, refl, sym, ap, ◌∙◌, true, false, Option, some, List, [],
  ◌∷◌, arith, inl, inr, Option-cases, length, take, drop, sub32, bit_and, ◌>>>◌, not, length-take,
  length-drop, ◌==◌, get_or, length-take, length-drop,
}
use open_ull_receiver.Base.Bits.{bit_and_ones}
use open_ull_receiver.Clock.{Time, IsTime, half_us, circle}
use open_ull_receiver.AirSession.{Plan, session_time, interval_us}
use open_ull_receiver.AirSession.Times.{session_time_lem}
use open_ull_receiver.AirFrame.{RxRecord, ControlRecord, Parsing, air_uplink_parse_control}
use open_ull_receiver.AirFrame.Parse.{ForStreams}
use open_ull_receiver.AirFrame.Accept.{uplink_parse-Accepted}
use open_ull_receiver.Ccm.{Mbedtls, Session, Sealing, ccm_decrypt}
use open_ull_receiver.Ccm.Cache.{IsCoherent, ccm_encrypt_cached}
use open_ull_receiver.AirFeedback.{Feedback}
use open_ull_receiver.AirFeedback.Effects.{Settled, settled_lem}
use open_ull_receiver.AirFeedback.Reception.{
  Snapshot, ControlRx, Capture, Outcome, untimed, damaged, in_slot, settled, commit, take_plain,
  take_parsed, take_sealed, accept_frame, captures, header_of, length_of,
}

-- A reply is in the slot exactly when it is less than 5 ms after the start of the slot, going round
-- the clock.
pub in_slot_iff :
    (start now : Time)
    → IsTime start
    → IsTime now
    → (in_slot start now ≡ true) ↔ ((half_us now + circle - half_us start) % circle < 10000)
unfolding in_slot
in_slot_iff start now i j =
    ground (arith, i.coarse, i.fine, j.coarse, j.fine, bit_and_ones 28 (sub32 now.hs start.hs))

plain_parsed :
    (plain : List ℕ) (header : ℕ) (rs : List RxRecord) (control : Option ControlRecord)
    → air_uplink_parse_control (some plain) header (some (40 ∷ 95 ∷ [])) true 4 true
      ≡ Parsing.parsed rs control
    → (size : ℕ) × (mask : ℕ) × ForStreams size mask 4 0 rs
unfolding air_uplink_parse_control
plain_parsed plain header rs control h =
    let mask = bit_and (header >>> 3) 15 in
    let has_control = not (bit_and header 1 == 0) in
    let (lead, e, a) =
      (uplink_parse-Accepted plain mask 4 (40 ∷ 95 ∷ []) has_control rs control).0 h in
    (get_or (40 ∷ 95 ∷ []) (bit_and lead 3) 0, mask, a.records)

committed :
    (frame : ℕ) (s t : Feedback) (rs : List RxRecord) (control : Option ControlRecord)
    (size mask : ℕ) (c : Option ControlRx) (caps : List Capture)
    → ForStreams size mask 4 0 rs
    → commit frame s rs control ≡ Outcome.accepted t c caps
    → Settled frame s t × (commit frame t rs control ≡ Outcome.accepted t c caps)
unfolding commit
committed frame s t rs control size mask c caps fs h =
    elim (Option-cases (settled frame s rs control)) [
      | inl e ↦ absurd (ground arith)
      | inr (p, e) ↦
          let parts : (t ≡ p.0) × (c ≡ p.1) × (caps ≡ captures rs) = ground arith in
          let found : settled frame s rs control ≡ some (t, c) = ground arith in
          let (done, again) = settled_lem frame s t rs control c size mask fs found in
          (done, ground arith)
    ]

parsed :
    (frame : ℕ) (s t : Feedback) (header : ℕ) (plain : List ℕ) (p : Parsing) (c : Option ControlRx)
    (caps : List Capture)
    → air_uplink_parse_control (some plain) header (some (40 ∷ 95 ∷ [])) true 4 true ≡ p
    → take_parsed frame s header plain p ≡ Outcome.accepted t c caps
    → Settled frame s t × (take_parsed frame t header plain p ≡ Outcome.accepted t c caps)
parsed frame s t header plain Parsing.argument c caps e h = absurd (ground arith)
parsed frame s t header plain Parsing.over_capacity c caps e h = absurd (ground arith)
parsed frame s t header plain Parsing.malformed c caps e h = absurd (ground arith)
parsed frame s t header plain (Parsing.parsed [] control) c caps e h = absurd (ground arith)
parsed frame s t header plain (Parsing.parsed (r ∷ rs) control) c caps e h =
    let (size, mask, fs) = plain_parsed plain header (r ∷ rs) control e in
    committed frame s t (r ∷ rs) control size mask c caps fs h

opened :
    (frame : ℕ) (s t : Feedback) (header : ℕ) (o : Sealing) (c : Option ControlRx)
    (caps : List Capture)
    → take_sealed frame s header o ≡ Outcome.accepted t c caps
    → Settled frame s t × (take_sealed frame t header o ≡ Outcome.accepted t c caps)
unfolding take_plain
opened frame s t header Sealing.refused c caps h = absurd (ground arith)
opened frame s t header Sealing.failed c caps h = absurd (ground arith)
opened frame s t header (Sealing.sealed plain) c caps h =
    parsed frame s t header plain
      (air_uplink_parse_control (some plain) header (some (40 ∷ 95 ∷ [])) true 4 true) c caps refl h

-- The decryption of a reply.
abbrev opening :
    {Context : Type 0}
    → Mbedtls Context
    → Session Context
    → Plan
    → Snapshot
    → Session Context × Sealing
opening lib session plan snapshot =
    ccm_decrypt lib session true (take 16 (drop 52 plan.e2)) (take 8 (drop 44 plan.e2)) 0 0
      (bit_and (header_of snapshot) 0xe3) (take (length_of snapshot) snapshot.payload) 64

-- The tests that an accepted reply has passed.
record Passed {Context : Type 0} (lib : Mbedtls Context) (session after : Session Context)
    (s t : Feedback) (plan : Plan) (snapshot : Snapshot) (frame : ℕ) (c : Option ControlRx)
    (caps : List Capture) (start : Time) : Type 0 where
  pub timed : untimed plan snapshot ≡ false
  pub whole : damaged snapshot ≡ false
  pub scheduled : session_time (some plan) frame 0 true ≡ some start
  pub slot : in_slot start snapshot.time ≡ true
  pub left : after ≡ (opening lib session plan snapshot).0
  pub result :
      take_sealed frame s (header_of snapshot) ((opening lib session plan snapshot).1)
      ≡ Outcome.accepted t c caps

module _ {Context : Type 0} (lib : Mbedtls Context) (plan : Plan) (snapshot : Snapshot)
    (frame : ℕ) where
  passed :
      (session after : Session Context) (s t : Feedback) (c : Option ControlRx)
      (caps : List Capture)
      → accept_frame lib session (some s) (some plan) (some snapshot) frame
        ≡ (after, Outcome.accepted t c caps)
      → (start : Time) × Passed lib session after s t plan snapshot frame c caps start
  unfolding accept_frame
  passed session after s t c caps h = elim (Option-cases (session_time (some plan) frame 0 true)) [
    | inl e ↦ absurd (ground arith)
    | inr (start, e) ↦ (
      start,
      record {
        timed = ground arith;
        whole = ground arith;
        scheduled = e;
        slot = ground arith;
        left = ground arith;
        result = ground arith;
      },
    )
  ]

  passing :
      (session after : Session Context) (s t : Feedback) (c : Option ControlRx)
      (caps : List Capture) (start : Time)
      → Passed lib session after s t plan snapshot frame c caps start
      → accept_frame lib session (some s) (some plan) (some snapshot) frame
        ≡ (after, Outcome.accepted t c caps)
  unfolding accept_frame
  passing session after s t c caps start p =
      ground (arith, p.timed, p.whole, p.scheduled, p.slot, p.left, p.result)

  -- Opening again, with what the first opening left cached, gives the same.
  opening_again :
      (session : Session Context)
      → IsCoherent lib session
      → length plan.e2 ≡ 68
      → (opening lib ((opening lib session plan snapshot).0) plan snapshot).1
        ≡ (opening lib session plan snapshot).1
  opening_again session i l =
      let key = take 16 (drop 52 plan.e2) in
      let iv = take 8 (drop 44 plan.e2) in
      let payload = take (length_of snapshot) snapshot.payload in
      let aad = bit_and (header_of snapshot) 0xe3 in
      let sized : length key ≡ 16 =
        omega (arith, length-take 16 (drop 52 plan.e2), length-drop 52 plan.e2) in
      let once = ccm_encrypt_cached lib session true key iv payload 0 0 aad 64 i sized in
      let twice =
        ccm_encrypt_cached lib ((opening lib session plan snapshot).0) true key iv payload 0 0 aad
          64 (once.3) sized in
      twice.1 ∙ sym (once.1)

  -- A reply that is accepted as that of a frame arrived less than 5 ms after the start of the frame
  -- on the session's grid. It takes effect on the channels of its streams only where their last
  -- reply is not from a later frame, with sequence numbers below 16, and moves the generation on by
  -- one if anything changes. Accepting it a second time succeeds and changes nothing.
  pub accept_frame-accept_frame :
      (session after : Session Context) (s t : Feedback) (c : Option ControlRx)
      (caps : List Capture)
      → IsCoherent lib session
      → length plan.e2 ≡ 68
      → accept_frame lib session (some s) (some plan) (some snapshot) frame
        ≡ (after, Outcome.accepted t c caps)
      → ((half_us snapshot.time
              + circle
              - (half_us plan.start + 2 * (frame * interval_us)) % circle)
            % circle
          < 10000)
        × Settled frame s t
        × ((accept_frame lib after (some t) (some plan) (some snapshot) frame).1
            ≡ Outcome.accepted t c caps)
  accept_frame-accept_frame session after s t c caps i l h =
      let (start, p) = passed session after s t c caps h in
      let (settled_now, settled_again) =
        opened frame s t (header_of snapshot) ((opening lib session plan snapshot).1) c caps
          p.result in
      let (timed, grid) = session_time_lem plan frame 0 start p.scheduled in
      let now : IsTime snapshot.time = record {
        coarse = ground (arith, p.timed);
        fine = ground (arith, p.timed);
      } in
      let near = (in_slot_iff start snapshot.time timed now).0 p.slot in
      let same : (opening lib after plan snapshot).1 ≡ (opening lib session plan snapshot).1 =
        rw p.left (opening_again session i l) in
      let repeat : Passed lib after ((opening lib after plan snapshot).0) t t plan snapshot frame c
          caps start =
        record {
          timed = p.timed;
          whole = p.whole;
          scheduled = p.scheduled;
          slot = p.slot;
          left = refl;
          result = rw same settled_again;
        } in
      (
        omega (arith, near, grid),
        settled_now,
        ap (λ (r : Session Context × Outcome). r.1)
            (passing after ((opening lib after plan snapshot).0) t t c caps start repeat),
      )
