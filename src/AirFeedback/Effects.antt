-- ===== src/AirFeedback/Effects.antt =====
-- What a whole packet of records makes of the state of firmware/radio/src/air_feedback.c.
use open_ull_receiver.Base.{
  ℕ, ◌<◌, ◌≡◌, ◌⊎◌, refl, sym, ap, ◌∙◌, Bool, false, Option, some, List, [], ◌∷◌, arith, inl, inr,
  Bool-cases, Option-cases, ◌||◌, inc32,
}
use open_ull_receiver.AirFrame.{RxRecord, ControlRecord}
use open_ull_receiver.AirFrame.Parse.{ForStreams}
use open_ull_receiver.AirFeedback.{Channel, Feedback, observe, observe_all}
use open_ull_receiver.AirFeedback.Observing.{
  Later, Shape, observe_again, observe_same, observe-Later, observed-Shape,
}
use open_ull_receiver.AirFeedback.Reception.{settled, owned, ControlRx}

-- The state after the records, from which they have no further effect.
pub record Effect (frame : ℕ) (rs : List RxRecord) (s t : Feedback) (changed : Bool) : Type 0 where
  pub first : Later frame s.first t.first
  pub second : Later frame s.second t.second
  pub generation : t.generation ≡ s.generation
  pub kept : changed ≡ false → t ≡ s
  pub again :
      (g : ℕ)
      → observe_all frame rs (record t { generation = g }, false)
        ≡ some (record t { generation = g }, false)

some_injective : {A : Type 0} {x y : A} → some x ≡ some y → x ≡ y
some_injective h = ground arith

module _ (frame : ℕ) (s : Feedback) where
  first-Effect :
      (r : RxRecord)
      → r.stream_id ≡ 1
      → r.ack_sequence < 16
      → let o = observe frame r s.first in
        (observe_all frame (r ∷ []) (s, false) ≡ some (record s { first = o.0 }, o.1))
        × Effect frame (r ∷ []) s (record s { first = o.0 }) (o.1)
  unfolding observe_all
  first-Effect r i a = (
    ground arith,
    record {
      first = observe-Later frame r s.first a;
      second = Later.same;
      generation = refl;
      kept = λ h. ap (λ (c : Channel). record s { first = c }) (observe_same frame r s.first h);
      again = λ g. ground (arith, observe_again frame r s.first);
    },
  )

  second-Effect :
      (r : RxRecord)
      → r.stream_id ≡ 2
      → r.ack_sequence < 16
      → let o = observe frame r s.second in
        (observe_all frame (r ∷ []) (s, false) ≡ some (record s { second = o.0 }, o.1))
        × Effect frame (r ∷ []) s (record s { second = o.0 }) (o.1)
  unfolding observe_all
  second-Effect r i a = (
    ground arith,
    record {
      first = Later.same;
      second = observe-Later frame r s.second a;
      generation = refl;
      kept = λ h. ap (λ (c : Channel). record s { second = c }) (observe_same frame r s.second h);
      again = λ g. ground (arith, observe_again frame r s.second);
    },
  )

  both-Effect :
      (r q : RxRecord)
      → r.stream_id ≡ 1
      → r.ack_sequence < 16
      → q.stream_id ≡ 2
      → q.ack_sequence < 16
      → let o = observe frame r s.first in
        let p = observe frame q s.second in
        (observe_all frame (r ∷ q ∷ []) (s, false)
          ≡ some (record s { first = o.0; second = p.0 }, o.1 || p.1))
        × Effect frame (r ∷ q ∷ []) s (record s { first = o.0; second = p.0 }) (o.1 || p.1)
  unfolding observe_all
  both-Effect r q i a j b = (
    ground arith,
    record {
      first = observe-Later frame r s.first a;
      second = observe-Later frame q s.second b;
      generation = refl;
      kept = λ h. ground (arith, observe_same frame r s.first, observe_same frame q s.second);
      again = λ g. ground (arith, observe_again frame r s.first, observe_again frame q s.second);
    },
  )

  pub observe_all-Effect :
      (rs : List RxRecord) (t : Feedback × Bool)
      → Shape rs
      → observe_all frame rs (s, false) ≡ some t
      → Effect frame rs s (t.0) (t.1)
  unfolding observe_all
  observe_all-Effect _ t Shape.neither h =
      let e : t ≡ (s, false) = ground arith in
      rw e (record {
        first = Later.same;
        second = Later.same;
        generation = refl;
        kept = λ z. refl;
        again = λ g. refl;
      })
  observe_all-Effect _ t (Shape.first {r = r} i a) h =
      let e : t ≡ (record s { first = (observe frame r s.first).0 }, (observe frame r s.first).1) =
        some_injective (sym h ∙ (first-Effect r i a).0) in
      rw e ((first-Effect r i a).1)
  observe_all-Effect _ t (Shape.second {r = r} i a) h =
      let e : t
          ≡ (record s { second = (observe frame r s.second).0 }, (observe frame r s.second).1) =
        some_injective (sym h ∙ (second-Effect r i a).0) in
      rw e ((second-Effect r i a).1)
  observe_all-Effect _ t (Shape.both {r = r} {q = q} i a j b) h =
      let e : t ≡ (
        record s { first = (observe frame r s.first).0; second = (observe frame q s.second).0 },
        (observe frame r s.first).1 || (observe frame q s.second).1,
      ) =
        some_injective (sym h ∙ (both-Effect r q i a j b).0) in
      rw e ((both-Effect r q i a j b).1)

-- What `settled` does to the state: either nothing, or the channels take the replies of this frame
-- and the generation moves on by one.
pub record Settled (frame : ℕ) (before after : Feedback) : Type 0 where
  pub first : Later frame before.first after.first
  pub second : Later frame before.second after.second
  pub counted : after ≡ before ⊎ after.generation ≡ inc32 before.generation

pub settled_lem :
    (frame : ℕ) (s t : Feedback) (rs : List RxRecord) (control : Option ControlRecord)
    (c : Option ControlRx) (size mask : ℕ)
    → ForStreams size mask 4 0 rs
    → settled frame s rs control ≡ some (t, c)
    → Settled frame s t × (settled frame t rs control ≡ some (t, c))
unfolding settled
settled_lem frame s t rs control c size mask fs h =
    elim (Option-cases (observe_all frame rs (s, false))) [
      | inl e ↦ absurd (ground arith)
      | inr (u, e) ↦ elim (Option-cases (owned control)) [
        | inl e' ↦ absurd (ground arith)
        | inr (d, e') ↦
            let f =
              observe_all-Effect frame s rs u (observed-Shape size mask frame rs (s, false) u fs e)
                e in
            elim (Bool-cases (u.1)) [
              | inl changed ↦
                  let p : (t ≡ record (u.0) { generation = inc32 s.generation }) × (c ≡ d) =
                    ground arith in
                  rw (p.0) (
                    record { first = f.first; second = f.second; counted = inr refl },
                    ground (arith, f.again (inc32 s.generation)),
                  )
              | inr still ↦
                  let p : (t ≡ s) × (c ≡ d) = ground arith in
                  let k = f.kept still in
                  rw (p.0) (
                    record { first = Later.same; second = Later.same; counted = inl refl },
                    h ∙ ap (λ (x : Feedback). some (x, c)) (p.0),
                  )
            ]
      ]
    ]
