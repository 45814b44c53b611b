-- ===== src/AirFeedback/Observing.antt =====
-- What replies make of the channels of firmware/radio/src/air_feedback.c.
use open_ull_receiver.Base.{
  ℕ, ◌+◌, ◌≤◌, ◌<◌, ◌≡◌, ◌⊎◌, refl, ap, Bool, true, false, arith, inl, inr, Bool-cases,
}
use open_ull_receiver.Base.{List, [], ◌∷◌, some, Option-cases}
use open_ull_receiver.Base.Bits.{bit_and_ones}
use open_ull_receiver.AirFrame.{RxRecord}
use open_ull_receiver.AirFrame.Parse.{ForStreams}
use open_ull_receiver.AirFeedback.{
  Channel, Feedback, observe, next_ack_of, observe_all, observe_one,
}

pub observe_again :
    (frame : ℕ) (r : RxRecord) (ch : Channel)
    → observe frame r ((observe frame r ch).0) ≡ ((observe frame r ch).0, false)
unfolding observe
observe_again frame r ch = ground arith

pub observe_same :
    (frame : ℕ) (r : RxRecord) (ch : Channel)
    → (observe frame r ch).1 ≡ false
    → (observe frame r ch).0 ≡ ch
unfolding observe
observe_same frame r ch h = ground arith

-- A channel stays as it is, or takes a reply of a frame no earlier than its last.
pub data Later (frame : ℕ) (before : Channel) : Channel → Type 0 where
  same : Later frame before before
  taken :
      {after : Channel}
      → after.valid ≡ true
      → after.frame ≡ frame
      → (before.valid ≡ true → before.frame ≤ frame)
      → after.expected_tx < 16
      → after.next_ack < 16
      → Later frame before after

pub observe-Later :
    (frame : ℕ) (r : RxRecord) (ch : Channel)
    → r.ack_sequence < 16
    → Later frame ch ((observe frame r ch).0)
unfolding observe next_ack_of
observe-Later frame r ch a = elim (Bool-cases ((observe frame r ch).1)) [
  | inl changed ↦
      Later.taken (ground arith) (ground arith) (λ v. ground arith) (ground arith)
        (ground (arith, bit_and_ones 4 (r.tx_sequence + 1)))
  | inr kept ↦ rw (observe_same frame r ch kept) Later.same
]

-- The records of a packet that is accepted: at most one of each stream.
pub data Shape : List RxRecord → Type 0 where
  neither : Shape []
  first : {r : RxRecord} → r.stream_id ≡ 1 → r.ack_sequence < 16 → Shape (r ∷ [])
  second : {r : RxRecord} → r.stream_id ≡ 2 → r.ack_sequence < 16 → Shape (r ∷ [])
  both :
      {r q : RxRecord}
      → r.stream_id ≡ 1
      → r.ack_sequence < 16
      → q.stream_id ≡ 2
      → q.ack_sequence < 16
      → Shape (r ∷ q ∷ [])

refused_id :
    (frame : ℕ) (r : RxRecord) (rs : List RxRecord) (s t : Feedback × Bool)
    → observe_all frame (r ∷ rs) s ≡ some t
    → r.stream_id ≡ 1 ⊎ r.stream_id ≡ 2
unfolding observe_all
refused_id frame r rs s t h = ground arith

rest_of :
    (frame : ℕ) (r : RxRecord) (rs : List RxRecord) (s t : Feedback × Bool)
    → observe_all frame (r ∷ rs) s ≡ some t
    → (u : Feedback × Bool) × (observe_all frame rs u ≡ some t)
unfolding observe_all
rest_of frame r rs s t h = elim (Option-cases (observe_one frame r s)) [
  | inl e ↦ absurd (ground arith)
  | inr (u, e) ↦ (u, ground arith)
]

last-Shape :
    (size mask frame : ℕ) (rs : List RxRecord) (s t : Feedback × Bool)
    → ForStreams size mask 1 3 rs
    → observe_all frame rs s ≡ some t
    → rs ≡ []
last-Shape size mask frame _ s t (ForStreams.skipped _ ForStreams.done) h = refl
last-Shape size mask frame _ s t (ForStreams.present {r = r} _ f ForStreams.done) h =
    absurd (ground (arith, refused_id frame r [] s t h, f.stream))

second-Shape :
    (size mask frame : ℕ) (rs : List RxRecord) (s t : Feedback × Bool)
    → ForStreams size mask 2 2 rs
    → observe_all frame rs s ≡ some t
    → (rs ≡ []) ⊎ ((q : RxRecord) × (rs ≡ q ∷ []) × (q.stream_id ≡ 2) × (q.ack_sequence < 16))
second-Shape size mask frame rs s t (ForStreams.skipped _ fs) h =
    inl (last-Shape size mask frame rs s t fs h)
second-Shape size mask frame _ s t (ForStreams.present {r = q} {rs = rs} _ f fs) h =
    let (u, e) = rest_of frame q rs s t h in
    inr (
      q,
      ap (λ (l : List RxRecord). q ∷ l) (last-Shape size mask frame rs u t fs e),
      f.stream,
      f.ack,
    )

first-Shape :
    (size mask frame : ℕ) (rs : List RxRecord) (s t : Feedback × Bool)
    → ForStreams size mask 3 1 rs
    → observe_all frame rs s ≡ some t
    → Shape rs
first-Shape size mask frame rs s t (ForStreams.skipped _ fs) h =
    elim (second-Shape size mask frame rs s t fs h) [
      | inl e ↦ rw e Shape.neither
      | inr (q, e, i, a) ↦ rw e (Shape.second i a)
    ]
first-Shape size mask frame _ s t (ForStreams.present {r = r} {rs = rs} _ f fs) h =
    let (u, e) = rest_of frame r rs s t h in
    elim (second-Shape size mask frame rs u t fs e) [
      | inl e ↦ rw e (Shape.first f.stream f.ack)
      | inr (q, e, i, a) ↦ rw e (Shape.both f.stream f.ack i a)
    ]

pub observed-Shape :
    (size mask frame : ℕ) (rs : List RxRecord) (s t : Feedback × Bool)
    → ForStreams size mask 4 0 rs
    → observe_all frame rs s ≡ some t
    → Shape rs
observed-Shape size mask frame rs s t (ForStreams.skipped _ fs) h =
    first-Shape size mask frame rs s t fs h
observed-Shape size mask frame _ s t (ForStreams.present {r = r} {rs = rs} _ f fs) h =
    absurd (ground (arith, refused_id frame r rs s t h, f.stream))
