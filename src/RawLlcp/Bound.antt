-- ===== src/RawLlcp/Bound.antt =====
-- The plans that firmware/radio/src/raw_llcp.c commits to, and the session that they belong to.
use open_ull_receiver.Base.{
  ℕ, ◌≡◌, refl, sym, ap, ap₂, zero, suc, ◌∙◌, Bool, true, false, none, some, inl, inr, ◌⊎◌,
  Bool-cases, Option, List, [], ◌∷◌, take, same_bytes, if◌then◌else◌, arith,
}
use open_ull_receiver.Clock.{Time}
use open_ull_receiver.AirSession.{Anchor, Seed, Plan, Planning, plan_build}
use open_ull_receiver.RawLlcp.State.{
  Controller, Raw, session_connection_valid, capture_anchor, same_plan,
}
use open_ull_receiver.RawLlcp.Plans.{
  plan_of, plan_at, agreed, plan_for_anchor, plan_for_current_anchor, seed_of, agrees,
  prepared_plan_current,
}
use open_ull_receiver.RawLlcp.Send.{Answers, send_reason, raw_send, commit_air, commit_session}

-- What two plans that the code takes for the same share.
pub record IsSame (a b : Plan) : Type 0 where
  pub start : a.start ≡ b.start
  pub instant : a.acl_instant ≡ b.acl_instant
  pub counter : a.event_counter ≡ b.event_counter
  pub access : a.access_address ≡ b.access_address
  pub offset : a.offset_us ≡ b.offset_us
  pub message : take 68 a.e2 ≡ take 68 b.e2

same_bytes-take : (n : ℕ) (xs ys : List ℕ) → same_bytes n xs ys ≡ true → take n xs ≡ take n ys
unfolding same_bytes
same_bytes-take zero xs ys e = refl
same_bytes-take (suc n) [] ys e = absurd (cc)
same_bytes-take (suc n) (x ∷ xs) [] e = absurd (cc)
same_bytes-take (suc n) (x ∷ xs) (y ∷ ys) e =
    ap₂ (λ (z : ℕ) (zs : List ℕ). z ∷ zs) (ground arith) (same_bytes-take n xs ys (ground arith))

same_time : (a b : Time) → a.hs ≡ b.hs → a.hus ≡ b.hus → a ≡ b
same_time a b e f = ap₂ (λ (x y : ℕ). record { hs = x; hus = y }) e f

same_plan-IsSame : (a b : Plan) → same_plan a b ≡ true → IsSame a b
unfolding same_plan
same_plan-IsSame a b e = record {
  start = same_time a.start b.start (ground arith) (ground arith);
  instant = ground arith;
  counter = ground arith;
  access = ground arith;
  offset = ground arith;
  message = same_bytes-take 68 a.e2 b.e2 (ground arith);
}

IsSame-trans : {a b c : Plan} → IsSame a b → IsSame b c → IsSame a c
IsSame-trans f g = record {
  start = f.start ∙ g.start;
  instant = f.instant ∙ g.instant;
  counter = f.counter ∙ g.counter;
  access = f.access ∙ g.access;
  offset = f.offset ∙ g.offset;
  message = f.message ∙ g.message;
}

IsSame-sym : {a b : Plan} → IsSame a b → IsSame b a
IsSame-sym f = record {
  start = sym f.start;
  instant = sym f.instant;
  counter = sym f.counter;
  access = sym f.access;
  offset = sym f.offset;
  message = sym f.message;
}

-- The plan is the one that the session's messages give at the anchor.
abbrev pub PlannedAt : Raw → Anchor → Plan → Type 0
PlannedAt s anchor plan =
    (p : Plan) × (plan_build true (some s.sent_e0) (some s.received_e1) (some anchor)
        (some (seed_of plan)) plan.offset_us
      ≡ Planning.planned p)
    × IsSame plan p

plan_of_planned : (r : Planning) (p : Plan) → plan_of r ≡ some p → r ≡ Planning.planned p
unfolding plan_of
plan_of_planned Planning.invalid p e = absurd (cc)
plan_of_planned Planning.untimely p e = absurd (cc)
plan_of_planned (Planning.planned q) p e =
    let k : q ≡ p = cc in ap (λ (x : Plan). Planning.planned x) k

plan_at_planned :
    (s : Raw) (anchor : Anchor) (seed : Seed) (offset : ℕ) (p : Plan)
    → plan_at s anchor seed offset ≡ some p
    → plan_build true (some s.sent_e0) (some s.received_e1) (some anchor) (some seed) offset
      ≡ Planning.planned p
unfolding plan_at
plan_at_planned s anchor seed offset p e = plan_of_planned _ p e

agreed_both :
    (x y : Option Plan) (q : Plan)
    → agreed x y ≡ some q
    → (p : Plan) × (x ≡ some p) × (y ≡ some q) × (same_plan p q ≡ true)
unfolding agreed
agreed_both none y q e = absurd (cc)
agreed_both (some p) none q e = absurd (cc)
agreed_both (some p) (some r) q e = elim (Bool-cases (same_plan p r)) [
  | inl same ↦
      let e' : some r ≡ some q = rw same at e in let k : r ≡ q = cc in (p, refl, e', rw k at same)
  | inr other ↦ let bad : none ≡ some q = rw other at e in absurd (cc)
]

-- Both anchors give the plan.
abbrev pub Both : Controller → Raw → Plan → Type 0
Both c s plan =
    (session_connection_valid c s ≡ true)
    × PlannedAt s s.origin_anchor plan
    × ((a : Anchor) × (capture_anchor c ≡ some a) × PlannedAt s a plan)

planned_for :
    (s : Raw) (anchor : Option Anchor) (plan q : Plan)
    → plan_for_anchor s anchor (seed_of plan) plan.offset_us ≡ some q
    → same_plan plan q ≡ true
    → PlannedAt s s.origin_anchor plan × ((a : Anchor) × (anchor ≡ some a) × PlannedAt s a plan)
unfolding plan_for_anchor
planned_for s none plan q e same = absurd (cc)
planned_for s (some a) plan q e same =
    let (p, first, second, agree) =
      agreed_both (plan_at s s.origin_anchor (seed_of plan) plan.offset_us)
        (plan_at s a (seed_of plan) plan.offset_us) q e in
    let mine = same_plan-IsSame plan q same in
    (
      (
        p,
        plan_at_planned s s.origin_anchor (seed_of plan) plan.offset_us p first,
        IsSame-trans mine (IsSame-sym (same_plan-IsSame p q agree)),
      ),
      (a, refl, (q, plan_at_planned s a (seed_of plan) plan.offset_us q second, mine)),
    )

agrees-some :
    (x : Option Plan) (plan : Plan)
    → agrees x plan ≡ true
    → (q : Plan) × (x ≡ some q) × (same_plan plan q ≡ true)
unfolding agrees
agrees-some none plan e = absurd (cc)
agrees-some (some q) plan e = (q, refl, e)

current-Both :
    (c : Controller) (s : Raw) (plan : Plan)
    → agrees (plan_for_current_anchor c s (seed_of plan) plan.offset_us) plan ≡ true
    → Both c s plan
unfolding plan_for_current_anchor
current-Both c s plan e =
    let (q, found, same) =
      agrees-some (plan_for_current_anchor c s (seed_of plan) plan.offset_us) plan e in
    elim (Bool-cases (session_connection_valid c s)) [
      | inl valid ↦
          let found' : plan_for_anchor s (capture_anchor c) (seed_of plan) plan.offset_us ≡ some q =
            rw valid at found in
          let (first, second) = planned_for s (capture_anchor c) plan q found' same in
          (valid, first, second)
      | inr broken ↦ let bad : none ≡ some q = rw broken at found in absurd (cc)
    ]

-- A current plan is the prepared one.
prepared-Both :
    (c : Controller) (s : Raw) (plan : Plan)
    → prepared_plan_current c s plan ≡ true
    → (same_plan plan s.prepared_plan ≡ true) × Both c s plan
unfolding prepared_plan_current
prepared-Both c s plan e = (ground arith, current-Both c s plan (ground arith))

commit_air_current :
    (c : Controller) (s : Raw) (plan : Plan)
    → (commit_air c s plan).1 ≡ 0
    → prepared_plan_current c s plan ≡ true
unfolding commit_air
commit_air_current c s plan e = ground arith

send_current :
    (c : Controller) (a : Answers) (s : Raw) (plan : Plan)
    → (raw_send c a s 0xe2 (some plan)).1 ≡ 0
    → prepared_plan_current c s plan ≡ true
unfolding raw_send send_reason
send_current c a s plan e = ground arith

either : (b : Bool) (x y : Raw × ℕ) → (if b then x else y).1 ≡ 0 → (x.1 ≡ 0) ⊎ (y.1 ≡ 0)
either true x y e = inl e
either false x y e = inr e

-- `ull_raw_commit_session` returns 0 for a prepared plan only, on the encrypted connection of the session, and
-- only if the plan is what ull_air_session_plan_build makes of the proposal that was sent and of the answer that
-- was received, both at the anchor that was taken with the proposal and at the present one.
pub commit_session_bound :
    (c : Controller) (a : Answers) (s : Raw) (plan : Plan)
    → (commit_session c a s plan).1 ≡ 0
    → IsSame plan s.prepared_plan × Both c s plan
unfolding commit_session
commit_session_bound c a s plan e =
    let current : prepared_plan_current c s plan ≡ true =
      elim (either s.air_parent.active (commit_air c s plan) (raw_send c a s 0xe2 (some plan)) e) [
        | inl within ↦ commit_air_current c s plan within
        | inr outside ↦ send_current c a s plan outside
      ] in
    let (same, both) = prepared-Both c s plan current in
    (same_plan-IsSame plan s.prepared_plan same, both)
