-- ===== src/AudioSource/Latches.antt =====
-- The two latches of `struct ull_audio_source` (firmware/radio/src/audio_source.c): what asking
-- again for an event returns.
use open_ull_receiver.Base.{
  ℕ, ◌≡◌, ◌≢◌, true, arith, if◌then◌else◌, inl, inr, Option, some, none, Option-cases,
}
use open_ull_receiver.AudioSource.{
  Source, Selection, holds, take_next, select_new, select, latched, available, discard,
}

-- What the latches answer.
abbrev recall : Source → ℕ → Option Selection
recall s event =
    if holds s.latch0 event
    then some (latched s.latch0)
    else if holds s.latch1 event
    then some (latched s.latch1)
    else none

select_recalled :
    (s : Source) (event : ℕ) (r : Selection)
    → recall s event ≡ some r
    → select s event true ≡ (record s { requested = true }, r)
unfolding select
select_recalled s event r h = ground arith

take_next-recall :
    (s : Source) (event queued late : ℕ)
    → recall s event ≡ none
    → recall (take_next s event queued late).0 event ≡ some (take_next s event queued late).1
unfolding take_next
take_next-recall s event queued late miss = ground arith

take_next-requested :
    (s : Source) (event queued late : ℕ) → (take_next s event queued late).0.requested ≡ s.requested
unfolding take_next
take_next-requested s event queued late = ground arith

select_new-requested : (s : Source) (event : ℕ) → (select_new s event).0.requested ≡ s.requested
unfolding select_new
select_new-requested s event =
    ground (arith, take_next-requested s event (available s) (discard s event))

select_new-recall :
    (s : Source) (event : ℕ)
    → recall s event ≡ none
    → (select_new s event).1 ≢ Selection.refused
    → recall (select_new s event).0 event ≡ some (select_new s event).1
unfolding select_new
select_new-recall s event miss ok =
    ground (arith, take_next-recall s event (available s) (discard s event))

select-select_new :
    (s : Source) (event : ℕ)
    → recall s event ≡ none
    → select s event true ≡ select_new (record s { requested = true }) event
unfolding select
select-select_new s event miss = ground arith

select-recall :
    (s : Source) (event : ℕ)
    → (select s event true).1 ≢ Selection.refused
    → recall (select s event true).0 event ≡ some (select s event true).1
select-recall s event ok = elim (Option-cases (recall s event)) [
  | inl miss ↦ ground (
    arith,
    select-select_new s event miss,
    select_new-recall (record s { requested = true }) event miss,
  )
  | inr (r, hit) ↦ ground (arith, select_recalled s event r hit)
]

select-requested : (s : Source) (event : ℕ) → (select s event true).0.requested ≡ true
select-requested s event = elim (Option-cases (recall s event)) [
  | inl miss ↦ ground (
    arith,
    select-select_new s event miss,
    select_new-requested (record s { requested = true }) event,
  )
  | inr (r, hit) ↦ ground (arith, select_recalled s event r hit)
]

-- Asking for an event again, as a retry of the encryption does, returns what the first call
-- returned, unless that refused, and changes nothing: no further frame is consumed.
pub select_again :
    (s : Source) (event : ℕ)
    → (select s event true).1 ≢ Selection.refused
    → let (t, r) = select s event true in select t event true ≡ (t, r)
select_again s event ok = ground (
  arith,
  select-recall s event ok,
  select-requested s event,
  select_recalled (select s event true).0 event (select s event true).1,
)
