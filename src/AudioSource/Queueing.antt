-- ===== src/AudioSource/Queueing.antt =====
-- `ull_audio_source_push` and `ull_audio_source_select` of firmware/radio/src/audio_source.c as
-- operations on the list of queued frames.
use open_ull_receiver.Base.{
  ℕ, suc, ◌+◌, ◌-◌, ◌%◌, ◌≡◌, true, false, some, List, [], ◌∷◌, ◌++◌, length, drop, inc32, u32, min,
  arith, if◌then◌else◌, ltb, length-set,
}
use open_ull_receiver.AudioSource.{Source, Frame, Selection, index, holds, push, select_new, select}
use open_ull_receiver.AudioSource.Contents.{
  IsValid, contents, occupancy, index_mod, length-window, window_append,
}

-- A push appends the frame and returns true if fewer than four frames are queued, and otherwise
-- changes nothing and returns false; the invariant is kept.
pub push_appends :
    (s : Source) (f : Frame)
    → IsValid s
    → let (t, done) = push s (some f) in
      IsValid t
      × (done ≡ ltb (length (contents s)) 4)
      × (contents t ≡ (if ltb (length (contents s)) 4 then contents s ++ (f ∷ []) else contents s))
unfolding push
push_appends s f v = ground (
  arith,
  length-window s.queue (s.read % 4) (occupancy s),
  index_mod s.written,
  length-set s.queue (index s.written) f,
  window_append s.queue f (occupancy s) (s.read % 4) (index s.written) v.storage,
)

-- What a selection makes of the frames that are not late.
abbrev pub first : List Frame → Selection
first [] = Selection.empty
first (f ∷ fs) = Selection.encoded f

-- What `take_next` leaves behind.
record Taken (s : Source) (event discard : ℕ) (t : Source) (r : Selection) : Type 0 where
  valid : IsValid t
  result : r ≡ first (drop discard (contents s))
  rest : contents t ≡ drop (suc discard) (contents s)
  any : t.selected_any ≡ true
  last : t.last_event ≡ event
  late : t.discarded ≡ u32 (s.discarded + discard)
  starved : r ≡ Selection.empty → t.underflows ≡ inc32 s.underflows

-- The frames that a new event passes over: one for each event since the last.
abbrev pub skipped : Source → ℕ → ℕ
skipped s event = if s.selected_any then event - s.last_event - 1 else 0

-- The frames that are late and there to be dropped.
abbrev late_frames : Source → ℕ → ℕ
late_frames s event = if ltb (skipped s event) (occupancy s) then skipped s event else occupancy s

module _ (s : Source) (event : ℕ) where
  pub select-select_new :
      holds s.latch0 event ≡ false
      → holds s.latch1 event ≡ false
      → select s event true ≡ select_new (record s { requested = true }) event
  unfolding select
  select-select_new no0 no1 = rw (no0, no1)

pub asked-IsValid : (s : Source) → IsValid s → IsValid (record s { requested = true })
asked-IsValid s v = record {
  storage = v.storage;
  written = v.written;
  read = v.read;
  selected = v.selected;
  discarded = v.discarded;
  underflows = v.underflows;
  fits = v.fits;
}

-- What a selection for a new event does.
pub record Takes (s : Source) (event : ℕ) (t : Source) (r : Selection) : Type 0 where
  pub valid : IsValid t
  pub result : r ≡ first (drop (skipped s event) (contents s))
  pub rest : contents t ≡ drop (suc (skipped s event)) (contents s)
  pub discarded : t.discarded ≡ u32 (s.discarded + min (skipped s event) (length (contents s)))
  pub underflows : r ≡ Selection.empty → t.underflows ≡ inc32 s.underflows
  pub any : t.selected_any ≡ true
  pub last : t.last_event ≡ event
