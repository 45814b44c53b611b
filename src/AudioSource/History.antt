-- ===== src/AudioSource/History.antt =====
-- Whole runs of the queue of firmware/radio/src/audio_source.c: which frames come out, and in which
-- order.
use mathlib.Core.List.{Sublist}
use mathlib.Core.List.Sublist
use open_ull_receiver.Base.{
  ℕ, ◌^◌, ◌<◌, ◌≡◌, true, List, [], ◌∷◌, ◌++◌, some, Bool, ◌||◌, if◌then◌else◌,
}
use open_ull_receiver.AudioSource.{
  Source, Frame, Selection, Barrier, holds, select, push, init, rearm,
}
use open_ull_receiver.AudioSource.Contents.{IsValid, contents}

-- The frame of a selection, if it has one.
abbrev pub delivered : Selection → List Frame
delivered (Selection.encoded f) = f ∷ []
delivered _ = []

-- What a selection adds to the frames that came out: the frame that it returns for an event that no
-- latch holds. What a latch answers once more is not counted again.
abbrev pub fresh : Source → ℕ → Selection → List Frame
fresh s event r = if holds s.latch0 event || holds s.latch1 event then [] else delivered r

-- The runs of the program from `init`: what has been pushed with success, and what selections for
-- new events have returned. Any event of 32 bits may be asked for, with a destination or without,
-- whatever the latches hold and whatever was asked for before.
pub data History : Source → List Frame → List Frame → Type 0 where
  start : History init [] []
  pushed :
      {s : Source} {ins outs : List Frame} (f : Frame)
      → History s ins outs
      → (push s (some f)).1 ≡ true
      → History (push s (some f)).0 (ins ++ (f ∷ [])) outs
  selected :
      {s : Source} {ins outs : List Frame} (event : ℕ) (given : Bool)
      → History s ins outs
      → event < 2 ^ 32
      → History (select s event given).0 ins (outs ++ fresh s event (select s event given).1)
  rearmed :
      {s : Source} {ins outs : List Frame} (b : Barrier)
      → History s ins outs
      → History (rearm s (some b)).0 ins outs

-- A selection that takes nothing off the queue and brings nothing out.
record Idle (s : Source) (event : ℕ) (t : Source) (r : Selection) : Type 0 where
  valid : IsValid t
  nothing : fresh s event r ≡ []
  same : contents t ≡ contents s
