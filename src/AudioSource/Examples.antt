-- ===== src/AudioSource/Examples.antt =====
-- Runs of firmware/radio/src/audio_source.c, and the theorems at concrete inputs.
use open_ull_receiver.Base.{ℕ, ◌≡◌, true, [], ◌∷◌, some}
use open_ull_receiver.AudioSource.{Source, Frame, init, push, select, select_new, take_next}
use open_ull_receiver.AudioSource.Latches.{select_again}
use open_ull_receiver.AudioSource.History.{History}

abbrev tone : ℕ → Frame
tone n = record { left = n ∷ []; right = n ∷ [] }

-- Two frames pushed, then the first taken for event 7.
abbrev two : Source
two = (push (push init (some (tone 1))).0 (some (tone 2))).0

abbrev taken : Source
taken = (select two 7 true).0

select_again_example : let (t, r) = select two 7 true in select t 7 true ≡ (t, r)
unfolding select select_new take_next push init
select_again_example = select_again two 7 (λ e. cc e)

-- A frame is taken for event 7, asked for again, and an earlier event is refused.
abbrev again : Source
again = (select taken 7 true).0
