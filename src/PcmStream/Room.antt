-- ===== src/PcmStream/Room.antt =====
-- The room in the queue of encoded audio, firmware/radio/src/audio_source.c, for the responses that
-- firmware/radio/src/pcm_stream.c asks for.
use open_ull_receiver.Base.{
  ℕ, suc, ◌+◌, ◌%◌, ◌≤◌, ◌≡◌, Bool, true, not, ◌&&◌, Option, none, some, arith, length-set, ltb,
  leb, branch,
}
use open_ull_receiver.Base.Bits.{bit_and_ones}
use open_ull_receiver.AudioSource.{
  Source, Frame, Barrier, Selection, holds, discard, available, push, select, select_new, take_next,
  rearm,
}
use open_ull_receiver.AudioSource.Contents.{IsValid, index_mod}
use open_ull_receiver.AudioSource.Queueing.{asked-IsValid}

-- A queue with room for `n` more frames.
pub record HasRoom (s : Source) (n : ℕ) : Type 0 where
  pub valid : IsValid s
  pub room : available s + n ≤ 4

-- A push takes the place of one frame, and succeeds if there is one.
pub push-HasRoom :
    (s : Source) (f : Frame) (n : ℕ)
    → HasRoom s (suc n)
    → HasRoom (push s (some f)).0 n × ((push s (some f)).1 ≡ true)
unfolding push
push-HasRoom s f n h =
    ground (arith, h.valid, index_mod s.written, length-set s.queue (s.written % 4) f)

-- A selection, and a re-arm, leave no fewer places.
take_next-HasRoom :
    (s : Source) (event n late : ℕ)
    → HasRoom s n
    → late ≤ available s
    → HasRoom (take_next s event (available s) late).0 n
unfolding take_next
take_next-HasRoom s event n late h l = ground (arith, h.valid, bit_and_ones 1 s.selected)

select_new-HasRoom : (s : Source) (event n : ℕ) → HasRoom s n → HasRoom (select_new s event).0 n
unfolding select_new
select_new-HasRoom s event n h =
    let P : Source × Selection → Type 0 = λ r. HasRoom r.0 n in
    branch P (s.selected_any && leb event s.last_event) (λ _. h)
      (λ _.
        branch P (ltb 4 (available s)) (λ _. h)
          (λ _. take_next-HasRoom s event n (discard s event) h (ground arith)))

pub select-HasRoom :
    (s : Source) (event n : ℕ) (given : Bool) → HasRoom s n → HasRoom (select s event given).0 n
unfolding select
select-HasRoom s event n given h =
    let P : Source × Selection → Type 0 = λ r. HasRoom r.0 n in
    let s1 = record s { requested = true } in
    let h1 : HasRoom s1 n = record { valid = asked-IsValid s h.valid; room = h.room } in
    branch P (not given) (λ _. h)
      (λ _.
        branch P (holds s.latch0 event) (λ _. h1)
          (λ _. branch P (holds s.latch1 event) (λ _. h1) (λ _. select_new-HasRoom s1 event n h1)))

pub rearm-HasRoom :
    (s : Source) (b : Option Barrier) (n : ℕ) → HasRoom s n → HasRoom (rearm s b).0 n
unfolding rearm
rearm-HasRoom s none n h = h
rearm-HasRoom s (some b) n h = ground (arith, h.valid)
