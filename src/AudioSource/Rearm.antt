-- ===== src/AudioSource/Rearm.antt =====
-- Starting afresh and re-arming: `ull_audio_source_init`, `ull_audio_source_rearm` and the barrier
-- of firmware/radio/src/reconnect_barrier.h.
use open_ull_receiver.Base.{◌+◌, ◌%◌, ◌≡◌, true, false, ◌&&◌, u32, arith, [], length, some}
use open_ull_receiver.AudioSource.{Source, Barrier, rearm, paused}
use open_ull_receiver.AudioSource.Contents.{IsValid, contents, occupancy, length-window}

-- A re-arm runs just when the barrier is requested and acknowledged. It drops the queued frames
-- into the count of discarded ones and forgets the events, so that the next selection of any event
-- skips none; otherwise it returns false and changes nothing.
pub rearm_lem :
    (s : Source) (b : Barrier)
    → IsValid s
    → let (t, done) = rearm s (some b) in
      (done ≡ (b.requested && b.acknowledged))
      × (done ≡ false → t ≡ s)
      × IsValid t
      × (done ≡ true
          → (contents t ≡ [])
            × (t.discarded ≡ u32 (s.discarded + length (contents s)))
            × (t.selected_any ≡ false)
            × (t.requested ≡ false))
unfolding rearm paused
rearm_lem s b v = ground (arith, length-window s.queue (s.read % 4) (occupancy s))
