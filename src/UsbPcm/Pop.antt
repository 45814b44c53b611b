-- ===== src/UsbPcm/Pop.antt =====
-- `ull_pcm_pop` of firmware/radio/components/ull_usb/usb_pcm.c.
use open_ull_receiver.Base.{
  ℕ, ◌+◌, ◌-◌, ◌*◌, ◌%◌, ◌≤◌, ◌<◌, ◌≡◌, sym, ◌∙◌, min, true, List, take, drop, length, arith,
}
use open_ull_receiver.UsbPcm.{Ring, ring_frames, pcm_pop, copy_out}
use open_ull_receiver.UsbPcm.View.{view-copy_out}
use open_ull_receiver.UsbPcm.Queue.{IsValid, contents, take_frames, drop_frames}

-- The ring and the samples of a pop.
abbrev popped : Ring → ℕ → Ring × List ℕ
popped r n = (
  record r { read = (r.read + n) % ring_frames; count = r.count - n },
  copy_out (ring_frames * r.channels) (r.read * r.channels) (n * r.channels) r.samples,
)

pcm_pop-popped :
    (r : Ring) (frames : ℕ) → IsValid r → pcm_pop r true frames ≡ popped r (min frames r.count)
unfolding pcm_pop
pcm_pop-popped r frames v = ground (arith, v.sides)

within :
    (r : Ring) (n : ℕ)
    → IsValid r
    → n ≤ r.count
    → (ring_frames * r.channels ≤ length r.samples)
      × (r.read * r.channels < ring_frames * r.channels)
      × (n * r.channels ≤ ring_frames * r.channels)
within r n v h = ground (arith, v.sides, v.room, v.read_place, v.fill)

-- A pop copies out the oldest frames, as many as are asked for and queued, takes just these out of
-- the queue, and leaves the ring in order.
pub pcm_pop_takes :
    (r : Ring) (frames : ℕ)
    → IsValid r
    → let n = min frames r.count * r.channels in
      ((pcm_pop r true frames).1 ≡ take n (contents r))
      × (contents ((pcm_pop r true frames).0) ≡ drop n (contents r))
      × IsValid ((pcm_pop r true frames).0)
pcm_pop_takes r frames v =
    let n = min frames r.count in
    let (room, place, fits) = within r n v (omega arith) in
    rw (pcm_pop-popped r frames v) (
      view-copy_out (ring_frames * r.channels) (n * r.channels) (r.read * r.channels) r.samples room
            place fits
          ∙ sym (
              take_frames r.channels r.read r.count r.samples v.sides v.read_place v.fill n
                (omega arith)),
      sym (
          drop_frames r.channels r.read r.count r.samples v.sides v.read_place v.fill n
            (omega arith)),
      record {
        room = v.room;
        sides = v.sides;
        read_place = omega arith;
        fill = omega (arith, v.fill);
      },
    )
