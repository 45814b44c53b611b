-- ===== src/UsbPcm.antt =====
-- The ring of samples between the USB host and the codec: firmware/radio/components/ull_usb/usb_pcm.c
-- and usb_pcm.h. A sample is the 16-bit pattern that is copied; `none` stands for NULL.
pub mod View
pub mod Queue
pub mod Frames
pub mod Pop
pub mod Push
mod Examples
use open_ull_receiver.Base.{
  ℕ, zero, suc, ◌+◌, ◌-◌, ◌*◌, ◌%◌, min, Bool, true, false, ◌||◌, Option, none, some, List, [], ◌∷◌,
  ◌++◌, length, take, drop, put_at, ltb, ◌==◌, if◌then◌else◌,
}

abbrev pub ring_frames : ℕ
ring_frames = 1920

-- `ull_pcm_ring_t`
pub record Ring : Type 0 where
  pub samples : List ℕ
  pub read : ℕ
  pub count : ℕ
  pub channels : ℕ

pub pcm_reset : Ring → ℕ → Ring
pcm_reset r channels = record r { read = 0; count = 0; channels = channels }

-- The two copies into the ring, which begin at sample `write` of `size`.
pub copy_in : ℕ → ℕ → List ℕ → List ℕ → List ℕ
copy_in size write s samples =
    let first = min (size - write) (length s) in
    put_at 0 (drop first s) (put_at write (take first s) samples)

-- The two copies out of it, `n` samples from sample `read` on.
pub copy_out : ℕ → ℕ → ℕ → List ℕ → List ℕ
copy_out size read n samples =
    let first = min (size - read) n in take first (drop read samples) ++ take (n - first) samples

-- The oldest frames make room.
abbrev pub make_room : Ring → ℕ → Ring × ℕ
make_room r frames =
    let over = r.count + frames - ring_frames in
    if ltb ring_frames (r.count + frames)
    then (record r { read = (r.read + over) % ring_frames; count = r.count - over }, over)
    else (r, 0)

abbrev pub no_channels : Ring → Bool
no_channels r = r.channels == 0 || ltb 2 r.channels

-- `ull_pcm_push`: the ring, and the number of frames dropped.
pub pcm_push : Ring → Option (List ℕ) → ℕ → Ring × ℕ
pcm_push r none frames = (r, 0)
pcm_push r (some s) frames =
    let skip = frames - ring_frames in
    let kept = min frames ring_frames in
    let room = make_room r kept in
    let t = room.0 in
    if frames == 0 || no_channels r then (r, 0) else (
      record t {
        samples =
            copy_in (ring_frames * r.channels) ((t.read + t.count) % ring_frames * r.channels)
              (take (kept * r.channels) (drop (skip * r.channels) s)) r.samples;
        count = t.count + kept;
      },
      skip + room.1,
    )

-- `ull_pcm_pop`: the ring, and the samples copied out.
pub pcm_pop : Ring → Bool → ℕ → Ring × List ℕ
pcm_pop r false frames = (r, [])
pcm_pop r true frames =
    let n = min frames r.count in
    if no_channels r then (r, []) else (
      record r { read = (r.read + n) % ring_frames; count = r.count - n },
      copy_out (ring_frames * r.channels) (r.read * r.channels) (n * r.channels) r.samples,
    )
