-- ===== src/UsbPcm/Push.antt =====
-- `ull_pcm_push` of firmware/radio/components/ull_usb/usb_pcm.c.
use open_ull_receiver.Base.{
  ℕ, ◌+◌, ◌-◌, ◌*◌, ◌%◌, ◌≤◌, ◌<◌, ◌≡◌, ◌⊎◌, inl, inr, refl, sym, ap, ap₂, ◌∙◌, min, false, some,
  List, ◌++◌, take, drop, length, arith, put_at, length-put_at, dec_lt, ◌==◌, ◌||◌,
}
use open_ull_receiver.UsbPcm.{Ring, ring_frames, pcm_push, copy_in, make_room, no_channels}
use open_ull_receiver.UsbPcm.View.{after, view, view-copy_in, length-view}
use open_ull_receiver.UsbPcm.Frames.{drop_both, new_length}
use open_ull_receiver.UsbPcm.Queue.{IsValid, contents, drop_frames, after_frames}

length-copy_in :
    (size write : ℕ) (s samples : List ℕ) → length (copy_in size write s samples) ≡ length samples
unfolding copy_in
length-copy_in size write s samples =
    let first = min (size - write) (length s) in
    length-put_at 0 (drop first s) (put_at write (take first s) samples)
    ∙ length-put_at write (take first s) samples

-- The frames that make room, and the ring without them.
abbrev over : Ring → ℕ → ℕ
over r kept = r.count + kept - ring_frames

abbrev cleared : Ring → ℕ → Ring
cleared r n = record r { read = (r.read + n) % ring_frames; count = r.count - n }

-- The ring after a push of samples that fit.
abbrev filled : Ring → ℕ → List ℕ → Ring
filled r kept s =
    let t = cleared r (over r kept) in
    record t {
      samples =
          copy_in (ring_frames * r.channels) ((t.read + t.count) % ring_frames * r.channels) s
            r.samples;
      count = t.count + kept;
    }

make_room_lem :
    (r : Ring) (kept : ℕ) → IsValid r → make_room r kept ≡ (cleared r (over r kept), over r kept)
make_room_lem r kept v = elim (dec_lt ring_frames (r.count + kept)) [
  | yes full ↦ ground arith
  | no free ↦
      let nothing : over r kept ≡ 0 = omega arith in
      let same : (r.read + 0) % ring_frames ≡ r.read = omega (arith, v.read_place) in
      let all : r.count - 0 ≡ r.count = omega arith in
      let kept_all : make_room r kept ≡ (r, 0) = ground arith in
      kept_all
      ∙ sym (
          ap (λ (n : ℕ). (cleared r n, n)) nothing
          ∙ ap₂ (λ (a : ℕ) (b : ℕ). (record r { read = a; count = b }, 0)) same all)
]

pcm_push-filled :
    (r : Ring) (s : List ℕ) (frames : ℕ)
    → IsValid r
    → 1 ≤ frames
    → let kept = min frames ring_frames in
      pcm_push r (some s) frames ≡ (
        filled r kept (take (kept * r.channels) (drop ((frames - ring_frames) * r.channels) s)),
        r.count + frames - ring_frames,
      )
unfolding pcm_push
pcm_push-filled r s frames v h =
    let kept = min frames ring_frames in
    let some_frames : (frames == 0 || no_channels r) ≡ false = ground (arith, v.sides) in
    rw some_frames (
      rw (make_room_lem r kept v) (
        ap
          (λ (n : ℕ). (
            filled r kept (take (kept * r.channels) (drop ((frames - ring_frames) * r.channels) s)),
            n,
          ))
          (omega (arith, v.fill))))

fits_lem :
    (c count read kept size : ℕ)
    → c ≡ 1 ⊎ c ≡ 2
    → read < ring_frames
    → count + kept ≤ ring_frames
    → size ≡ kept * c
    → ((count + kept) * c ≡ count * c + size)
      × (read * c < ring_frames * c)
      × (count * c + size ≤ ring_frames * c)
      × (ring_frames * c ≤ 2 * ring_frames)
fits_lem c count read kept size (inl e) p q s = ground arith
fits_lem c count read kept size (inr e) p q s = ground arith

filled_lem :
    (r : Ring) (kept : ℕ) (s : List ℕ)
    → IsValid r
    → kept ≤ ring_frames
    → length s ≡ kept * r.channels
    → (contents (filled r kept s) ≡ drop (over r kept * r.channels) (contents r) ++ s)
      × IsValid (filled r kept s)
filled_lem r kept s v h e =
    let n = over r kept in
    let c = r.channels in
    let t = cleared r n in
    let start = t.read * c in
    let old = t.count * c in
    let size = ring_frames * c in
    let place : after size old start ≡ (t.read + t.count) % ring_frames * c =
      after_frames c t.read t.count v.sides (omega arith) (omega (arith, v.fill)) in
    let (grown, near, fits, small) =
      fits_lem c t.count t.read kept (length s) v.sides (omega arith) (omega (arith, v.fill, h))
        e in
    let written =
      view-copy_in size old start s r.samples (omega (arith, small, v.room)) near fits in
    let rest =
      drop_frames c r.read r.count r.samples v.sides v.read_place v.fill n (omega (arith, h)) in
    (
      ap
            (λ (k : ℕ).
              view size k start (copy_in size ((t.read + t.count) % ring_frames * c) s r.samples))
            grown
          ∙ ap (λ (w : ℕ). view size (old + length s) start (copy_in size w s r.samples))
              (sym place)
          ∙ written
          ∙ ap (λ (l : List ℕ). l ++ s) (sym rest),
      record {
        room = length-copy_in size ((t.read + t.count) % ring_frames * c) s r.samples ∙ v.room;
        sides = v.sides;
        read_place = omega arith;
        fill = omega (arith, v.fill, h);
      },
    )

-- A push appends the frames to the queue, and then drops as many of the oldest as are more than
-- 1920, be they queued or new; it returns how many, and leaves the ring in order.
pub pcm_push_appends :
    (r : Ring) (s : List ℕ) (frames : ℕ)
    → IsValid r
    → 1 ≤ frames
    → length s ≡ frames * r.channels
    → let dropped = r.count + frames - ring_frames in
      ((pcm_push r (some s) frames).1 ≡ dropped)
      × (contents ((pcm_push r (some s) frames).0) ≡ drop (dropped * r.channels) (contents r ++ s))
      × IsValid ((pcm_push r (some s) frames).0)
pcm_push_appends r s frames v h e =
    let c = r.channels in
    let kept = min frames ring_frames in
    let new = take (kept * c) (drop ((frames - ring_frames) * c) s) in
    let (seen, valid) =
      filled_lem r kept new v (omega arith) (new_length c r.count frames s v.sides v.fill e) in
    rw (pcm_push-filled r s frames v h) (
      refl,
      seen
          ∙ drop_both c r.count kept frames (contents r) s v.sides v.fill
              (length-view (ring_frames * c) (r.count * c) (r.read * c) r.samples) refl e,
      valid,
    )
