-- ===== src/UsbPcm/Queue.antt =====
-- The ring of firmware/radio/components/ull_usb/usb_pcm.c as a queue of frames.
use open_ull_receiver.Base.{
  ℕ, ◌+◌, ◌-◌, ◌*◌, ◌%◌, ◌≤◌, ◌<◌, ◌≡◌, ◌⊎◌, inl, inr, ap, ◌∙◌, List, ◌++◌, length, take, drop,
  arith, take_over, drop_over,
}
use open_ull_receiver.UsbPcm.{Ring, ring_frames}
use open_ull_receiver.UsbPcm.View.{after, view, after_lem, view_split, length-view}

-- The array has room for 1920 stereo frames, and the places are within it.
pub record IsValid (r : Ring) : Type 0 where
  pub room : length r.samples ≡ 2 * ring_frames
  pub sides : r.channels ≡ 1 ⊎ r.channels ≡ 2
  pub read_place : r.read < ring_frames
  pub fill : r.count ≤ ring_frames

-- The samples of the queued frames, oldest first.
abbrev pub contents : Ring → List ℕ
contents r = view (ring_frames * r.channels) (r.count * r.channels) (r.read * r.channels) r.samples

-- `k` frames further on in the ring.
pub after_frames :
    (c read k : ℕ)
    → c ≡ 1 ⊎ c ≡ 2
    → read < ring_frames
    → k ≤ ring_frames
    → after (ring_frames * c) (k * c) (read * c) ≡ (read + k) % ring_frames * c
after_frames c read k (inl e) p q =
    rw e (after_lem 1920 (k * 1) (read * 1) (omega arith) (omega arith) ∙ ground arith)
after_frames c read k (inr e) p q =
    rw e (after_lem 3840 (k * 2) (read * 2) (omega arith) (omega arith) ∙ ground arith)

frames_apart : (c count k : ℕ) → k ≤ count → c ≡ 1 ⊎ c ≡ 2 → count * c ≡ k * c + (count - k) * c
frames_apart c count k h (inl e) = rw e (omega arith)
frames_apart c count k h (inr e) = rw e (omega arith)

module _ (c read count : ℕ) (buf : List ℕ) (sides : c ≡ 1 ⊎ c ≡ 2) (p : read < ring_frames)
    (q : count ≤ ring_frames) where
  -- The oldest `k` frames, and the others.
  view_frames :
      (k : ℕ)
      → k ≤ count
      → view (ring_frames * c) (count * c) (read * c) buf
        ≡ view (ring_frames * c) (k * c) (read * c) buf
          ++ view (ring_frames * c) ((count - k) * c) ((read + k) % ring_frames * c) buf
  view_frames k h =
      ap (λ (n : ℕ). view (ring_frames * c) n (read * c) buf) (frames_apart c count k h sides)
      ∙ view_split (ring_frames * c) (k * c) ((count - k) * c) (read * c) buf
      ∙ ap
          (λ (a : ℕ).
            view (ring_frames * c) (k * c) (read * c) buf
            ++ view (ring_frames * c) ((count - k) * c) a buf)
          (after_frames c read k sides p (omega arith))

  pub take_frames :
      (k : ℕ)
      → k ≤ count
      → take (k * c) (view (ring_frames * c) (count * c) (read * c) buf)
        ≡ view (ring_frames * c) (k * c) (read * c) buf
  take_frames k h =
      ap (λ (l : List ℕ). take (k * c) l) (view_frames k h)
      ∙ take_over (k * c) _ _ (length-view (ring_frames * c) (k * c) (read * c) buf)

  pub drop_frames :
      (k : ℕ)
      → k ≤ count
      → drop (k * c) (view (ring_frames * c) (count * c) (read * c) buf)
        ≡ view (ring_frames * c) ((count - k) * c) ((read + k) % ring_frames * c) buf
  drop_frames k h =
      ap (λ (l : List ℕ). drop (k * c) l) (view_frames k h)
      ∙ drop_over (k * c) 0 (k * c) _ _ (length-view (ring_frames * c) (k * c) (read * c) buf)
          (omega arith)
