-- ===== src/UsbPcm/Frames.antt =====
-- Which frames a push of firmware/radio/components/ull_usb/usb_pcm.c drops and which it copies.
use open_ull_receiver.Base.{
  ℕ, zero, suc, ◌+◌, ◌-◌, ◌*◌, ◌≤◌, ◌<◌, ◌≡◌, ◌⊎◌, inl, inr, refl, sym, ap, ap₂, ◌∙◌, min, List, [],
  ◌∷◌, ◌++◌, take, drop, length, arith, take_whole, length-take, length-drop, dec_le, drop_over,
}
use open_ull_receiver.UsbPcm.{ring_frames}

drop_within : (k : ℕ) (xs ys : List ℕ) → k ≤ length xs → drop k (xs ++ ys) ≡ drop k xs ++ ys
drop_within zero xs ys h = refl
drop_within (suc k) [] ys h = absurd (omega arith)
drop_within (suc k) (x ∷ xs) ys h = drop_within k xs ys (omega arith)

drop_all : (k : ℕ) (xs : List ℕ) → length xs ≤ k → drop k xs ≡ []
drop_all zero [] h = refl
drop_all (suc k) [] h = refl
drop_all zero (x ∷ xs) h = absurd (omega arith)
drop_all (suc k) (x ∷ xs) h = drop_all k xs (omega arith)

-- The products with one or two channels that the copies need.
products :
    (c count frames : ℕ)
    → c ≡ 1 ⊎ c ≡ 2
    → count ≤ ring_frames
    → (frames ≤ ring_frames
        → ((count + frames - ring_frames) * c ≤ count * c) × ((frames - ring_frames) * c ≡ 0))
      × (ring_frames < frames
          → (count * c ≤ (count + ring_frames - ring_frames) * c)
            × ((count + frames - ring_frames) * c ≡ count * c + (frames - ring_frames) * c)
            × (frames * c - (frames - ring_frames) * c ≡ ring_frames * c))
products c count frames (inl e) q = (λ h. ground arith, λ h. ground arith)
products c count frames (inr e) q = (λ h. ground arith, λ h. ground arith)

-- Dropping from what was queued and from what comes.
pub drop_both :
    (c count kept frames : ℕ) (xs ys : List ℕ)
    → c ≡ 1 ⊎ c ≡ 2
    → count ≤ ring_frames
    → length xs ≡ count * c
    → kept ≡ min frames ring_frames
    → length ys ≡ frames * c
    → drop ((count + kept - ring_frames) * c) xs
        ++ take (kept * c) (drop ((frames - ring_frames) * c) ys)
      ≡ drop ((count + frames - ring_frames) * c) (xs ++ ys)
drop_both c count kept frames xs ys s q lx k ly =
    let (few, many) = products c count frames s q in
    elim (dec_le frames ring_frames) [
      | yes h ↦
          let (less, none_skipped) = few h in
          let all : kept ≡ frames = omega arith in
          rw all (
            rw none_skipped (
              ap (λ (l : List ℕ). drop ((count + frames - ring_frames) * c) xs ++ l)
                (take_whole (frames * c) ys ly)
              ∙ sym (
                  drop_within ((count + frames - ring_frames) * c) xs ys
                    (omega (arith, less, lx)))))
      | no h ↦
          let (gone, sum, left) = many (omega arith) in
          let most : kept ≡ ring_frames = omega arith in
          let skip = (frames - ring_frames) * c in
          rw most (
            ap₂ (λ (a : List ℕ) (b : List ℕ). a ++ b)
              (drop_all ((count + ring_frames - ring_frames) * c) xs (omega (arith, gone, lx)))
              (take_whole (ring_frames * c) (drop skip ys)
                (omega (arith, length-drop skip ys, ly, left)))
            ∙ sym (drop_over (count * c) skip ((count + frames - ring_frames) * c) xs ys lx sum))
    ]

pub new_length :
    (c count frames : ℕ) (s : List ℕ)
    → c ≡ 1 ⊎ c ≡ 2
    → count ≤ ring_frames
    → length s ≡ frames * c
    → length (take (min frames ring_frames * c) (drop ((frames - ring_frames) * c) s))
      ≡ min frames ring_frames * c
new_length c count frames s sides q e =
    let kept = min frames ring_frames * c in
    let skip = (frames - ring_frames) * c in
    let (few, many) = products c count frames sides q in
    elim (dec_le frames ring_frames) [
      | yes h ↦
          let all : min frames ring_frames ≡ frames = omega arith in
          let size : kept ≡ frames * c = ap (λ (k : ℕ). k * c) all in
          omega (arith, length-take kept (drop skip s), length-drop skip s, size, e, few h)
      | no h ↦
          let most : min frames ring_frames ≡ ring_frames = omega arith in
          let size : kept ≡ ring_frames * c = ap (λ (k : ℕ). k * c) most in
          omega
            (arith, length-take kept (drop skip s), length-drop skip s, size, e, many (omega arith))
    ]
