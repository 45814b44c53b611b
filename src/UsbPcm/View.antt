-- ===== src/UsbPcm/View.antt =====
-- What stands in a ring of `size` samples, from a place on, once round its end.
use open_ull_receiver.Base.{
  ℕ, zero, suc, ◌+◌, ◌-◌, ◌≤◌, ◌<◌, ◌≡◌, ◌⊎◌, inr, refl, sym, ap, ap₂, ◌∙◌, min, leb, List, [], ◌∷◌,
  ◌++◌, length, get_or, take, drop, put_at, arith, if◌then◌else◌, ◌==◌, length-put_at, read-put_at,
  length-take, length-drop, take-append-drop, ℕ_discrete,
}
use open_ull_receiver.UsbPcm.{copy_in, copy_out}

take_next :
    (n a : ℕ) (buf : List ℕ)
    → a < length buf
    → take (suc n) (drop a buf) ≡ get_or buf a 0 ∷ take n (drop (suc a) buf)
take_next n a [] h = absurd (omega arith)
take_next n zero (x ∷ buf) h = refl
take_next n (suc a) (x ∷ buf) h = take_next n a buf (omega arith)

-- A sample outside of what is put is unchanged.
pub get_or-put_at :
    (n : ℕ) (xs buf : List ℕ) (i : ℕ)
    → i < n ⊎ n + length xs ≤ i
    → get_or (put_at n xs buf) i 0 ≡ get_or buf i 0
get_or-put_at zero [] buf i h = refl
get_or-put_at zero (x ∷ xs) [] i h = refl
get_or-put_at zero (x ∷ xs) (y ∷ buf) zero h = absurd (ground arith)
get_or-put_at zero (x ∷ xs) (y ∷ buf) (suc i) h = get_or-put_at zero xs buf i (inr (ground arith))
get_or-put_at (suc n) xs [] i h = refl
get_or-put_at (suc n) xs (y ∷ buf) zero h = refl
get_or-put_at (suc n) xs (y ∷ buf) (suc i) h = get_or-put_at n xs buf i (ground arith)

-- So is all that stands behind it.
drop-put_at :
    (k n : ℕ) (xs buf : List ℕ) → n + length xs ≤ k → drop k (put_at n xs buf) ≡ drop k buf
drop-put_at k zero [] buf h = refl
drop-put_at k zero (x ∷ xs) [] h = refl
drop-put_at zero zero (x ∷ xs) (y ∷ buf) h = absurd (omega arith)
drop-put_at (suc k) zero (x ∷ xs) (y ∷ buf) h = drop-put_at k zero xs buf (omega arith)
drop-put_at k (suc n) xs [] h = refl
drop-put_at zero (suc n) xs (y ∷ buf) h = absurd (omega arith)
drop-put_at (suc k) (suc n) xs (y ∷ buf) h = drop-put_at k n xs buf (omega arith)

zero_plus : (m : ℕ) → 0 + m ≡ m
zero_plus m = omega arith

suc_plus : (n m : ℕ) → suc n + m ≡ suc (n + m)
suc_plus n m = omega arith

plus_one : (a : ℕ) → suc a ≡ a + 1
plus_one a = omega arith

module _ (size : ℕ) where
  -- The place after the next `n` samples.
  abbrev pub after : ℕ → ℕ → ℕ
  after zero a = a
  after (suc n) a = after n (if a + 1 == size then 0 else a + 1)

  abbrev pub view : ℕ → ℕ → List ℕ → List ℕ
  view zero a buf = []
  view (suc n) a buf = get_or buf a 0 ∷ view n (if a + 1 == size then 0 else a + 1) buf

  pub after_lem :
      (n a : ℕ)
      → a < size
      → n ≤ size
      → after n a ≡ (if leb size (a + n) then a + n - size else a + n)
  after_lem zero a p q = ground arith
  after_lem (suc n) a p q = elim (ℕ_discrete (a + 1) size) [
    | yes e ↦ ground (arith, after_lem n 0 (omega arith) (omega arith))
    | no e ↦ ground (arith, after_lem n (a + 1) (omega arith) (omega arith))
  ]

  pub after-lt : (n a : ℕ) → a < size → after n a < size
  after-lt zero a p = p
  after-lt (suc n) a p = after-lt n (if a + 1 == size then 0 else a + 1) (ground arith)

  pub length-view : (n a : ℕ) (buf : List ℕ) → length (view n a buf) ≡ n
  length-view zero a buf = refl
  length-view (suc n) a buf = ap suc (length-view n (if a + 1 == size then 0 else a + 1) buf)

  pub view_split :
      (n m a : ℕ) (buf : List ℕ) → view (n + m) a buf ≡ view n a buf ++ view m (after n a) buf
  view_split zero m a buf = ap (λ (k : ℕ). view k a buf) (zero_plus m)
  view_split (suc n) m a buf =
      ap (λ (k : ℕ). view k a buf) (suc_plus n m)
      ∙ ap (λ (l : List ℕ). get_or buf a 0 ∷ l)
          (view_split n m (if a + 1 == size then 0 else a + 1) buf)

  view_last : (n a k : ℕ) (buf : List ℕ) → n ≡ 0 → view n a buf ≡ take n (drop k buf)
  view_last zero a k buf e = refl
  view_last (suc n) a k buf e = absurd (omega arith)

  -- Up to the end of the ring the samples stand in a row.
  view_row :
      (n a : ℕ) (buf : List ℕ)
      → size ≤ length buf
      → a + n ≤ size
      → view n a buf ≡ take n (drop a buf)
  view_row zero a buf l h = refl
  view_row (suc n) a buf l h =
      let next = if a + 1 == size then 0 else a + 1 in
      let rest : view n next buf ≡ take n (drop (suc a) buf) = elim (ℕ_discrete (a + 1) size) [
        | yes e ↦ view_last n next (suc a) buf (omega arith)
        | no e ↦
            let on : next ≡ a + 1 = ground arith in
            rw on (
              view_row n (a + 1) buf l (omega arith)
              ∙ ap (λ (k : ℕ). take n (drop k buf)) (sym (plus_one a)))
      ] in
      ap (λ (xs : List ℕ). get_or buf a 0 ∷ xs) rest ∙ sym (take_next n a buf (omega arith))

  -- The two copies out of the ring.
  pub view-copy_out :
      (n a : ℕ) (buf : List ℕ)
      → size ≤ length buf
      → a < size
      → n ≤ size
      → copy_out size a n buf ≡ view n a buf
  unfolding copy_out
  view-copy_out n a buf l p q =
      let first = min (size - a) n in
      let more = n - first in
      let whole : n ≡ first + more = omega arith in
      let row = view_row first a buf l (omega arith) in
      let around : view more (after first a) buf ≡ take more buf = elim (ℕ_discrete more 0) [
        | yes e ↦ view_last more (after first a) 0 buf e
        | no e ↦
            let back : after first a ≡ 0 = ground (arith, after_lem first a p (omega arith)) in
            ap (λ (k : ℕ). view more k buf) back ∙ view_row more 0 buf l (omega arith)
      ] in
      sym (
        ap (λ (k : ℕ). view k a buf) whole
        ∙ view_split first more a buf
        ∙ ap₂ (λ (xs : List ℕ) (ys : List ℕ). xs ++ ys) row around)

  -- Views of two rings that agree where they look.
  view_same :
      (n a : ℕ) (buf buf' : List ℕ)
      → ((k : ℕ) → k < n → get_or buf' (after k a) 0 ≡ get_or buf (after k a) 0)
      → view n a buf' ≡ view n a buf
  view_same zero a buf buf' h = refl
  view_same (suc n) a buf buf' h =
      ap₂ (λ (x : ℕ) (xs : List ℕ). x ∷ xs) (h 0 (omega arith))
        (view_same n (if a + 1 == size then 0 else a + 1) buf buf' (λ k q. h (suc k) (omega arith)))

  module _ (n a : ℕ) (s buf : List ℕ) (sized : size ≤ length buf) (below : a < size)
      (room : n + length s ≤ size) where
    abbrev write : ℕ
    write = after n a

    abbrev first_part : ℕ
    first_part = min (size - write) (length s)

    places :
        (k : ℕ)
        → k < n
        → (after k a ≡ (if leb size (a + k) then a + k - size else a + k))
          × (write ≡ (if leb size (a + n) then a + n - size else a + n))
    places k q = (after_lem k a below (omega arith), after_lem n a below (omega arith))

    -- Neither copy reaches a place in view.
    past : (k : ℕ) → k < n → 0 + length (drop first_part s) ≤ after k a
    past k q = ground (arith, places k q, length-drop first_part s)

    beside : (k : ℕ) → k < n → after k a < write ⊎ write + length (take first_part s) ≤ after k a
    beside k q = ground (arith, places k q, length-take first_part s)

    -- The samples that were in view are not touched.
    old_view : view n a (copy_in size write s buf) ≡ view n a buf
    unfolding copy_in
    old_view = view_same n a buf (copy_in size write s buf) (λ k q.
        get_or-put_at 0 (drop first_part s) (put_at write (take first_part s) buf) (after k a)
          (inr (past k q))
        ∙ get_or-put_at write (take first_part s) buf (after k a) (beside k q))

    -- The new ones follow.
    new_view : view (length s) write (copy_in size write s buf) ≡ s
    unfolding copy_in copy_out
    new_view =
        let low = take first_part s in
        let high = drop first_part s in
        let once = put_at write low buf in
        let size_once : size ≤ length once = omega (arith, length-put_at write low buf, sized) in
        let size_twice : size ≤ length (put_at 0 high once) =
          omega (arith, length-put_at 0 high once, size_once) in
        let near : write < size = after-lt n a below in
        let low_size : first_part ≡ length low = omega (arith, length-take first_part s) in
        let high_size : length s - first_part ≡ length high =
          omega (arith, length-drop first_part s) in
        let read_low : take first_part (drop write (put_at 0 high once)) ≡ low =
          ap (λ (l : List ℕ). take first_part l)
            (drop-put_at write 0 high once
              (ground (arith, after_lem n a below (omega arith), length-drop first_part s)))
          ∙ ap (λ (k : ℕ). take k (drop write once)) low_size
          ∙ read-put_at write low buf (omega (arith, low_size, near, sized)) in
        let read_high : take (length s - first_part) (put_at 0 high once) ≡ high =
          ap (λ (k : ℕ). take k (put_at 0 high once)) high_size
          ∙ read-put_at 0 high once (omega (arith, high_size, size_once, room)) in
        sym (view-copy_out (length s) write (put_at 0 high once) size_twice near (omega arith))
        ∙ ap₂ (λ (xs : List ℕ) (ys : List ℕ). xs ++ ys) read_low read_high
        ∙ take-append-drop first_part s

    pub view-copy_in : view (n + length s) a (copy_in size write s buf) ≡ view n a buf ++ s
    view-copy_in =
        view_split n (length s) a (copy_in size write s buf)
        ∙ ap₂ (λ (xs : List ℕ) (ys : List ℕ). xs ++ ys) old_view new_view
