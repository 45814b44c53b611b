-- ===== src/LlcpPool/Conserved.antt =====
-- What firmware/radio/src/llcp_pool.c takes and gives back.
use open_ull_receiver.Base.{
  ℕ, zero, suc, ◌+◌, ◌≡◌, ◌≤◌, ◌<◌, refl, ◌∙◌, Bool, true, false, ◌||◌, none, some, Option, List,
  [], ◌∷◌, length, replicate, ltb, ◌==◌, if◌then◌else◌, arith, Bool-cases, Option-cases, set,
  length-set, length-replicate, inl, inr,
}
use open_ull_receiver.LlcpPool.{
  Descriptor, slots, slot_offset, taken, descriptor_index, collect, chosen, in_run, sort_out,
  Reservation, reservation, reserve, release,
}

-- How often a number stands in a list.
unfoldable pub times : ℕ → List ℕ → ℕ
times x [] = 0
times x (y ∷ ys) = (if x == y then 1 else 0) + times x ys

-- The offsets of the owned descriptors.
unfoldable pub owned_offsets : ℕ → List ℕ → List ℕ
owned_offsets i [] = []
owned_offsets i (p ∷ ps) =
    let rest = owned_offsets (i + 1) ps in if p == 0 then rest else slot_offset i ∷ rest

-- The offsets of the descriptors that are held.
unfoldable pub held_offsets : List (ℕ × ℕ) → List ℕ
held_offsets [] = []
held_offsets ((descriptor, offset) ∷ rest) =
    let others = held_offsets rest in if descriptor == 0 then others else offset ∷ others

sort_out-times :
    (x : ℕ) (keep : ℕ → Bool) (i : ℕ) (ps : List ℕ)
    → times x (sort_out keep i ps).0 + times x (held_offsets (sort_out keep i ps).1)
      ≡ times x (owned_offsets i ps)
unfolding sort_out times owned_offsets held_offsets
sort_out-times x keep i [] = refl
sort_out-times x keep i (p ∷ ps) =
    let h = sort_out-times x keep (i + 1) ps in
    elim (Bool-cases (p == 0)) [
      | inl e ↦ rw e h
      | inr e ↦ elim (Bool-cases (keep i)) [
        | inl k ↦ rw (e, k) (rw e (omega (arith, h)))
        | inr k ↦ rw (e, k) (omega (arith, h))
      ]
    ]

times_none :
    (x i : ℕ) (owned : List ℕ)
    → times x (sort_out (λ j. false) i owned).0 ≡ times x (owned_offsets i owned)
unfolding sort_out times owned_offsets
times_none x i [] = refl
times_none x i (p ∷ ps) =
    let h = times_none x (i + 1) ps in
    elim (Bool-cases (p == 0)) [ inl e ↦ rw e h | inr e ↦ rw e (omega (arith, h)) ]

release-times :
    (x : ℕ) (held : List (ℕ × ℕ)) → times x (release 0 held).1 ≡ times x (held_offsets held)
unfolding release times held_offsets
release-times x [] = refl
release-times x ((descriptor, offset) ∷ rest) =
    let h = release-times x rest in
    elim (Bool-cases (descriptor == 0)) [ inl e ↦ rw e h | inr e ↦ rw e (omega (arith, h)) ]

-- What a reservation holds, if there is one.
abbrev pub held_of : Option Reservation → List (ℕ × ℕ)
held_of none = []
held_of (some r) = r.held

owned_offsets-set :
    (x k i m : ℕ) (owned : List ℕ) (p : ℕ)
    → m ≡ slot_offset (k + i)
    → i < length owned
    → taken owned i ≡ false
    → (p == 0) ≡ false
    → times x (owned_offsets k (set owned i p))
      ≡ (if x == m then 1 else 0) + times x (owned_offsets k owned)
unfolding times owned_offsets
owned_offsets-set x k i m [] p same lt free some_p = absurd (omega arith)
owned_offsets-set x k zero m (q ∷ qs) p same lt free some_p =
    let none_q : (q == 0) ≡ true = ground arith in
    let here : m ≡ slot_offset k = omega arith in rw (some_p, none_q, here) refl
owned_offsets-set x k (suc i) m (q ∷ qs) p same lt free some_p =
    let h = owned_offsets-set x (k + 1) i m qs p (omega arith) (omega arith) free some_p in
    elim (Bool-cases (q == 0)) [ inl e ↦ rw e h | inr e ↦ rw e (omega (arith, h)) ]

index_some : (env p i : ℕ) → descriptor_index env p ≡ some i → ((p == 0) ≡ false) × (i < slots)
unfolding descriptor_index
index_some env p i e = (ground arith, ground arith)

unfoldable pub among : ℕ → List ℕ → Bool
among i [] = false
among i (j ∷ js) = i == j || among i js

-- The offsets of the descriptors that the code takes for its own: from the first on, each that is one of the
-- memory's and has not come before (`seen`), up to the first that is not; one with another offset than its
-- slot's is the last, and is given back at its slot's.
unfoldable pub recorded : ℕ → List ℕ → List Descriptor → List ℕ
recorded env seen [] = []
recorded env seen (d ∷ ds) = elim (descriptor_index env d.address) [
  | none ↦ []
  | some i ↦
      let rest = recorded env (i ∷ seen) ds in
      if among i seen
      then []
      else if d.offset == slot_offset i
      then d.offset ∷ rest
      else slot_offset i ∷ []
]

taken-set :
    (owned : List ℕ) (i j p : ℕ)
    → i < length owned
    → (p == 0) ≡ false
    → taken (set owned i p) j ≡ (j == i || taken owned j)
taken-set [] i j p lt some_p = absurd (omega arith)
taken-set (q ∷ qs) zero zero p lt some_p = ground arith
taken-set (q ∷ qs) zero (suc j) p lt some_p = ground arith
taken-set (q ∷ qs) (suc i) zero p lt some_p = ground arith
taken-set (q ∷ qs) (suc i) (suc j) p lt some_p =
    let h = taken-set qs i j p (omega arith) some_p in ground (arith, h)

-- What has been seen is what is owned.
abbrev Marks : List ℕ → List ℕ → Type 0
Marks seen owned = (j : ℕ) → among j seen ≡ taken owned j

Marks-set :
    (seen owned : List ℕ) (i p : ℕ)
    → i < length owned
    → (p == 0) ≡ false
    → Marks seen owned
    → Marks (i ∷ seen) (set owned i p)
unfolding among
Marks-set seen owned i p lt some_p m j =
    let here = taken-set owned i j p lt some_p in let e = m j in ground (arith, here, e)

collect-times :
    (x env n : ℕ) (seen : List ℕ) (ds : List Descriptor) (owned : List ℕ)
    → length owned ≡ slots
    → length ds ≤ n
    → Marks seen owned
    → times x (owned_offsets 0 (collect env n ds owned).0)
      ≡ times x (recorded env seen ds) + times x (owned_offsets 0 owned)
unfolding collect recorded times
collect-times x env zero seen [] owned size most m = omega arith
collect-times x env zero seen (d ∷ ds) owned size most m = absurd (omega arith)
collect-times x env (suc n) seen [] owned size most m = omega arith
collect-times x env (suc n) seen (d ∷ ds) owned size most m =
    elim (Option-cases (descriptor_index env d.address)) [
      | inl e ↦ rw (e, collect, recorded) (omega arith)
      | inr (i, e) ↦
          let (some_p, small) = index_some env d.address i e in
          let lt : i < length owned = omega arith in
          let owned' = set owned i d.address in
          let same = m i in
          let h =
            collect-times x env n (i ∷ seen) ds owned' (length-set owned i d.address ∙ size)
              (omega arith) (Marks-set seen owned i d.address lt some_p m) in
          elim (Bool-cases (taken owned i)) [
            | inl t ↦ rw (e, collect, recorded, same, t) (omega arith)
            | inr t ↦
                let one =
                  owned_offsets-set x 0 i (slot_offset i) owned d.address (omega arith) lt t
                    some_p in
                elim (Bool-cases (d.offset == slot_offset i)) [
                  | inl o ↦
                      let place : d.offset ≡ slot_offset i = ground arith in
                      rw (e, collect, recorded, same, t, o) (rw place (omega (arith, h, one)))
                  | inr o ↦ rw (e, collect, recorded, same, t, o) (omega (arith, one))
                ]
          ]
    ]

none_owned : (x k n : ℕ) → times x (owned_offsets k (replicate n 0)) ≡ 0
unfolding times owned_offsets
none_owned x k zero = refl
none_owned x k (suc n) = none_owned x (k + 1) n

none-Marks : (n : ℕ) → Marks [] (replicate n 0)
unfolding among
none-Marks zero j = refl
none-Marks (suc n) zero = refl
none-Marks (suc n) (suc j) = none-Marks n j

-- For a request of one to seven slots, whatever the pool hands out until it has no more or the twenty slots are
-- through: what ull_pool_reserve gives back at once and what ull_pool_release gives back of its reservation
-- are together the descriptors that came before the first unsound one, each exactly once, whether the
-- request succeeds or not. A descriptor that is not of the memory or that came before ends the row and is
-- not given back; one with an offset that is not its slot's ends it too, and is given back at its slot's.
pub reserve_conserves :
    (x env : ℕ) (address : ℕ → ℕ) (ds : List Descriptor) (count : ℕ)
    → 1 ≤ count
    → count ≤ 7
    → length ds ≤ slots
    → let r = reserve env address ds count in
      times x r.1 + times x (release 0 (held_of r.0)).1 ≡ times x (recorded env [] ds)
unfolding reserve times release reservation
reserve_conserves x env address ds count low high most =
    let owned = collect env slots ds (replicate slots 0) in
    let fine : (ltb count 1 || ltb 7 count) ≡ false = ground arith in
    let all =
      collect-times x env slots [] ds (replicate slots 0) (length-replicate {A = ℕ} slots 0) most
        (none-Marks slots) in
    let empty = none_owned x 0 slots in
    elim (Option-cases (chosen address count owned)) [
      | inl e ↦ rw (fine, e) (omega (arith, all, empty, times_none x 0 owned.0))
      | inr (start, e) ↦
          rw (fine, e)
            (omega (
              arith,
              all,
              empty,
              release-times x (sort_out (in_run count (some start)) 0 owned.0).1,
              sort_out-times x (in_run count (some start)) 0 owned.0,
            ))
    ]
