-- ===== src/LlcpPool/Counted.antt =====
-- The walk of firmware/radio/src/llcp_pool.c over the free descriptors.
use open_ull_receiver.Base.{
  ℕ, zero, suc, ◌+◌, ◌≡◌, ◌≢◌, ◌≤◌, ◌<◌, refl, ◌∙◌, Bool, true, false, some, List, [], ◌∷◌, length,
  get_or, set, length-set, length-replicate, replicate, ◌==◌, if◌then◌else◌, arith, Option-cases,
  inl, inr,
}
use open_ull_receiver.LlcpPool.{
  slots, descriptor_index, FreeCount, one_more, count_nodes, free_count,
}

-- The descriptors that have not been seen.
unfoldable pub unseen : List Bool → ℕ
unseen [] = 0
unseen (b ∷ bs) = (if b then 0 else 1) + unseen bs

unseen-set :
    (seen : List Bool) (i : ℕ)
    → i < length seen
    → get_or seen i false ≡ false
    → unseen (set seen i true) + 1 ≡ unseen seen
unfolding unseen
unseen-set [] i lt e = absurd (omega arith)
unseen-set (b ∷ bs) zero lt e = ground arith
unseen-set (b ∷ bs) (suc i) lt e = omega (arith, unseen-set bs i (omega arith) e)

index_small : (env p i : ℕ) → descriptor_index env p ≡ some i → i < slots
unfolding descriptor_index
index_small env p i e = ground arith

-- It ends with a number that the unseen descriptors bound, or finds the list broken.
abbrev pub Ends : FreeCount → ℕ → Type 0
Ends r most = (r ≢ FreeCount.unending) × ((n : ℕ) → r ≡ FreeCount.counted n → n ≤ most)

one_more-Ends : (r : FreeCount) (most : ℕ) → Ends r most → Ends (one_more r) (most + 1)
unfolding one_more
one_more-Ends FreeCount.unending most (done, few) = absurd (done refl)
one_more-Ends FreeCount.broken most (done, few) = (λ e. cc, λ n e. cc)
one_more-Ends (FreeCount.counted k) most (done, few) =
    (λ e. cc, λ n e. let same : k + 1 ≡ n = cc in omega (arith, few k refl))

branch-Ends :
    {x y : FreeCount} {most : ℕ} (b : Bool)
    → (b ≡ true → Ends x most)
    → (b ≡ false → Ends y most)
    → Ends (if b then x else y) most
branch-Ends true f g = f refl
branch-Ends false f g = g refl

broken-Ends : (most : ℕ) → Ends FreeCount.broken most
broken-Ends most = (λ e. cc, λ n e. cc)

none-Ends : (most : ℕ) → Ends (FreeCount.counted 0) most
none-Ends most = (λ e. cc, λ n e. let same : 0 ≡ n = cc in omega arith)

count_nodes-Ends :
    (fuel env : ℕ) (next : ℕ → ℕ) (seen : List Bool) (node : ℕ)
    → unseen seen < fuel
    → length seen ≡ slots
    → Ends (count_nodes fuel env next seen node) (unseen seen)
unfolding count_nodes
count_nodes-Ends zero env next seen node enough size = absurd (omega arith)
count_nodes-Ends (suc fuel) env next seen node enough size =
    branch-Ends (node == 0) (λ _. none-Ends (unseen seen))
      (λ _. elim (Option-cases (descriptor_index env node)) [
        | inl e ↦ rw e (broken-Ends (unseen seen))
        | inr (i, e) ↦ rw e (
            branch-Ends (get_or seen i false) (λ _. broken-Ends (unseen seen))
              (λ new.
                let left = unseen-set seen i (omega (arith, index_small env node i e)) new in
                let h =
                  count_nodes-Ends fuel env next (set seen i true) (next node) (omega (arith, left))
                    (length-set seen i true ∙ size) in
                let (done, few) =
                  one_more-Ends (count_nodes fuel env next (set seen i true) (next node))
                    (unseen (set seen i true)) h in
                (done, λ n k. omega (arith, few n k, left))))
      ])

-- Whatever list of nodes the controller's memory holds, a circle or a wild pointer included, the walk of
-- ull_pool_free_count comes to its end: the fuel is enough, and a number it returns is at most twenty.
pub free_count_ends :
    (env : ℕ) (next : ℕ → ℕ)
    → (free_count env next ≢ FreeCount.unending)
      × ((n : ℕ) → free_count env next ≡ FreeCount.counted n → n ≤ slots)
unfolding free_count unseen
free_count_ends env next =
    branch-Ends (env == 0) (λ _. broken-Ends slots)
      (λ _.
        count_nodes-Ends (slots + 1) env next (replicate slots false) (next env) (omega arith)
          (length-replicate slots false))
