-- ===== src/LlcpPool/Examples.antt =====
-- Runs of the model of firmware/radio/src/llcp_pool.c.
use open_ull_receiver.Base.{ℕ, ◌+◌, ◌*◌, ◌≡◌, ◌≢◌, ◌≤◌, refl, List, [], ◌∷◌, arith}
use open_ull_receiver.LlcpPool.{
  Descriptor, FreeCount, slots, slot_offset, descriptor_index, reserve, release, free_count,
}
use open_ull_receiver.LlcpPool.Conserved.{times, recorded, among, held_of, reserve_conserves}
use open_ull_receiver.LlcpPool.Counted.{free_count_ends}

-- Four descriptors, handed out in no order, and one of them once more; two slots side by side are asked for.
abbrev handed : ℕ → Descriptor
handed i = record { address = 1032 + 8 * i; offset = slot_offset i }

abbrev descriptors : List Descriptor
descriptors = handed 5 ∷ handed 2 ∷ handed 0 ∷ handed 6 ∷ handed 2 ∷ []

reserve_conserves_example :
    times (slot_offset 5) (reserve 1000 (λ o. o + 9000) descriptors 2).1
      + times (slot_offset 5) (release 0 (held_of (reserve 1000 (λ o. o + 9000) descriptors 2).0)).1
    ≡ times (slot_offset 5) (recorded 1000 [] descriptors)
reserve_conserves_example =
    reserve_conserves (slot_offset 5) 1000 (λ o. o + 9000) descriptors 2 (omega arith) (omega arith)
      (omega arith)

-- Without the repetition the request succeeds, and all four are recorded.
sound_recorded :
    recorded 1000 [] (handed 5 ∷ handed 2 ∷ handed 0 ∷ handed 6 ∷ [])
    ≡ slot_offset 5 ∷ slot_offset 2 ∷ slot_offset 0 ∷ slot_offset 6 ∷ []
unfolding recorded descriptor_index among
sound_recorded = refl

-- A list of one node that leads back to itself.
free_count_ends_example :
    (free_count 1000 (λ p. 1032) ≢ FreeCount.unending)
    × ((n : ℕ) → free_count 1000 (λ p. 1032) ≡ FreeCount.counted n → n ≤ slots)
free_count_ends_example = free_count_ends 1000 (λ p. 1032)
