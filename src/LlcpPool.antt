-- ===== src/LlcpPool.antt =====
-- The reservation of transmit memory of the closed controller: firmware/radio/src/llcp_pool.c. What its functions
-- return is an argument: the descriptors that it hands out, the addresses of its memory, and the
-- list of its free descriptors. What is given back to it is a list of offsets.
pub mod Conserved
pub mod Counted
mod Examples
use open_ull_receiver.Base.{
  ℕ, zero, suc, ◌+◌, ◌-◌, ◌*◌, ◌/◌, ◌%◌, Bool, true, false, not, ◌&&◌, ◌||◌, none, some, Option,
  List, [], ◌∷◌, length, get_or, set, replicate, ltb, leb, ◌==◌, if◌then◌else◌,
}

abbrev pub slots : ℕ
slots = 20

abbrev pub slot_offset : ℕ → ℕ
slot_offset i = 0x1c00 + 27 * i

-- `descriptor_index`, `none` for -1; `env` is `p_ble_util_buf_env`.
unfoldable pub descriptor_index : ℕ → ℕ → Option ℕ
descriptor_index env p =
    let base = env + 32 in
    if env == 0 || ltb p base || leb (base + 160) p || not ((p - base) % 8 == 0)
    then none
    else some ((p - base) / 8)

-- A descriptor that the controller hands out: its address, and the offset in it.
pub record Descriptor : Type 0 where
  pub address : ℕ
  pub offset : ℕ

abbrev pub taken : List ℕ → ℕ → Bool
taken owned i = not (get_or owned i 0 == 0)

-- The first loop of `ull_pool_reserve`: `owned`, of which an entry is 0 until its descriptor comes, and `valid`.
unfoldable pub collect : ℕ → ℕ → List Descriptor → List ℕ → List ℕ × Bool
collect env zero ds owned = (owned, true)
collect env (suc n) [] owned = (owned, true)
collect env (suc n) (d ∷ ds) owned = elim (descriptor_index env d.address) [
  | none ↦ (owned, false)
  | some i ↦
      let owned' = set owned i d.address in
      let rest = collect env n ds owned' in
      if taken owned i
      then (owned, false)
      else if not (d.offset == slot_offset i)
      then (owned', false)
      else rest
]

-- Whether `count` entries from `i` on are owned.
unfoldable pub run_at : List ℕ → ℕ → ℕ → Bool
run_at owned i zero = true
run_at owned i (suc k) = taken owned i && run_at owned (i + 1) k

-- The first such place; `left` places are tried from `i` on.
unfoldable pub find_run : List ℕ → ℕ → ℕ → ℕ → Option ℕ
find_run owned count zero i = none
find_run owned count (suc left) i =
    let rest = find_run owned count left (i + 1) in if run_at owned i count then some i else rest

-- Whether `k` slots from the one at `offset` on lie at `memory`, without a gap.
unfoldable pub contiguous : (ℕ → ℕ) → ℕ → ℕ → ℕ → Bool
contiguous address memory i zero = true
contiguous address memory i (suc k) =
    address (slot_offset i) == memory && contiguous address (memory + 27) (i + 1) k

-- `start`, after both tests.
unfoldable pub chosen : (ℕ → ℕ) → ℕ → List ℕ × Bool → Option ℕ
chosen address count (owned, false) = none
chosen address count (owned, true) = elim (find_run owned count (slots + 1 - count) 0) [
  | none ↦ none
  | some start ↦
      if contiguous address (address (slot_offset start)) start count then some start else none
]

abbrev pub in_run : ℕ → Option ℕ → ℕ → Bool
in_run count none i = false
in_run count (some start) i = leb start i && ltb i (start + count)

-- The last loop, from `i` on: the offsets that are given back, and the descriptors that are kept, with their offsets.
unfoldable pub sort_out : (ℕ → Bool) → ℕ → List ℕ → List ℕ × List (ℕ × ℕ)
sort_out keep i [] = ([], [])
sort_out keep i (p ∷ ps) =
    let rest = sort_out keep (i + 1) ps in
    if p == 0
    then rest
    else if keep i
    then (rest.0, (p, slot_offset i) ∷ rest.1)
    else (slot_offset i ∷ rest.0, rest.1)

-- `ull_pool_reservation_t`; `count` is the number of its slots.
pub record Reservation : Type 0 where
  pub held : List (ℕ × ℕ)
  pub memory : ℕ

unfoldable pub reservation : (ℕ → ℕ) → Option ℕ → List (ℕ × ℕ) → Option Reservation
reservation address none held = none
reservation address (some start) held =
    some (record { held = held; memory = address (slot_offset start) })

-- `ull_pool_reserve`: the reservation, if it succeeds, and what it gives back.
unfoldable pub reserve : ℕ → (ℕ → ℕ) → List Descriptor → ℕ → Option Reservation × List ℕ
reserve env address ds count =
    let owned = collect env slots ds (replicate slots 0) in
    let start = chosen address count owned in
    let sorted = sort_out (in_run count start) 0 owned.0 in
    if ltb count 1 || ltb 7 count
    then (none, [])
    else (reservation address start sorted.1, sorted.0)

-- `ull_pool_release`: the slots from `first` on, and the offsets that are given back.
unfoldable pub release : ℕ → List (ℕ × ℕ) → List (ℕ × ℕ) × List ℕ
release first [] = ([], [])
release (suc first) (slot ∷ rest) = let r = release first rest in (slot ∷ r.0, r.1)
release zero ((descriptor, offset) ∷ rest) =
    let r = release zero rest in
    if descriptor == 0 then ((0, offset) ∷ r.0, r.1) else ((0, offset) ∷ r.0, offset ∷ r.1)

-- The result of `ull_pool_free_count`; `unending` is no result, and Counted shows that it does not arise.
pub data FreeCount : Type 0 where
  unending broken : FreeCount
  counted : ℕ → FreeCount

unfoldable pub one_more : FreeCount → FreeCount
one_more FreeCount.unending = FreeCount.unending
one_more FreeCount.broken = FreeCount.broken
one_more (FreeCount.counted n) = FreeCount.counted (n + 1)

-- Its loop: `next` reads the link of a node, `seen` has a bit for each descriptor.
unfoldable pub count_nodes : ℕ → ℕ → (ℕ → ℕ) → List Bool → ℕ → FreeCount
count_nodes zero env next seen node = if node == 0 then FreeCount.counted 0 else FreeCount.unending
count_nodes (suc fuel) env next seen node =
    if node == 0 then FreeCount.counted 0 else elim (descriptor_index env node) [
      | none ↦ FreeCount.broken
      | some i ↦
          let rest = count_nodes fuel env next (set seen i true) (next node) in
          if get_or seen i false then FreeCount.broken else one_more rest
    ]

-- `ull_pool_free_count`, with fuel for every descriptor and one more.
unfoldable pub free_count : ℕ → (ℕ → ℕ) → FreeCount
free_count env next =
    if env == 0
    then FreeCount.broken
    else count_nodes (slots + 1) env next (replicate slots false) (next env)
