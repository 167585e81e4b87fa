-- ===== src/Lcore.antt =====
-- rte/src/common/lcore.rs: the ids of logical cores. What DPDK knows of the cores (which are enabled,
-- which is the main one, their indices and the id of the current thread) are parameters.
pub mod Next
pub mod Foreach
pub mod Roles
use rust_dpdk.Prelude.{
  ℕ, zero, suc, ◌+◌, ◌%◌, Bool, true, false, not, ◌&&◌, ◌||◌, ltb, leb, ◌==◌, if◌then◌else◌, Option,
  none, some, List, filter, range_from,
}

abbrev pub rte_max_lcore : ℕ
rte_max_lcore = 128

-- `LCORE_ID_ANY`, which is `u32::MAX`.
abbrev pub lcore_id_any : ℕ
lcore_id_any = 4294967295

-- `PartialOrd<u32> for Id`, as the order of two ids or `None`.
pub data Order : Type 0 where
  less same greater : Order

unfoldable pub partial_cmp : ℕ → ℕ → Option Order
partial_cmp id other =
    if other == lcore_id_any
    then none
    else some (if ltb id other then less else if id == other then same else greater)

-- `current`, of what `_rte_lcore_id` returns.
unfoldable pub current : ℕ → Option ℕ
current id = if id == lcore_id_any then none else some id

-- `index`; `index_of` is `rte_lcore_index` and `id` is what `_rte_lcore_id` returns.
unfoldable pub index : (ℕ → ℕ) → ℕ → ℕ → Option ℕ
unfolding current
index index_of id lcore_id =
    let looked_up =
      (if lcore_id == lcore_id_any
        then current id
        else if ltb lcore_id rte_max_lcore
        then some lcore_id
        else none) in
    elim looked_up [ none ↦ none | some n ↦ some (index_of n) ]

-- What the loop of `next_id` comes to: an id, `None`, the overflow of `next_id += 1`, or nothing yet
-- when the fuel is used up.
pub data Search : Type 0 where
  found : ℕ → Search
  exhausted overflowed running : Search

module _ (is_enabled : ℕ → Bool) (main : ℕ) where
  unfoldable pub is_main : ℕ → Bool
  is_main id = id == main

  -- Neither `continue` of the loop is taken.
  unfoldable pub is_eligible : Bool → ℕ → Bool
  unfolding is_main
  is_eligible skip_main id = is_enabled id && not (skip_main && is_main id)

  -- The loop of `next_id`, for `fuel` rounds at most.
  unfoldable pub next_loop : ℕ → Bool → Bool → ℕ → ℕ → Search
  next_loop zero skip_main wrap lcore_id next = running
  next_loop (suc fuel) skip_main wrap lcore_id next =
      let after = (if wrap then (next + 1) % rte_max_lcore else next + 1) in
      let again = next_loop fuel skip_main wrap lcore_id after in
      if next == lcore_id_any
      then overflowed
      else if not wrap && (leb rte_max_lcore after || after == lcore_id)
      then exhausted
      else if is_eligible skip_main after
      then found after
      else again

  unfoldable pub next_id : ℕ → ℕ → Bool → Bool → Search
  unfolding next_loop
  next_id fuel lcore_id skip_main wrap = next_loop fuel skip_main wrap lcore_id lcore_id

  -- `Id::next`.
  unfoldable pub next : ℕ → ℕ → Search
  unfolding next_id
  next fuel id = next_id fuel id false true

  -- `foreach_lcores`, as the list of the ids that the iterator gives.
  unfoldable pub foreach_lcores : Bool → List ℕ
  unfolding is_main
  foreach_lcores skip_main =
      filter (λ id. not skip_main || not (is_main id))
        (filter is_enabled (range_from 0 rte_max_lcore))

  unfoldable pub enabled : List ℕ
  unfolding foreach_lcores
  enabled = foreach_lcores false
