-- ===== src/Lcore/Foreach.antt =====
-- The iteration over the cores of rte/src/common/lcore.rs, and `next_id` without `wrap`.
use native.Mathlib.Decide.{dec_lt}
use mathlib.Core.Path.{fun_ext}
use rust_dpdk.Prelude.{
  ℕ, zero, suc, ◌+◌, ◌-◌, ◌≤◌, ◌<◌, Bool, false, ◌&&◌, ◌≡◌, refl, sym, ap, ◌∙◌, arith, ltb, List,
  [], ◌∷◌, filter, range_from,
}
use rust_dpdk.Lcore.{
  rte_max_lcore, Search, found, exhausted, is_eligible, next_loop, next_id, foreach_lcores,
}

-- The first id of a list, as an answer of `next_id`.
abbrev pub first : List ℕ → Search
first [] = exhausted
first (n ∷ ns) = found n

filter-filter :
    (p q : ℕ → Bool) (xs : List ℕ) → filter p (filter q xs) ≡ filter (λ n. q n && p n) xs
unfolding filter
filter-filter p q [] = refl
filter-filter p q (x ∷ xs) = ground (arith, filter-filter p q xs)

module _ (is_enabled : ℕ → Bool) (main : ℕ) (skip : Bool) where
  -- The loop without `wrap` is a search through the ids above `cur`.
  line-first :
      (n fuel id cur : ℕ)
      → n < fuel
      → id ≤ cur
      → cur + 1 + n ≡ rte_max_lcore
      → next_loop is_enabled main fuel skip false id cur
        ≡ first (filter (is_eligible is_enabled main skip) (range_from (cur + 1) n))
  unfolding next_loop filter range_from
  line-first n zero id cur lt above end = elim lt [ ]
  line-first zero (suc fuel) id cur lt above end = ground arith
  line-first (suc n) (suc fuel) id cur lt above end =
      ground (arith, line-first n fuel id (cur + 1) (omega arith) (omega arith) (omega arith))

  -- Above the bound every id passes.
  above-rest :
      (n i id : ℕ)
      → id < i
      → filter (λ m. is_eligible is_enabled main skip m && ltb id m) (range_from i n)
        ≡ filter (is_eligible is_enabled main skip) (range_from i n)
  unfolding filter range_from
  above-rest zero i id lt = refl
  above-rest (suc n) i id lt = ground (arith, above-rest n (i + 1) id (omega arith))

  -- The ids above a bound are the upper end of the range.
  above-range :
      (n i id : ℕ)
      → i ≤ id + 1
      → filter (λ m. is_eligible is_enabled main skip m && ltb id m) (range_from i n)
        ≡ filter (is_eligible is_enabled main skip) (range_from (id + 1) (i + n - (id + 1)))
  unfolding filter range_from
  above-range zero i id low =
      let e : zero ≡ i + zero - (id + 1) = omega arith in
      ap (λ n. filter (is_eligible is_enabled main skip) (range_from (id + 1) n)) e
  above-range (suc n) i id low = elim (dec_lt id i) [
    | yes lt ↦
        (let e : i ≡ id + 1 = omega arith in
          let r : i + suc n - (id + 1) ≡ suc n = omega arith in
          rw r (rw (← e) (above-rest (suc n) i id lt)))
    | no ge ↦
        (let r : i + suc n - (id + 1) ≡ i + 1 + n - (id + 1) = omega arith in
          rw r (ground (arith, above-range n (i + 1) id (omega arith))))
  ]

  -- `foreach_lcores` gives the eligible ids, in ascending order.
  pub foreach_lcores-filter :
      foreach_lcores is_enabled main skip
      ≡ filter (is_eligible is_enabled main skip) (range_from 0 rte_max_lcore)
  unfolding foreach_lcores is_eligible
  foreach_lcores-filter =
      filter-filter _ is_enabled (range_from 0 rte_max_lcore)
      ∙ ap (λ p. filter p (range_from 0 rte_max_lcore)) (fun_ext (λ n. ground arith))

  -- `next_id` without `wrap` returns the first of the ids that `foreach_lcores` gives above `id`,
  -- and `None` where there is none.
  pub next_id-foreach_lcores :
      (fuel id : ℕ)
      → rte_max_lcore ≤ fuel
      → id < rte_max_lcore
      → next_id is_enabled main fuel id skip false
        ≡ first (filter (ltb id) (foreach_lcores is_enabled main skip))
  unfolding next_id
  next_id-foreach_lcores fuel id enough small =
      rw (foreach_lcores-filter, filter-filter)
        (line-first (rte_max_lcore - (id + 1)) fuel id id (omega arith) (omega arith) (omega arith)
          ∙ ap first (sym (above-range rte_max_lcore 0 id (omega arith))))
