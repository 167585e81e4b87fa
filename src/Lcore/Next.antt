-- ===== src/Lcore/Next.antt =====
-- What the loop of `next_id` in rte/src/common/lcore.rs finds, and when it ends.
use native.Mathlib.Decide.{dec_lt}
use native.Mathlib.Nat.{add-zero}
use mathlib.Core.Path.{subst}
use mathlib.Core.Bool.{false≢true}
use rust_dpdk.Prelude.{
  ℕ, zero, suc, ◌+◌, ◌%◌, ◌≤◌, ◌<◌, Bool, true, false, ◌≡◌, ◌⊎◌, inl, inr, refl, sym, ap, ◌∙◌, ◌-◌,
  arith, Bool-cases,
}
use rust_dpdk.Lcore.{
  rte_max_lcore, lcore_id_any, found, exhausted, running, is_eligible, next_loop, next_id,
}

below_suc :
    {p : ℕ → Bool} (n j : ℕ)
    → ((i : ℕ) → i < n → p i ≡ false)
    → p n ≡ false
    → j < suc n
    → p j ≡ false
below_suc {p} n j before pn h = elim (dec_lt j n) [
  | yes lt ↦ before j lt
  | no ge ↦ (let e : j ≡ n = omega arith in rw e pn)
]

-- The first number below `n` that passes a test, if there is one.
least :
    (p : ℕ → Bool) (n : ℕ)
    → ((j : ℕ) → j < n → p j ≡ false)
      ⊎ ((k : ℕ) × (k < n) × (p k ≡ true) × ((j : ℕ) → j < k → p j ≡ false))
least p zero = inl (λ j h. elim h [ ])
least p (suc n) = elim (least p n) [
  | inr (k, lt, pk, before) ↦ inr (k, omega arith, pk, before)
  | inl before ↦ elim (Bool-cases (p n)) [
    | inl pn ↦ inr (n, omega arith, pn, before)
    | inr pn ↦ inl (λ j h. below_suc n j before pn h)
  ]
]

module _ (is_enabled : ℕ → Bool) (main : ℕ) (skip : Bool) (id : ℕ) where
  -- With `wrap` the loop comes to the first eligible core after `cur`, in the cyclic order.
  wrap_finds :
      (k fuel cur : ℕ)
      → k < fuel
      → cur < lcore_id_any
      → is_eligible is_enabled main skip ((cur + 1 + k) % rte_max_lcore) ≡ true
      → ((j : ℕ) → j < k → is_eligible is_enabled main skip ((cur + 1 + j) % rte_max_lcore) ≡ false)
      → next_loop is_enabled main fuel skip true id cur ≡ found ((cur + 1 + k) % rte_max_lcore)
  unfolding next_loop
  wrap_finds k zero cur lt small good before = elim lt [ ]
  wrap_finds zero (suc fuel) cur lt small good before = ground (
    arith,
    ap (λ (n : ℕ). is_eligible is_enabled main skip (n % rte_max_lcore)) (add-zero (cur + 1)),
  )
  wrap_finds (suc k) (suc fuel) cur lt small good before =
      let shift : (j : ℕ)
          → ((cur + 1) % rte_max_lcore + 1 + j) % rte_max_lcore
            ≡ (cur + 1 + suc j) % rte_max_lcore =
        λ j. omega arith in
      let skipped : is_eligible is_enabled main skip ((cur + 1) % rte_max_lcore) ≡ false =
        subst (λ (n : ℕ). is_eligible is_enabled main skip (n % rte_max_lcore) ≡ false)
          (add-zero (cur + 1)) (before 0 (omega arith)) in
      ground (
        arith,
        skipped,
        shift k,
        wrap_finds k fuel ((cur + 1) % rte_max_lcore) (omega arith) (omega arith)
            (rw (shift k) good) (λ j h. rw (shift j) (before (suc j) (omega arith))),
      )

  -- With no eligible core it goes on for ever.
  wrap_spins :
      (fuel cur : ℕ)
      → cur < lcore_id_any
      → ((n : ℕ) → n < rte_max_lcore → is_eligible is_enabled main skip n ≡ false)
      → next_loop is_enabled main fuel skip true id cur ≡ running
  unfolding next_loop
  wrap_spins zero cur small none_left = refl
  wrap_spins (suc fuel) cur small none_left =
      ground
        (arith, none_left ((cur + 1) % rte_max_lcore), wrap_spins fuel ((cur + 1) % rte_max_lcore))

  -- Without `wrap` it comes to the first eligible core above `cur`, or to `None`.
  line_finds :
      (k fuel cur : ℕ)
      → k < fuel
      → id ≤ cur
      → cur + 1 + k < rte_max_lcore
      → is_eligible is_enabled main skip (cur + 1 + k) ≡ true
      → ((j : ℕ) → j < k → is_eligible is_enabled main skip (cur + 1 + j) ≡ false)
      → next_loop is_enabled main fuel skip false id cur ≡ found (cur + 1 + k)
  unfolding next_loop
  line_finds k zero cur lt above room good before = elim lt [ ]
  line_finds zero (suc fuel) cur lt above room good before =
      ground (arith, ap (is_eligible is_enabled main skip) (add-zero (cur + 1)))
  line_finds (suc k) (suc fuel) cur lt above room good before =
      let shift : (j : ℕ) → cur + 1 + 1 + j ≡ cur + 1 + suc j = λ j. omega arith in
      let skipped : is_eligible is_enabled main skip (cur + 1) ≡ false =
        subst (λ (n : ℕ). is_eligible is_enabled main skip n ≡ false) (add-zero (cur + 1))
          (before 0 (omega arith)) in
      ground (
        arith,
        skipped,
        shift k,
        line_finds k fuel (cur + 1) (omega arith) (omega arith) (omega arith) (rw (shift k) good)
            (λ j h. rw (shift j) (before (suc j) (omega arith))),
      )

  -- Where no core above is eligible the answer is `None`.
  line_ends :
      (fuel cur : ℕ)
      → rte_max_lcore < cur + 1 + fuel
      → 0 < fuel
      → cur < lcore_id_any
      → id ≤ cur
      → ((n : ℕ) → cur < n → n < rte_max_lcore → is_eligible is_enabled main skip n ≡ false)
      → next_loop is_enabled main fuel skip false id cur ≡ exhausted
  unfolding next_loop
  line_ends zero cur room some_fuel small above none_left = elim some_fuel [ ]
  line_ends (suc fuel) cur room some_fuel small above none_left =
      elim (dec_lt (cur + 1) rte_max_lcore) [
        | yes below ↦ ground (
          arith,
          none_left (cur + 1) (omega arith) below,
          line_ends fuel (cur + 1) (omega arith) (omega arith) (omega arith) (omega arith)
              (λ n lo hi. none_left n (omega arith) hi),
        )
        | no past ↦ ground arith
      ]

module _ (is_enabled : ℕ → Bool) (main : ℕ) (skip : Bool) (id : ℕ) (small : id < lcore_id_any) where
  -- With `wrap`, and with an eligible core `e`, `next_id` returns the first eligible core after
  -- `id` in the cyclic order, within 128 rounds.
  pub next_id-wrap :
      (fuel e : ℕ)
      → rte_max_lcore ≤ fuel
      → e < rte_max_lcore
      → is_eligible is_enabled main skip e ≡ true
      → (k : ℕ) × (k < rte_max_lcore)
        × (next_id is_enabled main fuel id skip true ≡ found ((id + 1 + k) % rte_max_lcore))
        × (is_eligible is_enabled main skip ((id + 1 + k) % rte_max_lcore) ≡ true)
        × ((j : ℕ)
            → j < k
            → is_eligible is_enabled main skip ((id + 1 + j) % rte_max_lcore) ≡ false)
  unfolding next_id
  next_id-wrap fuel e enough below good =
      elim (least (λ j. is_eligible is_enabled main skip ((id + 1 + j) % rte_max_lcore))
        rte_max_lcore) [
          | inl no_core ↦
              (let j : ℕ = (e + rte_max_lcore - (id + 1) % rte_max_lcore) % rte_max_lcore in
                let hits : (id + 1 + j) % rte_max_lcore ≡ e = omega arith in
                absurd (
                  false≢true (
                    sym (no_core j (omega arith))
                    ∙ ap (is_eligible is_enabled main skip) hits
                    ∙ good)))
          | inr (k, lt, good_k, before) ↦ (
            k,
            lt,
            wrap_finds is_enabled main skip id k fuel id (omega arith) small good_k before,
            good_k,
            before,
          )
        ]

  -- With `wrap` and with no eligible core `next_id` does not return: any number of rounds leaves it
  -- running.
  pub next_id-wrap_spins :
      (fuel : ℕ)
      → ((n : ℕ) → n < rte_max_lcore → is_eligible is_enabled main skip n ≡ false)
      → next_id is_enabled main fuel id skip true ≡ running
  unfolding next_id
  next_id-wrap_spins fuel none_left = wrap_spins is_enabled main skip id fuel id small none_left
