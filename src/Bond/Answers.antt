-- ===== src/Bond/Answers.antt =====
-- What the getters of rte/src/bond.rs can answer: their check takes 0 alone for a success.
use rust_dpdk.Prelude.{
  ℕ, ◌≡◌, List, [], some, ◌⊎◌, inl, inr, ℤ, pos, negsuc, refl, arith, take, ◌%◌, ◌^◌, zero, suc,
  Bool-cases,
}
use rust_dpdk.Outcome.{done}
use rust_dpdk.Dpdk
use rust_dpdk.Dpdk.{Dpdk, History}
use rust_dpdk.Utils.Strings.{has_nul}
use rust_dpdk.Errors.{ok, err, Error, rte_error, nul_error, rte_check_value}
use rust_dpdk.Ethdev.Device.{as_u32}
use rust_dpdk.Bond.{
  BondMode, rounc_robin, active_backup, balance, broadcast, auto_neg, adaptive_tlb, adaptive_lb,
  bond_mode_from, bond_mode_number, mode, slaves, active_slaves, primary, create,
}

-- A mode survives the way through its number.
pub bond_mode_from-number : (m : BondMode) → bond_mode_from (bond_mode_number m) ≡ some m
unfolding bond_mode_from bond_mode_number
bond_mode_from-number rounc_robin = refl
bond_mode_from-number active_backup = refl
bond_mode_from-number balance = refl
bond_mode_from-number broadcast = refl
bond_mode_from-number auto_neg = refl
bond_mode_from-number adaptive_tlb = refl
bond_mode_from-number adaptive_lb = refl

-- Only a return code of 0 is not an error.
answers :
    {A : Type 0} (r : ℤ) (f : ℤ → A)
    → ((e : Error) × (done (rte_check_value r (f r)) ≡ done (err e)))
      ⊎ (done (rte_check_value r (f r)) ≡ done (ok (f (pos 0))))
unfolding rte_check_value
answers (pos zero) f = inr refl
answers (pos (suc n)) f = inl (rte_error (pos (suc n)), refl)
answers (negsuc n) f = inl (rte_error (negsuc n), refl)

module _ (d : Dpdk) (h : History) where
  -- Whatever DPDK answers, each of these gives an error or one fixed value: the slaves are none, the
  -- mode is round robin, and the primary port and a created port are 0.
  pub getters_answer_zero :
      (port : ℕ) (name : List ℕ) (m : BondMode) (socket : ℤ)
      → (((e : Error) × ((slaves d port h).0 ≡ done (err e)))
          ⊎ ((slaves d port h).0 ≡ done (ok [])))
        × (((e : Error) × ((mode d port h).0 ≡ done (err e)))
            ⊎ ((mode d port h).0 ≡ done (ok (some rounc_robin))))
        × (((e : Error) × ((primary d port h).0 ≡ done (err e)))
            ⊎ ((primary d port h).0 ≡ done (ok 0)))
        × (((e : Error) × ((create d name m socket h).0 ≡ done (err e)))
            ⊎ ((create d name m socket h).0 ≡ done (ok 0)))
  unfolding slaves active_slaves mode primary create rte_check_value bond_mode_from
  getters_answer_zero port name m socket = (
    answers (d.ret h (Dpdk.eth_bond_slaves_get port 32)) (λ r. take (as_u32 r) (d.slaves h port)),
    answers (d.ret h (Dpdk.eth_bond_mode_get port)) (λ r. bond_mode_from (as_u32 r % 2 ^ 8)),
    answers (d.ret h (Dpdk.eth_bond_primary_get port)) (λ r. as_u32 r % 2 ^ 16),
    elim (Bool-cases (has_nul name)) [
      | inl nul ↦ inl (nul_error, ground (arith, nul))
      | inr fine ↦
          elim (answers
            (d.ret h (Dpdk.eth_bond_create name (bond_mode_number m) (as_u32 socket % 2 ^ 8)))
            (λ r. as_u32 r % 2 ^ 16)) [
              | inl (e, bad) ↦ inl (e, ground (arith, fine, bad))
              | inr good ↦ inr (ground (arith, fine, good))
            ]
    ],
  )

  -- The active slaves are asked for as the slaves are: the two give the same result and make the same
  -- call.
  pub active_slaves-slaves : (port : ℕ) → active_slaves d port h ≡ slaves d port h
  unfolding slaves active_slaves
  active_slaves-slaves port = refl
