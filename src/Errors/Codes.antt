-- ===== src/Errors/Codes.antt =====
-- Which codes of C the conversions of rte/src/errors.rs take for errors.
use rust_dpdk.Prelude.{ℤ, pos, negsuc, is_zero, [], ◌∷◌, ◌++◌, ◌≡◌, ◌≢◌, ◌↔◌, arith, if◌then◌else◌}
use rust_dpdk.Dpdk.{Dpdk, Call, History, call}
use rust_dpdk.Outcome.{done}
use rust_dpdk.Errors.{ok, err, rte_error, as_result, rte_check_value, rte_check}

-- `as_result` refuses the code -1 and no other: every other negative code is passed on as a value.
pub as_result_iff : (ret r : ℤ) → (as_result ret ≡ ok r) ↔ ((ret ≡ r) × (ret ≢ negsuc 0))
unfolding as_result
as_result_iff ret r = ground arith

-- `rte_check!` over a variable accepts the code 0 and no other, so it refuses every positive code.
pub rte_check_value_iff {ℓ} :
    {A : Type ℓ} (ret : ℤ) (v : A) → (rte_check_value ret v ≡ ok v) ↔ (ret ≡ pos 0)
unfolding rte_check_value
rte_check_value_iff ret v = ground arith

-- `rte_check!` over a call makes the call once where it returns 0. Where it fails, the call is made
-- twice, and the error carries the code of the second call, whatever the first one was.
pub rte_check-call {ℓ} :
    {A : Type ℓ} (d : Dpdk) (c : Call) (v : A) (h : History)
    → rte_check (call d c) v h ≡ (
        if is_zero (d.ret h c)
        then (done (ok v), h ++ c ∷ [])
        else (done (err (rte_error (d.ret (h ++ c ∷ []) c))), (h ++ c ∷ []) ++ c ∷ []))
unfolding rte_check
rte_check-call d c v h = ground arith
