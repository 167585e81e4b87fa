-- ===== src/Eal.antt =====
-- rte/src/common/eal.rs: the start and the end of a program.
use rust_dpdk.Prelude.{ℕ, List, ℤ, if◌then◌else◌}
use rust_dpdk.Outcome.{exited, panicked}
use rust_dpdk.Dpdk
use rust_dpdk.Dpdk.{Dpdk, M, pure, halt, call, call_count, run, ◌>>=◌, ◌>>◌}
use rust_dpdk.Errors.{Result, map_ok, as_result}
use rust_dpdk.Utils.Strings.{has_nul}

module _ (d : Dpdk) where
  unfoldable pub iopl_init : M (Result (Unit {0}))
  unfolding as_result
  iopl_init = do ret ← call d Dpdk.eal_iopl_init; pure (map_ok (λ _. tt) (as_result ret))

  -- `init`, with the number of arguments that DPDK has taken.
  unfoldable pub init : List (List ℕ) → M (Result ℤ)
  unfolding as_result
  init args = do parsed ← call d (Dpdk.eal_init args); pure (as_result parsed)

  unfoldable pub cleanup : M (Result (Unit {0}))
  unfolding as_result
  cleanup = do ret ← call d Dpdk.eal_cleanup; pure (map_ok (λ _. tt) (as_result ret))

  -- `exit`: `rte_exit` does not return.
  unfoldable pub exit {ℓ} : {A : Type ℓ} → ℤ → List ℕ → M A
  unfolding has_nul
  exit code msg =
      if has_nul msg then halt panicked else (do run d (Dpdk.eal_exit code msg); halt (exited code))
