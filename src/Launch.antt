-- ===== src/Launch.antt =====
-- rte/src/common/launch.rs: functions on other cores, and the context that carries them there.
pub mod Context
use rust_dpdk.Prelude.{
  ℕ, zero, suc, List, [], ◌∷◌, ◌++◌, Option, none, some, Bool, true, false, ℤ, pos, is_zero,
  if◌then◌else◌, get_elem?, not,
}
use rust_dpdk.Outcome.{Outcome, done, halted, panicked, unwrap}
use rust_dpdk.Dpdk
use rust_dpdk.Dpdk.{Dpdk, History, M, pure, lift, call, call_count, run, ◌>>=◌, ◌>>◌}
use rust_dpdk.Errors.{Result, map_ok, as_result}

pub data State : Type 0 where
  wait_state running_state finished_state : State

-- `State::from`; another number panics.
unfoldable pub state_from : ℕ → Outcome State
state_from n = unwrap (get_elem? (wait_state ∷ running_state ∷ finished_state ∷ []) n)

pub data JobState : Type 0 where
  job_wait : JobState
  job_finished : ℤ → JobState

module _ (d : Dpdk) where
  -- The value is the error or nothing; what becomes of the context is in `Context`.
  unfoldable pub remote_launch : ℕ → M (Result (Unit {0}))
  unfolding as_result
  remote_launch slave_id = do
    ret ← call d (Dpdk.eal_remote_launch slave_id)
    pure (map_ok (λ _. tt) (as_result ret))

  unfoldable pub mp_remote_launch : Bool → M (Result (Unit {0}))
  unfolding as_result
  mp_remote_launch skip_master = do
    ret ← call d (Dpdk.eal_mp_remote_launch (not skip_master))
    pure (map_ok (λ _. tt) (as_result ret))

  unfoldable pub state : ℕ → M State
  unfolding state_from
  state lcore = do s ← call_count d (Dpdk.eal_get_lcore_state lcore); lift (state_from s)

  unfoldable pub wait : ℕ → M JobState
  wait lcore = do
    s ← call d (Dpdk.eal_wait_lcore lcore)
    pure (if is_zero s then job_wait else job_finished s)

  unfoldable pub mp_wait_lcore : M (Unit {0})
  mp_wait_lcore = run d Dpdk.eal_mp_wait_lcore
