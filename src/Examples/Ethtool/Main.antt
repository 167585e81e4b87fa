-- ===== src/Examples/Ethtool/Main.antt =====
-- `main` of rte/examples/ethtool/main.rs, `AppConfig::new` of ethtool.rs, and the command line of `main`
-- in ethapp.rs. What is printed is left out.
use rust_dpdk.Prelude.{
  ℕ, ◌≡◌, List, [], ◌∷◌, ◌++◌, none, some, Bool, true, false, ◌==◌, ltb, leb, negsuc, if◌then◌else◌,
  replicate, arith, is_minus_one, append_assoc,
}
use rust_dpdk.Outcome.{panicked, exited, out_of_fuel, halted}
use rust_dpdk.Dpdk
use rust_dpdk.Dpdk.{Dpdk, History, M, pure, halt, ◌>>=◌, ◌>>◌}
use rust_dpdk.Errors.{expect, as_result}
use rust_dpdk.Text.{codes}
use rust_dpdk.Eal
use rust_dpdk.Ethdev
use rust_dpdk.Lcore.{current, next, Search, found, exhausted, overflowed, running}
use rust_dpdk.Launch.{remote_launch, mp_wait_lcore}
use rust_dpdk.Cmdline.{interact}
use rust_dpdk.Cmdline.Scope.{with_stdin}
use rust_dpdk.Examples.Ethtool.Commands.{AppPort, Mutex}
use rust_dpdk.Examples.Ethtool.Ports.{DescLims, setup_ports}

-- `AppConfig`.
pub record AppConfig : Type 0 where
  pub ports : List Mutex
  pub exit_now : Bool

-- `AppPort::default`: all zero.
unfoldable pub default_port : AppPort
default_port = record {
  mac_addr = replicate 6 0;
  txq = record { cnt_unsent = 0; buf_frames = replicate 32 none };
  port_id = 0;
  port_active = false;
  port_dirty = false;
}

-- `AppConfig::new`.
unfoldable pub new_config : ℕ → AppConfig
unfolding default_port
new_config n = record {
  ports = replicate n (record { app_port = default_port; poisoned = false });
  exit_now = false;
}

-- The two calls of `unwrap` on the core behind this one; a search ends within 128 rounds or never.
next_core : Search → M ℕ
next_core (found id) = pure id
next_core exhausted = halt panicked
next_core overflowed = halt panicked
next_core running = halt out_of_fuel

-- `id` is what `_rte_lcore_id` returns, and `cores` is `rte_lcore_count()`; `commands` is the address of
-- the instructions. What slave_main and the commands do is within `remote_launch` and `interact`.
module _ (d : Dpdk) (info : ℕ → DescLims) (is_enabled : ℕ → Bool)
    (main_lcore id cores commands : ℕ) where
  -- `main` of ethapp.rs.
  unfoldable pub ethapp_main : M (Unit {0})
  unfolding with_stdin interact
  ethapp_main = do served ← with_stdin d commands (codes "EthApp> ") (interact d); expect served

  -- What `main` does when there are ports and cores enough.
  serve : ℕ → M AppConfig
  unfolding setup_ports new_config current next next_core remote_launch ethapp_main mp_wait_lcore
  serve n = do
    ports ← setup_ports d info 0 (new_config n).ports
    elim (current id) [
      | none ↦ halt panicked
      | some here ↦ (do
        lcore_id ← next_core (next is_enabled main_lcore 128 here)
        launched ← remote_launch d lcore_id
        expect launched
        ethapp_main
        mp_wait_lcore d
        pure (record { ports = ports; exit_now = true }))
    ]

  -- `main` behind the number of ports, at most `MAX_PORTS` of which are used.
  with_cores : ℕ → M AppConfig
  unfolding serve Eal.exit
  with_cores n =
      if ltb cores 2 then Eal.exit d (negsuc 0) (codes "No available slave core!\n") else serve n

  unfoldable pub main : List (List ℕ) → M AppConfig
  unfolding Eal.init Ethdev.count with_cores Eal.exit
  main args = do
    inited ← Eal.init d args
    expect inited
    n ← Ethdev.count d
    if n == 0
        then Eal.exit d (negsuc 0) (codes "No available NIC ports!\n")
        else with_cores (if leb n 32 then n else 32)

  -- Where DPDK starts but has no port, or the program has one core alone, the program exits with -1, and
  -- has set up no port, launched no core and opened no command line.
  pub main_exits :
      (args : List (List ℕ)) (h : History)
      → is_minus_one (d.ret h (Dpdk.eal_init args)) ≡ false
      → let asked = h ++ Dpdk.eal_init args ∷ Dpdk.eth_dev_count_avail ∷ [] in
        let n = d.count (h ++ Dpdk.eal_init args ∷ []) Dpdk.eth_dev_count_avail in
        (n ≡ 0
          → main args h ≡ (
            halted (exited (negsuc 0)),
            asked ++ Dpdk.eal_exit (negsuc 0) (codes "No available NIC ports!\n") ∷ [],
          ))
        × ((n == 0) ≡ false
            → ltb cores 2 ≡ true
            → main args h ≡ (
              halted (exited (negsuc 0)),
              asked ++ Dpdk.eal_exit (negsuc 0) (codes "No available slave core!\n") ∷ [],
            ))
  unfolding main with_cores Eal.exit as_result
  main_exits args h started = (
    (λ e. grind (arith, started, e, append_assoc)),
    (λ e one. grind (arith, started, e, one, append_assoc)),
  )
