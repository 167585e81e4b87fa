-- ===== src/Examples/Bond/Main.antt =====
-- `prompt` and `main` of rte/examples/bond/main.rs. What is printed is left out.
use rust_dpdk.Prelude.{ℕ, ◌≡◌, List, [], ◌∷◌, Bool, true, false, pos, negsuc, is_zero, range_from}
use rust_dpdk.Outcome.{Halt, halted, panicked}
use rust_dpdk.Dpdk
use rust_dpdk.Dpdk.{Dpdk, History, M, pure, halt, lift, call_count, ◌>>=◌, ◌>>◌}
use rust_dpdk.Errors.{expect}
use rust_dpdk.Text.{codes}
use rust_dpdk.Eal
use rust_dpdk.Ethdev
use rust_dpdk.Ethdev.Rss.Groups.{eth_rss_ip}
use rust_dpdk.Mbuf.Pool.{pool_create}
use rust_dpdk.Lcore.{foreach_lcores}
use rust_dpdk.Launch
use rust_dpdk.Launch.{State, mp_wait_lcore, remote_launch}
use rust_dpdk.Cmdline.{interact}
use rust_dpdk.Cmdline.Scope.{with_stdin}
use rust_dpdk.Examples.Ends.{IsHalted, NeverEnds, stops_first, stops_then}
use rust_dpdk.Examples.Bond.Commands.{AppConfig}
use rust_dpdk.Examples.Bond.Ports.{
  port_conf, check_ports, slave_ports_init, bond_port_init, bond_port_init_panics, slave_core,
}

-- `commands` is the address of the instructions, which run within `interact`; `id` is what
-- `_rte_lcore_id` returns.
module _ (d : Dpdk) (is_enabled : ℕ → Bool) (main_lcore id commands : ℕ) where
  unfoldable pub prompt : AppConfig → M (Unit {0})
  unfolding with_stdin interact
  prompt c = do served ← with_stdin d commands (codes "bond6> ") (interact d); expect served

  -- The test of each core; the code is `-libc::EBUSY`.
  check_state : State → M (Unit {0})
  unfolding Eal.exit
  check_state State.wait_state = pure tt
  check_state State.running_state = Eal.exit d (negsuc 15) (codes "lcores not ready")
  check_state State.finished_state = Eal.exit d (negsuc 15) (codes "lcores not ready")

  check_states : List ℕ → M (Unit {0})
  unfolding Launch.state check_state
  check_states [] = pure tt
  check_states (c ∷ cs) = do s ← Launch.state d c; check_state s; check_states cs

  -- What `main` does with the bonded device.
  serve : ℕ → M (Unit {0})
  unfolding check_states foreach_lcores slave_core Ethdev.mac_addr remote_launch prompt
      mp_wait_lcore
  serve bonded = do
    check_states (foreach_lcores is_enabled main_lcore true)
    core ← lift (slave_core is_enabled main_lcore id)
    mac ← Ethdev.mac_addr d bonded
    launched ← remote_launch d core
    expect launched
    prompt (record {
      lcore_main_is_running = true;
      lcore_main_core_id = core;
      bond_ip = 10 ∷ 0 ∷ 0 ∷ 7 ∷ [];
      bond_mac_addr = mac;
      bonded_port_id = bonded;
      port_packets = record { total = 0; arp = 0; ipv4 = 0 };
    })
    mp_wait_lcore d

  unfoldable pub main : List (List ℕ) → M (Unit {0})
  unfolding Eal.init Ethdev.count check_ports pool_create port_conf slave_ports_init bond_port_init
      serve
  main args = do
    inited ← Eal.init d args
    expect inited
    counted ← Ethdev.count d
    n ← lift (check_ports counted)
    socket ← call_count d Dpdk.socket_id
    pool ← pool_create d (codes "mbuf_pool") 8192 32 0 2176 (pos socket)
    expect pool
    slave_ports_init d (port_conf eth_rss_ip) (range_from 0 n)
    bonded ← bond_port_init d (port_conf eth_rss_ip) n
    serve bonded

  bond-never :
      ((h : History) (name : List ℕ) (mode socket : ℕ)
        → is_zero (d.ret h (Dpdk.eth_bond_create name mode socket)) ≡ false)
      → (n : ℕ) → NeverEnds (bond_port_init d (port_conf eth_rss_ip) n)
  unfolding NeverEnds IsHalted
  bond-never other n h = (panicked, bond_port_init_panics d other (port_conf eth_rss_ip) n h)

  main-never :
      ((h : History) (name : List ℕ) (mode socket : ℕ)
        → is_zero (d.ret h (Dpdk.eth_bond_create name mode socket)) ≡ false)
      → (args : List (List ℕ)) → NeverEnds (main args)
  unfolding main
  main-never other args = stops_then (Eal.init d args) _ (λ inited.
      stops_then (expect inited) _ (λ taken. stops_then (Ethdev.count d) _ (λ counted.
        stops_then (lift (check_ports counted)) _ (λ n.
          stops_then (call_count d Dpdk.socket_id) _ (λ socket.
            stops_then (pool_create d (codes "mbuf_pool") 8192 32 0 2176 (pos socket)) _ (λ pool.
              stops_then (expect pool) _ (λ mp.
                stops_then (slave_ports_init d (port_conf eth_rss_ip) (range_from 0 n)) _ (λ ports.
                  stops_first (bond_port_init d (port_conf eth_rss_ip) n) serve
                    (bond-never other n)))))))))

  -- Where DPDK never gives a bonded device the port 0, which is that of a slave, no run of the program
  -- ends with its work done: it stops by a panic or an exit, whatever the
  -- arguments, the ports and the other answers of DPDK are.
  pub bond_main_stops :
      ((h : History) (name : List ℕ) (mode socket : ℕ)
        → is_zero (d.ret h (Dpdk.eth_bond_create name mode socket)) ≡ false)
      → (args : List (List ℕ)) (h : History) → (x : Halt) × ((main args h).0 ≡ halted x)
  unfolding NeverEnds IsHalted
  bond_main_stops other args h = main-never other args h
