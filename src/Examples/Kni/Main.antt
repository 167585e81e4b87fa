-- ===== src/Examples/Kni/Main.antt =====
-- `main` of rte/examples/kni/main.rs. The signal handlers and what is printed are left out, and the
-- `getopts` crate is a parameter.
use rust_dpdk.Prelude.{ℕ, List, [], ◌∷◌, Option, Bool, false, pos, negsuc}
use rust_dpdk.Outcome.{panicked}
use rust_dpdk.Dpdk
use rust_dpdk.Dpdk.{Dpdk, Call, History, M, pure, halt, lift, run, call_count, ◌>>=◌, ◌>>◌}
use rust_dpdk.Errors.{expect}
use rust_dpdk.Text.{codes}
use rust_dpdk.Eal
use rust_dpdk.Kni
use rust_dpdk.Mbuf.Pool.{pool_create}
use rust_dpdk.Launch.{mp_remote_launch, mp_wait_lcore}
use rust_dpdk.Examples.Args.{prepare_args}
use rust_dpdk.Examples.Ports.{enabled_devices, check_all_ports_link_status}
use rust_dpdk.Examples.Kni.Config.{
  Conf, Matches, Parsed, parsed, refused, panic, overflow, parse_args,
}
use rust_dpdk.Examples.Kni.Ports.{init_kni, init_port}
use rust_dpdk.Examples.Kni.Ports.Alloc.{kni_alloc, kni_free_kni}

-- `expect` on what the options come to. A copy behind the structure is taken as a panic.
expect_conf : Parsed Conf → M Conf
expect_conf (parsed conf) = pure conf
expect_conf (refused e) = halt panicked
expect_conf panic = halt panicked
expect_conf overflow = halt panicked

module _ (d : Dpdk) (getopts : List (List ℕ) → Option Matches) (kni_stop : History → Bool) where
  init_ports : Conf → List ℕ → M Conf
  unfolding init_port kni_alloc
  init_ports conf [] = pure conf
  init_ports conf (p ∷ ps) = do init_port d conf p; conf' ← kni_alloc d conf p; init_ports conf' ps

  free_ports : Conf → List ℕ → M (Unit {0})
  unfolding kni_free_kni
  free_ports conf [] = pure tt
  free_ports conf (p ∷ ps) = do kni_free_kni d conf p; free_ports conf ps

  -- What `main` does with the enabled ports, which are some.
  serve : Conf → List ℕ → M (Unit {0})
  unfolding init_kni init_ports free_ports check_all_ports_link_status mp_remote_launch
      mp_wait_lcore Kni.close
  serve conf ports = do
    inited ← init_kni d conf
    expect inited
    conf' ← init_ports conf ports
    check_all_ports_link_status d kni_stop ports
    launched ← mp_remote_launch d false
    expect launched
    mp_wait_lcore d
    free_ports conf' ports
    Kni.close d

  with_ports : Conf → List ℕ → M (Unit {0})
  unfolding serve Eal.exit
  with_ports conf [] =
      Eal.exit d (negsuc 0) (codes "All available ports are disabled. Please set portmask.\n")
  with_ports conf (p ∷ ps) = serve conf (p ∷ ps)

  -- The data room of a buffer is `MAX_PACKET_SZ + RTE_PKTMBUF_HEADROOM`.
  unfoldable pub main : List (List ℕ) → M (Unit {0})
  unfolding prepare_args parse_args Eal.init pool_create enabled_devices with_ports expect_conf
  main args = do
    prepared ← lift (prepare_args args)
    eal ← Eal.init d prepared.eal_args
    expect eal
    options ← lift (parse_args (getopts prepared.opt_args))
    conf ← expect_conf options
    socket ← call_count d Dpdk.socket_id
    pool ← pool_create d (codes "mbuf_pool") 8192 32 0 2176 (pos socket)
    expect pool
    ports ← enabled_devices d kni_stop conf.enabled_port_mask
    with_ports conf ports
