-- ===== src/Examples/L2fwd/Main.antt =====
-- `main` of rte/examples/l2fwd/main.rs. The signal handlers and what is printed are left out, and the
-- `getopts` crate is a parameter.
use rust_dpdk.Prelude.{
  ℕ, ◌≡◌, List, [], ◌∷◌, ◌++◌, Option, none, Bool, false, pos, negsuc, replicate, refl,
}
use rust_dpdk.Outcome.{Halt, halted, panicked, exited}
use rust_dpdk.Dpdk
use rust_dpdk.Dpdk.{Dpdk, History, M, pure, lift, call_count, ◌>>=◌, ◌>>◌}
use rust_dpdk.Errors.{expect}
use rust_dpdk.Text.{codes}
use rust_dpdk.Eal
use rust_dpdk.Mbuf.Pool.{pool_create}
use rust_dpdk.Launch.{mp_remote_launch, mp_wait_lcore}
use rust_dpdk.Examples.Ends.{IsHalted, NeverEnds, stops_first, stops_then}
use rust_dpdk.Examples.Args.{prepare_args}
use rust_dpdk.Examples.Ports.{enabled_devices, check_all_ports_link_status}
use rust_dpdk.Examples.L2fwd.Options.{Matches, Options, parse_args}
use rust_dpdk.Examples.L2fwd.Pairs.{pair_ports}
use rust_dpdk.Examples.L2fwd.Queues.{Conf, default_conf, assign_ports}
use rust_dpdk.Examples.L2fwd.Init.{PortTables, init_ports, init_port, init_port_panics, close_ports}

abbrev no_tables : PortTables
no_tables = record { ports_eth_addr = replicate 32 []; tx_buffers = replicate 32 none }

module _ (d : Dpdk) (getopts : List (List ℕ) → Option Matches) (force_quit : History → Bool)
    (is_enabled : ℕ → Bool) (main_lcore : ℕ) where
  -- What follows the set-up of the ports.
  forward : List ℕ → PortTables → M (Unit {0})
  unfolding check_all_ports_link_status mp_remote_launch mp_wait_lcore close_ports
  forward ports tables = do
    check_all_ports_link_status d force_quit ports
    launched ← mp_remote_launch d false
    expect launched
    mp_wait_lcore d
    close_ports d tables ports

  -- What `main` does with the enabled ports, which are some.
  set_up : Options → List ℕ → M (Unit {0})
  unfolding pair_ports assign_ports init_ports forward
  set_up o ports = do
    dst ← lift (pair_ports ports (replicate 32 0))
    a ← lift (assign_ports is_enabled main_lcore o.rx_queue_per_lcore ports)
    tables ← init_ports d (record default_conf { queue_conf = a.queue_conf }) ports no_tables
    forward ports tables

  with_ports : Options → List ℕ → M (Unit {0})
  unfolding set_up Eal.exit
  with_ports o [] =
      Eal.exit d (negsuc 0) (codes "All available ports are disabled. Please set portmask.\n")
  with_ports o (p ∷ ps) = set_up o (p ∷ ps)

  unfoldable pub main : List (List ℕ) → M (Unit {0})
  unfolding prepare_args parse_args Eal.init pool_create enabled_devices with_ports
  main args = do
    prepared ← lift (prepare_args args)
    o ← lift (parse_args (getopts prepared.opt_args))
    inited ← Eal.init d prepared.eal_args
    expect inited
    socket ← call_count d Dpdk.socket_id
    pool ← pool_create d (codes "mbuf_pool") 2048 32 0 2176 (pos socket)
    expect pool
    ports ← enabled_devices d force_quit o.enabled_port_mask
    with_ports o ports

module _ (d : Dpdk) (getopts : List (List ℕ) → Option Matches) (force_quit : History → Bool)
    (is_enabled : ℕ → Bool) (main_lcore : ℕ) where
  exits : (o : Options) → NeverEnds (with_ports d getopts force_quit is_enabled main_lcore o [])
  unfolding NeverEnds IsHalted with_ports Eal.exit
  exits o h = (exited (negsuc 0), refl)

  set_up-never :
      ((h : History) (p : ℕ)
        → d.ret (h ++ Dpdk.eth_promiscuous_enable p ∷ []) (Dpdk.eth_promiscuous_get p) ≡ pos 1)
      → (conf : Conf) (p : ℕ) (ps : List ℕ) (t : PortTables)
      → NeverEnds (init_ports d conf (p ∷ ps) t)
  unfolding init_ports NeverEnds IsHalted
  set_up-never kept conf p ps t =
      stops_first (init_port d conf p t) (λ r. init_ports d conf ps r.0)
        (λ h. (panicked, init_port_panics d kept conf p t h))

  with_ports-never :
      ((h : History) (p : ℕ)
        → d.ret (h ++ Dpdk.eth_promiscuous_enable p ∷ []) (Dpdk.eth_promiscuous_get p) ≡ pos 1)
      → (o : Options) (ports : List ℕ)
      → NeverEnds (with_ports d getopts force_quit is_enabled main_lcore o ports)
  unfolding with_ports set_up
  with_ports-never kept o [] = exits o
  with_ports-never kept o (p ∷ ps) =
      stops_then (lift (pair_ports (p ∷ ps) (replicate 32 0))) _ (λ dst.
        stops_then (lift (assign_ports is_enabled main_lcore o.rx_queue_per_lcore (p ∷ ps))) _ (λ a.
          stops_first
            (init_ports d (record default_conf { queue_conf = a.queue_conf }) (p ∷ ps) no_tables) _
            (set_up-never kept (record default_conf { queue_conf = a.queue_conf }) p ps no_tables)))

  main-never :
      ((h : History) (p : ℕ)
        → d.ret (h ++ Dpdk.eth_promiscuous_enable p ∷ []) (Dpdk.eth_promiscuous_get p) ≡ pos 1)
      → (args : List (List ℕ)) → NeverEnds (main d getopts force_quit is_enabled main_lcore args)
  unfolding main
  main-never kept args = stops_then (lift (prepare_args args)) _ (λ prepared.
      stops_then (lift (parse_args (getopts prepared.opt_args))) _ (λ o.
        stops_then (Eal.init d prepared.eal_args) _ (λ inited.
          stops_then (expect inited) _ (λ taken.
            stops_then (call_count d Dpdk.socket_id) _ (λ socket.
              stops_then (pool_create d (codes "mbuf_pool") 2048 32 0 2176 (pos socket)) _ (λ pool.
                stops_then (expect pool) _ (λ mp.
                  stops_then (enabled_devices d force_quit o.enabled_port_mask) _
                    (λ ports. with_ports-never kept o ports))))))))

  -- Where DPDK keeps a port promiscuous once that is enabled, and so answers 1 when it is asked, no run
  -- of the program ends with its work done, whatever the arguments, the options, the ports and the other
  -- answers of DPDK are: it stops by a panic or an exit, or is still searching for a core when the fuel of
  -- that search is used up, which is for ever where no core is enabled.
  pub main_stops :
      ((h : History) (p : ℕ)
        → d.ret (h ++ Dpdk.eth_promiscuous_enable p ∷ []) (Dpdk.eth_promiscuous_get p) ≡ pos 1)
      → (args : List (List ℕ)) (h : History)
      → (x : Halt) × ((main d getopts force_quit is_enabled main_lcore args h).0 ≡ halted x)
  unfolding NeverEnds IsHalted
  main_stops kept args h = main-never kept args h
