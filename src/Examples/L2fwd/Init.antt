-- ===== src/Examples/L2fwd/Init.antt =====
-- The ports in `main` of rte/examples/l2fwd/main.rs: set up, started, and in the end closed.
use rust_dpdk.Prelude.{ℕ, List, [], ◌∷◌, Option, none, some, Bool, ◌≡◌, ◌++◌, arith, pos}
use rust_dpdk.Outcome.{halted, panicked, write, read}
use rust_dpdk.Dpdk
use rust_dpdk.Dpdk.{Dpdk, History, M, pure, lift, run, ◌>>=◌, ◌>>◌}
use rust_dpdk.Errors.{expect}
use rust_dpdk.Ethdev.{
  configure, rx_queue_setup, tx_queue_setup, socket_id, start, stop, close, promiscuous_enable,
  is_promiscuous_enabled, mac_addr, alloc_buffer, count_err_packets, free, default_conf,
}
use rust_dpdk.Examples.L2fwd.Queues.{Conf}

abbrev max_pkt_burst : ℕ
max_pkt_burst = 32

-- The arrays of the C side that are indexed by ports, `RTE_MAX_ETHPORTS` of each.
pub record PortTables : Type 0 where
  pub ports_eth_addr : List (List ℕ)
  pub tx_buffers : List (Option ℕ)

module _ (d : Dpdk) where
  -- One round of the loop, ending with whether the port is printed as promiscuous.
  unfoldable pub init_port : Conf → ℕ → PortTables → M (PortTables × Bool)
  unfolding configure rx_queue_setup tx_queue_setup socket_id start promiscuous_enable
      is_promiscuous_enabled mac_addr alloc_buffer count_err_packets write
  init_port conf port t = do
    configured ← configure d port 1 1 default_conf
    expect configured
    mac ← mac_addr d port
    addrs ← lift (write t.ports_eth_addr port mac)
    rx ← rx_queue_setup d port 0 conf.nb_rxd
    expect rx
    tx ← tx_queue_setup d port 0 conf.nb_txd
    expect tx
    socket ← socket_id d port
    allocated ← alloc_buffer d max_pkt_burst socket
    buf ← expect allocated
    counted ← count_err_packets d buf
    expect counted
    buffers ← lift (write t.tx_buffers port (some buf))
    started ← start d port
    expect started
    promiscuous_enable d port
    promiscuous ← is_promiscuous_enabled d port
    enabled ← expect promiscuous
    pure (record { ports_eth_addr = addrs; tx_buffers = buffers }, enabled)

  unfoldable pub init_ports : Conf → List ℕ → PortTables → M PortTables
  unfolding init_port
  init_ports conf [] t = pure t
  init_ports conf (p ∷ ps) t = do (t', _) ← init_port conf p t; init_ports conf ps t'

  -- Where DPDK keeps a port promiscuous once that is enabled, and so answers 1 when it is asked, no
  -- port is set up, whatever else DPDK does: each attempt ends in a panic.
  pub init_port_panics :
      ((h : History) (p : ℕ)
        → d.ret (h ++ Dpdk.eth_promiscuous_enable p ∷ []) (Dpdk.eth_promiscuous_get p) ≡ pos 1)
      → (conf : Conf) (p : ℕ) (t : PortTables) (h : History)
      → (init_port conf p t h).0 ≡ halted panicked
  unfolding init_port
  init_port_panics kept conf p t h = grind arith

  -- A buffer is freed if there is one.
  unfoldable pub free_buffer : Option ℕ → M (Unit {0})
  unfolding free
  free_buffer none = pure tt
  free_buffer (some buf) = free d buf

  unfoldable pub close_port : PortTables → ℕ → M (Unit {0})
  unfolding stop close free_buffer read
  close_port t port = do
    stop d port
    close d port
    buf ← lift (read t.tx_buffers port)
    free_buffer buf

  unfoldable pub close_ports : PortTables → List ℕ → M (Unit {0})
  unfolding close_port
  close_ports t [] = pure tt
  close_ports t (p ∷ ps) = do close_port t p; close_ports t ps
