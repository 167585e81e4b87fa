-- ===== src/Examples/Bond/Ports.antt =====
-- The ports of rte/examples/bond/main.rs, and the guards of its `main`.
use rust_dpdk.Prelude.{
  ℕ, ◌≡◌, List, [], ◌∷◌, none, some, Bool, false, ◌||◌, ltb, leb, ◌==◌, if◌then◌else◌, range_from,
  pos, negsuc, is_zero, arith,
}
use rust_dpdk.Outcome.{Outcome, done, halted, panicked, exited, out_of_fuel}
use rust_dpdk.Dpdk
use rust_dpdk.Dpdk.{Dpdk, History, M, pure, halt, ◌>>=◌, ◌>>◌}
use rust_dpdk.Errors.{expect}
use rust_dpdk.Ethdev.{
  EthConf, default_conf, default_adv_conf, configure, rx_queue_setup, tx_queue_setup, start,
  promiscuous_enable, mac_addr,
}
use rust_dpdk.Bond.{create, add_slave, adaptive_lb}
use rust_dpdk.Text.{codes}
use rust_dpdk.Lcore.{current, next, rte_max_lcore, found, exhausted, overflowed, running}

abbrev pub rx_desc_default : ℕ
rx_desc_default = 128

abbrev pub tx_desc_default : ℕ
tx_desc_default = 512

abbrev pub max_ports : ℕ
max_ports = 4

-- The `port_conf` of `main`, for the flags `ETH_RSS_IP`.
unfoldable pub port_conf : ℕ → EthConf
port_conf eth_rss_ip = record {
  link_speeds = default_conf.link_speeds;
  rxmode = default_conf.rxmode;
  txmode = default_conf.txmode;
  lpbk_mode = default_conf.lpbk_mode;
  rx_adv_conf = some (record {
    rss_conf = some (record { key = none; hash = eth_rss_ip });
    vmdq_dcb_conf = default_adv_conf.vmdq_dcb_conf;
    dcb_rx_conf = default_adv_conf.dcb_rx_conf;
    vmdq_rx_conf = default_adv_conf.vmdq_rx_conf;
  });
  dcb_capability_en = default_conf.dcb_capability_en;
  fdir_conf = default_conf.fdir_conf;
  intr_conf = default_conf.intr_conf;
}

module _ (d : Dpdk) where
  -- What the two set-ups share: one queue of each kind.
  setup_queues : EthConf → ℕ → M (Unit {0})
  unfolding configure rx_queue_setup tx_queue_setup
  setup_queues conf port = do
    configured ← configure d port 1 1 conf
    expect configured
    rx ← rx_queue_setup d port 0 rx_desc_default
    expect rx
    tx ← tx_queue_setup d port 0 tx_desc_default
    expect tx
    pure tt

  -- The start, which ends with the address that is printed.
  start_promiscuous : ℕ → M (List ℕ)
  unfolding start promiscuous_enable mac_addr
  start_promiscuous port = do
    started ← start d port
    expect started
    promiscuous_enable d port
    mac_addr d port

  unfoldable pub slave_port_init : EthConf → ℕ → M (List ℕ)
  unfolding setup_queues start_promiscuous
  slave_port_init conf port = do setup_queues conf port; start_promiscuous port

  unfoldable pub slave_ports_init : EthConf → List ℕ → M (Unit {0})
  unfolding slave_port_init
  slave_ports_init conf [] = pure tt
  slave_ports_init conf (p ∷ ps) = do slave_port_init conf p; slave_ports_init conf ps

  unfoldable pub add_slaves : ℕ → List ℕ → M (Unit {0})
  unfolding add_slave
  add_slaves dev [] = pure tt
  add_slaves dev (s ∷ slaves) = do added ← add_slave d dev s; expect added; add_slaves dev slaves

  unfoldable pub bond_port_init : EthConf → ℕ → M ℕ
  unfolding create setup_queues add_slaves start_promiscuous
  bond_port_init conf slave_count = do
    created ← create d (codes "bond0") adaptive_lb (pos 0)
    dev ← expect created
    setup_queues conf dev
    add_slaves dev (range_from 0 slave_count)
    start_promiscuous dev
    pure dev

  -- Where DPDK gives the bonded device any port but 0, as it does beside a slave on port 0, the bonded
  -- port is never set up: its creation ends in a panic.
  pub bond_port_init_panics :
      ((h : History) (name : List ℕ) (mode socket : ℕ)
        → is_zero (d.ret h (Dpdk.eth_bond_create name mode socket)) ≡ false)
      → (conf : EthConf) (slave_count : ℕ) (h : History)
      → (bond_port_init conf slave_count h).0 ≡ halted panicked
  unfolding bond_port_init create
  bond_port_init_panics other conf slave_count h = grind arith

-- The guards on the number of ports in `main`; the codes are `EXIT_FAILURE`.
unfoldable pub check_ports : ℕ → Outcome ℕ
check_ports nb_ports =
    if nb_ports == 0
    then halted (exited (negsuc 0))
    else if ltb max_ports nb_ports
    then halted (exited (negsuc 0))
    else done nb_ports

-- The core of `lcore_main`; the code is `-libc::EPERM`. `id` is what `_rte_lcore_id` returns.
unfoldable pub slave_core : (ℕ → Bool) → ℕ → ℕ → Outcome ℕ
unfolding current next
slave_core is_enabled main id = elim (current id) [
  | none ↦ halted panicked
  | some here ↦ elim (next is_enabled main rte_max_lcore here) [
    | found core ↦
        if core == 0 || leb rte_max_lcore core then halted (exited (negsuc 0)) else done core
    | exhausted ↦ halted panicked
    | overflowed ↦ halted panicked
    | running ↦ halted out_of_fuel
  ]
]
