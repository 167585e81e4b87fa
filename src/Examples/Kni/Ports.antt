-- ===== src/Examples/Kni/Ports.antt =====
-- The ports of rte/examples/kni/main.rs: their set-up, their KNI devices, and the callbacks that the
-- kernel's requests reach.
pub mod Alloc
pub mod Allocated
pub mod Released
use rust_dpdk.Prelude.{
  ℕ, zero, suc, ◌+◌, ◌%◌, ◌^◌, ◌≡◌, List, [], ◌∷◌, ◌++◌, Option, none, some, Bool, true, false,
  ◌||◌, ltb, leb, ◌==◌, if◌then◌else◌, ℤ, pos, negsuc, ◌≤◌, arith, Bool-cases, inl, inr, is_zero,
  append_assoc,
}
use rust_dpdk.Outcome.{Outcome, done, halted, panicked, read, write}
use rust_dpdk.Dpdk
use rust_dpdk.Dpdk.{Dpdk, History, M, pure, halt, lift, run, ◌>>=◌, ◌>>◌}
use rust_dpdk.Errors.{Result, ok, err, Error, rte_error, message, nul_error, rte_check, expect}
use rust_dpdk.Ethdev.{
  EthConf, default_conf, default_rxmode, configure, rx_queue_setup, tx_queue_setup, start, stop,
  promiscuous_enable, count,
}
use rust_dpdk.Text.{codes}
use rust_dpdk.Text.Decimal.{decimal}
use rust_dpdk.Kni.{KniDeviceConf, default_device_conf, init, alloc, drop_device}
use rust_dpdk.Examples.Kni.Config.{Conf, KniPortParams, num_of_kni_ports, rte_max_ethports}

abbrev pub nb_rxd : ℕ
nb_rxd = 128

abbrev pub nb_txd : ℕ
nb_txd = 512

abbrev pub max_packet_sz : ℕ
max_packet_sz = 2048

abbrev pub rte_ether_max_len : ℕ
rte_ether_max_len = 1518

-- `-libc::EINVAL`.
abbrev pub minus_einval : ℤ
minus_einval = negsuc 21

-- `EthConf::default()` with `rxmode.max_rx_pkt_len` set.
unfoldable pub mtu_conf : ℕ → EthConf
mtu_conf len = record {
  link_speeds = default_conf.link_speeds;
  rxmode = some (record {
    mq_mode = default_rxmode.mq_mode;
    max_rx_pkt_len = len;
    max_lro_pkt_size = default_rxmode.max_lro_pkt_size;
    split_hdr_size = default_rxmode.split_hdr_size;
    offloads = default_rxmode.offloads;
  });
  txmode = default_conf.txmode;
  lpbk_mode = default_conf.lpbk_mode;
  rx_adv_conf = default_conf.rx_adv_conf;
  dcb_capability_en = default_conf.dcb_capability_en;
  fdir_conf = default_conf.fdir_conf;
  intr_conf = default_conf.intr_conf;
}

-- `if let Err(err) = r { if let Some(&RteError(errno)) = err.downcast_ref() { return errno } }`.
unfoldable pub errno_of : {A : Type 0} → Result A → Option ℤ
errno_of (ok a) = none
errno_of (err (rte_error e)) = some e
errno_of (err (message k)) = none
errno_of (err nul_error) = none

-- The guard of the callbacks.
unfoldable pub is_refused_port : ℕ → ℕ → Bool
is_refused_port nb_sys_ports port = ltb nb_sys_ports port || ltb rte_max_ethports port

module _ (d : Dpdk) where
  unfoldable pub init_kni : Conf → M (Result (Unit {0}))
  unfolding init num_of_kni_ports
  init_kni conf = init d (num_of_kni_ports conf.port_params 0)

  unfoldable pub init_port : Conf → ℕ → M (Unit {0})
  unfolding configure rx_queue_setup tx_queue_setup start promiscuous_enable
  init_port conf port = do
    configured ← configure d port 1 1 default_conf
    expect configured
    rx ← rx_queue_setup d port 0 nb_rxd
    expect rx
    tx ← tx_queue_setup d port 0 nb_txd
    expect tx
    started ← start d port
    expect started
    elim conf.promiscuous_on [ true ↦ (do promiscuous_enable d port; pure tt) | false ↦ pure tt ]

  start_port : ℕ → M ℤ
  unfolding start errno_of
  start_port port = do
    started ← start d port
    pure (elim (errno_of started) [ some e ↦ e | none ↦ pos 0 ])

  -- The part of `kni_change_mtu` behind the test of the size.
  change_large_mtu : ℕ → ℕ → M ℤ
  unfolding stop configure errno_of mtu_conf start_port
  change_large_mtu port new_mtu = do
    stop d port
    configured ← configure d port 1 1 (mtu_conf (new_mtu + 14 + 4))
    elim (errno_of configured) [ some e ↦ pure e | none ↦ start_port port ]

  -- The addition is on `u32` and is checked.
  change_accepted_mtu : Bool → ℕ → ℕ → M ℤ
  unfolding stop change_large_mtu
  change_accepted_mtu true port new_mtu = pure minus_einval
  change_accepted_mtu false port new_mtu =
      if leb new_mtu rte_ether_max_len
      then pure (pos 0)
      else if leb (2 ^ 32) (new_mtu + 14 + 4)
      then (do stop d port; halt panicked)
      else change_large_mtu port new_mtu

  unfoldable pub kni_change_mtu : ℕ → ℕ → M ℤ
  unfolding count is_refused_port change_accepted_mtu
  kni_change_mtu port new_mtu = do
    nb_sys_ports ← count d
    change_accepted_mtu (is_refused_port nb_sys_ports port) port new_mtu

  unfoldable pub kni_config_network_interface : ℕ → ℕ → M ℤ
  unfolding count is_refused_port stop start_port
  kni_config_network_interface port if_up = do
    nb_sys_ports ← count d
    if is_refused_port nb_sys_ports port
        then pure minus_einval
        else (do stop d port; elim (if_up == 0) [ true ↦ pure (pos 0) | false ↦ start_port port ])

-- The three callbacks that only print.
unfoldable pub kni_config_mac_address : ℕ → List ℕ → ℤ
kni_config_mac_address port mac = pos 0

unfoldable pub kni_config_promiscusity : ℕ → ℕ → ℤ
kni_config_promiscusity port on = pos 0

unfoldable pub kni_config_allmulticast : ℕ → ℕ → ℤ
kni_config_allmulticast port on = pos 0

-- A request for an MTU of at most 1518 bytes makes one call, which asks for the number of ports: the
-- device is neither stopped nor configured. The answer is 0, or `-EINVAL` where the port is refused.
pub kni_change_mtu_small :
    (d : Dpdk) (h : History) (port new_mtu : ℕ)
    → new_mtu ≤ rte_ether_max_len
    → kni_change_mtu d port new_mtu h ≡ (
      done (
          if is_refused_port (d.count h Dpdk.eth_dev_count_avail) port
          then minus_einval
          else pos 0),
      h ++ Dpdk.eth_dev_count_avail ∷ [],
    )
unfolding kni_change_mtu change_accepted_mtu count
kni_change_mtu_small d h port new_mtu small =
    elim (Bool-cases (is_refused_port (d.count h Dpdk.eth_dev_count_avail) port)) [
      | inl refused ↦ ground (arith, refused)
      | inr accepted ↦ ground (arith, accepted, small)
    ]

-- Where the device is to be taken up, and DPDK keeps answering `e`, other than 0, to its start, the
-- kernel is told `e`; the device has been stopped, and its start tried twice.
pub kni_config_network_interface_fails :
    (d : Dpdk) (h : History) (port if_up : ℕ) (e : ℤ)
    → ((h' : History) → d.ret h' (Dpdk.eth_dev_start port) ≡ e)
    → is_zero e ≡ false
    → is_refused_port (d.count h Dpdk.eth_dev_count_avail) port ≡ false
    → (if_up == 0) ≡ false
    → kni_config_network_interface d port if_up h ≡ (
      done e,
      h
          ++ Dpdk.eth_dev_count_avail ∷ []
          ++ Dpdk.eth_dev_stop port ∷ []
          ++ Dpdk.eth_dev_start port ∷ []
          ++ Dpdk.eth_dev_start port ∷ [],
    )
unfolding kni_config_network_interface count stop start_port start rte_check errno_of
kni_config_network_interface_fails d h port if_up e fails bad fine up = grind (arith, append_assoc)
