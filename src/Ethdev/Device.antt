-- ===== src/Ethdev/Device.antt =====
-- The methods of `EthDevice for PortId` in rte/src/ethdev.rs, in the order of the source.
use rust_dpdk.Prelude.{
  ℕ, zero, suc, ◌-◌, ◌%◌, ◌^◌, List, [], ◌∷◌, ◌++◌, Bool, true, false, not, ℤ, pos, negsuc, is_zero,
  ◌==◌, range_from,
}
use rust_dpdk.Dpdk
use rust_dpdk.Dpdk.{Dpdk, History, RawLink, RawStats, M, pure, call, call_count, run, ◌>>=◌, ◌>>◌}
use rust_dpdk.Outcome.{done}
use rust_dpdk.Errors.{Result, rte_check, rte_check_value}
use rust_dpdk.Ethdev.Conf.{EthConf, raw_conf}

-- `x as u32` of an `i32`.
abbrev pub as_u32 : ℤ → ℕ
as_u32 (pos n) = n
as_u32 (negsuc n) = 2 ^ 32 - 1 - n

-- `EthLink`.
pub record EthLink : Type 0 where
  pub speed : ℕ
  pub duplex : Bool
  pub autoneg : Bool
  pub up : Bool

read_link : RawLink → EthLink
read_link l = record {
  speed = l.link_speed;
  duplex = not (l.link_duplex == 0);
  autoneg = not (l.link_autoneg == 0);
  up = not (l.link_status == 0);
}

-- `from_bits_truncate`: the flags of `EthVlanOffloadMode` are the low twelve bits.
vlan_bits : ℤ → ℕ
vlan_bits (pos n) = n % 4096
vlan_bits (negsuc n) = 4095 - n % 4096

-- `bool_value!`.
abbrev pub bool_value : Bool → ℕ
bool_value true = 1
bool_value false = 0

module _ (d : Dpdk) where
  unfoldable pub configure : ℕ → ℕ → ℕ → EthConf → M (Result ℕ)
  unfolding rte_check raw_conf
  configure port nb_rx nb_tx conf =
      rte_check (call d (Dpdk.eth_dev_configure port nb_rx nb_tx (raw_conf conf))) port

  -- What the successful call has written; the statistics are read when the call is made.
  unfoldable pub stats : ℕ → M (Result RawStats)
  unfolding rte_check
  stats port h = rte_check (call d (Dpdk.eth_stats_get port)) (d.stats h port) h

  unfoldable pub reset_stats : ℕ → M ℕ
  reset_stats port = do run d (Dpdk.eth_stats_reset port); pure port

  unfoldable pub mac_addr : ℕ → M (List ℕ)
  mac_addr port h = (done (d.mac h port), h ++ Dpdk.eth_macaddr_get port ∷ [])

  unfoldable pub set_mac_addr : ℕ → List ℕ → M (Result ℕ)
  unfolding rte_check
  set_mac_addr port addr = rte_check (call d (Dpdk.eth_dev_default_mac_addr_set port addr)) port

  unfoldable pub socket_id : ℕ → M ℤ
  socket_id port = call d (Dpdk.eth_dev_socket_id port)

  unfoldable pub is_valid : ℕ → M Bool
  is_valid port = do r ← call d (Dpdk.eth_dev_is_valid_port port); pure (not (is_zero r))

  -- The socket is asked for inside the checked expression, so a second time where the setup fails.
  unfoldable pub rx_queue_setup : ℕ → ℕ → ℕ → M (Result ℕ)
  unfolding rte_check socket_id
  rx_queue_setup port queue nb_desc =
      rte_check
        (do s ← socket_id port; call d (Dpdk.eth_rx_queue_setup port queue nb_desc (as_u32 s))) port

  unfoldable pub tx_queue_setup : ℕ → ℕ → ℕ → M (Result ℕ)
  unfolding rte_check socket_id
  tx_queue_setup port queue nb_desc =
      rte_check
        (do s ← socket_id port; call d (Dpdk.eth_tx_queue_setup port queue nb_desc (as_u32 s))) port

  unfoldable pub promiscuous_enable : ℕ → M ℕ
  promiscuous_enable port = do run d (Dpdk.eth_promiscuous_enable port); pure port

  unfoldable pub promiscuous_disable : ℕ → M ℕ
  promiscuous_disable port = do run d (Dpdk.eth_promiscuous_disable port); pure port

  unfoldable pub is_promiscuous_enabled : ℕ → M (Result Bool)
  unfolding rte_check_value
  is_promiscuous_enabled port = do
    ret ← call d (Dpdk.eth_promiscuous_get port)
    pure (rte_check_value ret (not (is_zero ret)))

  unfoldable pub mtu : ℕ → M (Result ℕ)
  unfolding rte_check
  mtu port h = rte_check (call d (Dpdk.eth_dev_get_mtu port)) (d.mtu h port) h

  unfoldable pub set_mtu : ℕ → ℕ → M (Result ℕ)
  unfolding rte_check
  set_mtu port mtu = rte_check (call d (Dpdk.eth_dev_set_mtu port mtu)) port

  unfoldable pub set_vlan_filter : ℕ → ℕ → Bool → M (Result ℕ)
  unfolding rte_check
  set_vlan_filter port vlan_id on =
      rte_check (call d (Dpdk.eth_dev_vlan_filter port vlan_id (bool_value on))) port

  unfoldable pub link : ℕ → M EthLink
  unfolding read_link
  link port h = (done (read_link (d.link h port)), h ++ Dpdk.eth_link_get port ∷ [])

  unfoldable pub link_nowait : ℕ → M EthLink
  unfolding read_link
  link_nowait port h = (done (read_link (d.link h port)), h ++ Dpdk.eth_link_get_nowait port ∷ [])

  unfoldable pub is_up : ℕ → M Bool
  unfolding link
  is_up port = do l ← link port; pure l.up

  unfoldable pub set_link_up : ℕ → M (Result ℕ)
  unfolding rte_check
  set_link_up port = rte_check (call d (Dpdk.eth_dev_set_link_up port)) port

  unfoldable pub set_link_down : ℕ → M (Result ℕ)
  unfolding rte_check
  set_link_down port = rte_check (call d (Dpdk.eth_dev_set_link_down port)) port

  unfoldable pub rx_queue_start : ℕ → ℕ → M (Result ℕ)
  unfolding rte_check
  rx_queue_start port queue = rte_check (call d (Dpdk.eth_dev_rx_queue_start port queue)) port

  unfoldable pub rx_queue_stop : ℕ → ℕ → M (Result ℕ)
  unfolding rte_check
  rx_queue_stop port queue = rte_check (call d (Dpdk.eth_dev_rx_queue_stop port queue)) port

  unfoldable pub tx_queue_start : ℕ → ℕ → M (Result ℕ)
  unfolding rte_check
  tx_queue_start port queue = rte_check (call d (Dpdk.eth_dev_tx_queue_start port queue)) port

  unfoldable pub tx_queue_stop : ℕ → ℕ → M (Result ℕ)
  unfolding rte_check
  tx_queue_stop port queue = rte_check (call d (Dpdk.eth_dev_tx_queue_stop port queue)) port

  unfoldable pub start : ℕ → M (Result ℕ)
  unfolding rte_check
  start port = rte_check (call d (Dpdk.eth_dev_start port)) port

  unfoldable pub stop : ℕ → M ℕ
  stop port = do run d (Dpdk.eth_dev_stop port); pure port

  unfoldable pub close : ℕ → M ℕ
  close port = do run d (Dpdk.eth_dev_close port); pure port

  -- `len` is the length of the slice, cut to a `u16`.
  unfoldable pub rx_burst : ℕ → ℕ → ℕ → M ℕ
  rx_burst port queue len = call_count d (Dpdk.eth_rx_burst port queue (len % 2 ^ 16))

  unfoldable pub tx_burst : ℕ → ℕ → ℕ → M ℕ
  tx_burst port queue zero = call_count d (Dpdk.eth_tx_burst port queue 0)
  tx_burst port queue (suc len) = call_count d (Dpdk.eth_tx_burst port queue (suc len % 2 ^ 16))

  unfoldable pub vlan_offload : ℕ → M (Result ℕ)
  unfolding rte_check_value vlan_bits
  vlan_offload port = do
    mode ← call d (Dpdk.eth_dev_get_vlan_offload port)
    pure (rte_check_value mode (vlan_bits mode))

  unfoldable pub set_vlan_offload : ℕ → ℤ → M (Result ℕ)
  unfolding rte_check
  set_vlan_offload port mode = rte_check (call d (Dpdk.eth_dev_set_vlan_offload port mode)) port

  -- `ethdev::count` and `ethdev::devices`.
  unfoldable pub count : M ℕ
  count = call_count d Dpdk.eth_dev_count_avail

  unfoldable pub devices : M (List ℕ)
  unfolding count
  devices = do n ← count; pure (range_from 0 n)
