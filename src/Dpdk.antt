-- ===== src/Dpdk.antt =====
-- The DPDK functions that the crate binds (rte-sys/src/raw.rs, rte-sys/src/stub.c) are C code outside
-- the repository. They enter as a record of functions of the history: what a call answers may depend
-- on every call made before it. A computation logs its calls, and it ends with a value or stops.
use rust_dpdk.Outcome.{Halt, Outcome, done, halted}
use rust_dpdk.Prelude.{ℕ, List, [], ◌∷◌, ◌++◌, Option, ℤ, Bool}

-- `rte_eth_rxmode` of rte-sys/src/raw.rs.
pub record EthRxMode : Type 0 where
  pub mq_mode : ℕ
  pub max_rx_pkt_len : ℕ
  pub max_lro_pkt_size : ℕ
  pub split_hdr_size : ℕ
  pub offloads : ℕ

-- `rte_eth_txmode`, with its three one-bit fields in `bits`.
pub record EthTxMode : Type 0 where
  pub mq_mode : ℕ
  pub offloads : ℕ
  pub pvid : ℕ
  pub bits : ℕ

-- A `*mut u8` to a hash key: null, or pointing to a local that is gone when the callee reads it.
pub data KeyPtr : Type 0 where
  null dangling : KeyPtr

-- `rte_eth_conf`, as far as the crate writes its fields. The others stay at their defaults.
pub record RawEthConf : Type 0 where
  pub rxmode : EthRxMode
  pub txmode : EthTxMode
  pub rss_key : KeyPtr
  pub rss_key_len : ℕ
  pub rss_hf : ℕ

-- `rte_kni_conf`; the PCI address and id are passed through.
pub record RawKniConf : Type 0 where
  pub name : List ℕ
  pub core_id : ℕ
  pub group_id : ℕ
  pub mbuf_size : ℕ
  pub addr : List ℕ
  pub id : List ℕ
  pub force_bind : ℕ
  pub mac_addr : List ℕ
  pub mtu : ℕ
  pub max_mtu : ℕ
  pub min_mtu : ℕ

-- The callbacks that the crate installs in a transmit buffer.
pub data TxCallback : Type 0 where
  drop_callback count_callback : TxCallback

-- One call of a DPDK function, with the arguments that the crate passes. A text is what its pointer
-- pointed to when the pointer was made; `Utils.Strings` says for how long it points there.
pub data Call : Type 0 where
  eth_dev_configure : ℕ → ℕ → ℕ → RawEthConf → Call
  eth_dev_socket_id : ℕ → Call
  eth_rx_queue_setup : ℕ → ℕ → ℕ → ℕ → Call
  eth_tx_queue_setup : ℕ → ℕ → ℕ → ℕ → Call
  eth_dev_start eth_dev_stop eth_dev_close : ℕ → Call
  eth_promiscuous_enable eth_promiscuous_disable eth_promiscuous_get : ℕ → Call
  eth_dev_get_mtu : ℕ → Call
  eth_dev_set_mtu : ℕ → ℕ → Call
  eth_dev_vlan_filter : ℕ → ℕ → ℕ → Call
  eth_dev_get_vlan_offload : ℕ → Call
  eth_dev_set_vlan_offload : ℕ → ℤ → Call
  eth_dev_default_mac_addr_set : ℕ → List ℕ → Call
  eth_dev_set_link_up eth_dev_set_link_down : ℕ → Call
  eth_dev_rx_queue_start eth_dev_rx_queue_stop : ℕ → ℕ → Call
  eth_dev_tx_queue_start eth_dev_tx_queue_stop : ℕ → ℕ → Call
  eth_stats_get eth_stats_reset : ℕ → Call
  eth_dev_is_valid_port : ℕ → Call
  eth_macaddr_get eth_link_get eth_link_get_nowait : ℕ → Call
  eth_rx_burst eth_tx_burst : ℕ → ℕ → ℕ → Call
  eth_dev_count_avail : Call
  zmalloc_socket : ℕ → ℕ → ℤ → Call
  free_ptr : ℕ → Call
  eth_tx_buffer_init : ℕ → ℕ → Call
  eth_tx_buffer_set_err_callback : ℕ → TxCallback → Call
  eth_bond_create : List ℕ → ℕ → ℕ → Call
  eth_bond_free : List ℕ → Call
  eth_bond_slave_add eth_bond_slave_remove : ℕ → ℕ → Call
  eth_bond_mode_get eth_bond_primary_get eth_bond_xmit_policy_get : ℕ → Call
  eth_bond_mode_set eth_bond_primary_set eth_bond_xmit_policy_set : ℕ → ℕ → Call
  eth_bond_slaves_get : ℕ → ℕ → Call
  eth_bond_mac_address_set : ℕ → List ℕ → Call
  eth_bond_mac_address_reset : ℕ → Call
  kni_init : ℕ → Call
  kni_alloc : RawKniConf → Bool → Call
  kni_get : List ℕ → Call
  kni_register_handlers : ℕ → Bool → Call
  kni_unregister_handlers : ℕ → Call
  kni_release kni_handle_request : ℕ → Call
  kni_rx_burst kni_tx_burst : ℕ → ℕ → Call
  kni_close : Call
  delay_us : ℕ → Call
  eal_remote_launch : ℕ → Call
  eal_mp_remote_launch : Bool → Call
  eal_get_lcore_state eal_wait_lcore : ℕ → Call
  eal_mp_wait_lcore : Call
  eal_init : List (List ℕ) → Call
  eal_cleanup eal_iopl_init eal_process_type : Call
  eal_exit : ℤ → List ℕ → Call
  socket_id : Call
  pktmbuf_pool_create : List ℕ → ℕ → ℕ → ℕ → ℕ → ℤ → Call
  pktmbuf_alloc : ℕ → Call
  pktmbuf_alloc_bulk : ℕ → ℕ → Call
  pktmbuf_clone : ℕ → ℕ → Call
  pktmbuf_prepend pktmbuf_append pktmbuf_adj pktmbuf_trim : ℕ → ℕ → Call
  pktmbuf_chain : ℕ → ℕ → Call
  pktmbuf_linearize validate_tx_offload : ℕ → Call
  mempool_lookup : List ℕ → Call
  cmdline_stdin_new cmdline_file_new : ℕ → List ℕ → Call
  cmdline_free cmdline_stdin_exit cmdline_interact cmdline_poll cmdline_quit : ℕ → Call
  cmdline_printf cmdline_set_prompt cmdline_parse : ℕ → List ℕ → Call
  cmdline_complete : ℕ → List ℕ → ℤ → ℕ → Call
  log_set_global_level log_get_level : ℕ → Call
  log_get_global_level log_cur_msg_loglevel log_cur_msg_logtype : Call
  log_set_level : ℕ → ℕ → Call
  log_register : List ℕ → Call
  log_message : ℕ → ℕ → List ℕ → Call
  openlog_stream : ℕ → Call
  dev_is_probed dev_remove : ℕ → Call
  eal_hotplug_add : List ℕ → List ℕ → List ℕ → Call
  eal_hotplug_remove : List ℕ → List ℕ → Call
  dev_event_callback_register : List ℕ → ℕ → Call
  lcore_has_role : ℕ → ℕ → Call
  eal_lcore_role lcore_is_enabled lcore_to_socket_id socket_id_by_idx : ℕ → Call
  devargs_add : ℕ → Option (List ℕ) → Call
  devargs_type_count : ℕ → Call
  keepalive_create : ℕ → Call
  vlan_strip vlan_insert : ℕ → Call
  mbuf_to_baddr mbuf_to_priv mbuf_refcnt_read : ℕ → Call
  mbuf_refcnt_set : ℕ → ℕ → Call
  mbuf_refcnt_update mbuf_ext_refcnt_update : ℕ → ℤ → Call
  mbuf_sanity_check : ℕ → ℕ → Call
  mbuf_prefetch_part1 mbuf_prefetch_part2 : ℕ → Call
  pktmbuf_free pktmbuf_free_seg pktmbuf_reset_headroom pktmbuf_reset : ℕ → Call
  pktmbuf_headroom pktmbuf_tailroom pktmbuf_is_contiguous : ℕ → Call
  pktmbuf_read : ℕ → ℕ → ℕ → Call
  pktmbuf_attach : ℕ → ℕ → Call
  pktmbuf_detach pktmbuf_data_room_size pktmbuf_priv_size : ℕ → Call
  mbuf_ext_refcnt_read : ℕ → Call
  mbuf_ext_refcnt_set : ℕ → ℕ → Call
  pktmbuf_pool_create_by_ops : List ℕ → ℕ → ℕ → ℕ → ℕ → ℤ → List ℕ → Call
  eth_dev_info_get : ℕ → Call
  rte_malloc rte_zmalloc : Option (List ℕ) → ℕ → ℕ → Call
  rte_calloc : Option (List ℕ) → ℕ → ℕ → ℕ → Call
  rte_realloc : ℕ → ℕ → ℕ → Call
  rte_malloc_socket rte_zmalloc_socket : Option (List ℕ) → ℕ → ℕ → ℤ → Call
  rte_calloc_socket : Option (List ℕ) → ℕ → ℕ → ℕ → ℤ → Call
  malloc_get_socket_stats : ℤ → Call
  mempool_cache_create : ℕ → ℤ → Call
  mempool_cache_free : ℕ → Call
  mempool_cache_flush mempool_default_cache : ℕ → ℕ → Call
  mempool_generic_put mempool_generic_get : ℕ → ℕ → Option ℕ → Call
  mempool_get_contig_blocks : ℕ → ℕ → Call
  mempool_lookup_at : Option (List ℕ) → Call
  lcore_id : Call
  keepalive_dispatch_pings keepalive_mark_alive keepalive_mark_sleep : ℕ → Call
  keepalive_register_core : ℕ → ℤ → Call
  keepalive_register_relay_callback : ℕ → ℕ → Call

abbrev pub History : Type 0
History = List Call

-- `rte_eth_link` as it is read: its one-bit fields are numbers.
pub record RawLink : Type 0 where
  pub link_speed : ℕ
  pub link_duplex : ℕ
  pub link_autoneg : ℕ
  pub link_status : ℕ

-- The counters of `rte_eth_stats` that the crate reads.
pub record RawStats : Type 0 where
  pub ipackets : ℕ
  pub opackets : ℕ
  pub ibytes : ℕ
  pub obytes : ℕ
  pub ierrors : ℕ
  pub oerrors : ℕ

-- What DPDK answers after a history: `ret` is a returned `int`, `count` an unsigned result, and the
-- `ptr` a returned pointer with null as `none`. The other fields are what a call writes through its
-- pointer arguments.
pub record Dpdk : Type 0 where
  pub ret : History → Call → ℤ
  pub count : History → Call → ℕ
  pub ptr : History → Call → Option ℕ
  pub errno : History → ℤ
  pub stats : History → ℕ → RawStats
  pub mtu : History → ℕ → ℕ
  pub mac : History → ℕ → List ℕ
  pub link : History → ℕ → RawLink
  pub slaves : History → ℕ → List ℕ

abbrev pub M {ℓ} : Type ℓ → Type ℓ
M A = History → Outcome A × History

module _ {ℓ} {A : Type ℓ} where
  abbrev pub pure : A → M A
  pure a h = (done a, h)

  abbrev pub halt : Halt → M A
  halt x h = (halted x, h)

  -- A computation that makes no call.
  abbrev pub lift : Outcome A → M A
  lift o h = (o, h)

module _ {ℓ κ} {A : Type ℓ} {B : Type κ} where
  abbrev continue : Outcome A → (A → M B) → M B
  continue (done a) f h = f a h
  continue (halted x) f h = (halted x, h)

  infixl 5 ◌>>=◌ ◌>>◌
  abbrev pub ◌>>=◌ : M A → (A → M B) → M B
  ◌>>=◌ m f h = let (r, h') = m h in continue r f h'

  abbrev pub ◌>>◌ : M A → M B → M B
  m >> n = m >>= λ _. n

module _ (d : Dpdk) where
  -- The value is the answer, and the call is the last of the history.
  abbrev pub call : Call → M ℤ
  call c h = (done (d.ret h c), h ++ c ∷ [])

  abbrev pub call_count : Call → M ℕ
  call_count c h = (done (d.count h c), h ++ c ∷ [])

  abbrev pub call_ptr : Call → M (Option ℕ)
  call_ptr c h = (done (d.ptr h c), h ++ c ∷ [])

  -- A call whose result is not looked at.
  abbrev pub run : Call → M (Unit {0})
  run c h = (done tt, h ++ c ∷ [])
