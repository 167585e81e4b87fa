-- ===== src/Ethdev.antt =====
-- rte/src/ethdev.rs: the methods of `EthDevice for PortId`. A device is its port number, and each
-- method is a computation that calls DPDK. `Result<&Self>` is a result that holds the port number.
pub mod Rss
pub mod Info
pub mod Conf
pub mod Device
pub mod TxBuffer
pub use Conf.{EthConf, EthRssConf, RxAdvConf}
unfoldable pub use Conf.{default_conf, default_adv_conf, default_rxmode, raw_conf}
pub use Device.{EthLink}
unfoldable pub use Device.{
  configure, stats, reset_stats, mac_addr, set_mac_addr, socket_id, is_valid, rx_queue_setup,
  tx_queue_setup, promiscuous_enable, promiscuous_disable, is_promiscuous_enabled, mtu, set_mtu,
  set_vlan_filter, link, link_nowait, is_up, set_link_up, set_link_down, rx_queue_start,
  rx_queue_stop, tx_queue_start, tx_queue_stop, start, stop, close, rx_burst, tx_burst,
  vlan_offload, set_vlan_offload, count, devices,
}
unfoldable pub use TxBuffer.{
  rte_eth_tx_buffer_size, alloc_buffer, free, drop_err_packets, count_err_packets,
}
