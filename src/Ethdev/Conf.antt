-- ===== src/Ethdev/Conf.antt =====
-- The configuration of a device in rte/src/ethdev.rs and its translation for DPDK.
use rust_dpdk.Prelude.{ℕ, List, Option, none, some, ◌≡◌, ◌⊎◌, arith, length}
use rust_dpdk.Dpdk.{EthRxMode, EthTxMode, KeyPtr, null, dangling, RawEthConf}

-- `key` is `[u8; 40]`, and `hash` the bits of a `RssHashFunc`.
pub record EthRssConf : Type 0 where
  pub key : Option (List ℕ)
  pub hash : ℕ

-- The three structures of DPDK in it are passed to nothing, and stand as numbers.
pub record RxAdvConf : Type 0 where
  pub rss_conf : Option EthRssConf
  pub vmdq_dcb_conf : Option ℕ
  pub dcb_rx_conf : Option ℕ
  pub vmdq_rx_conf : Option ℕ

-- `tx_adv_conf` is an `Option` of a type with no value, so it is `None` and is left out.
pub record EthConf : Type 0 where
  pub link_speeds : ℕ
  pub rxmode : Option EthRxMode
  pub txmode : Option EthTxMode
  pub lpbk_mode : ℕ
  pub rx_adv_conf : Option RxAdvConf
  pub dcb_capability_en : ℕ
  pub fdir_conf : Option ℕ
  pub intr_conf : Option ℕ

-- `RxAdvConf::default()`.
abbrev pub default_adv_conf : RxAdvConf
default_adv_conf = record {
  rss_conf = none;
  vmdq_dcb_conf = none;
  dcb_rx_conf = none;
  vmdq_rx_conf = none;
}

-- `EthConf::default()`; `ETH_LINK_SPEED_AUTONEG` is 0.
abbrev pub default_conf : EthConf
default_conf = record {
  link_speeds = 0;
  rxmode = none;
  txmode = none;
  lpbk_mode = 0;
  rx_adv_conf = none;
  dcb_capability_en = 0;
  fdir_conf = none;
  intr_conf = none;
}

abbrev pub default_rxmode : EthRxMode
default_rxmode = record {
  mq_mode = 0;
  max_rx_pkt_len = 0;
  max_lro_pkt_size = 0;
  split_hdr_size = 0;
  offloads = 0;
}

abbrev pub default_txmode : EthTxMode
default_txmode = record { mq_mode = 0; offloads = 0; pvid = 0; bits = 0 }

abbrev pub default_raw_conf : RawEthConf
default_raw_conf = record {
  rxmode = default_rxmode;
  txmode = default_txmode;
  rss_key = null;
  rss_key_len = 0;
  rss_hf = 0;
}

with_rxmode : Option EthRxMode → RawEthConf → RawEthConf
with_rxmode none conf = conf
with_rxmode (some m) conf = record conf { rxmode = m }

with_txmode : Option EthTxMode → RawEthConf → RawEthConf
with_txmode none conf = conf
with_txmode (some m) conf = record conf { txmode = m }

-- The key is copied into the closure that takes its address, so the address outlives it.
rss_key : Option (List ℕ) → KeyPtr × ℕ
rss_key none = (null, 0)
rss_key (some key) = (dangling, length key)

with_rss : Option EthRssConf → RawEthConf → RawEthConf
unfolding rss_key
with_rss none conf = conf
with_rss (some r) conf =
    let (key, len) = rss_key r.key in
    record conf { rss_key = key; rss_key_len = len; rss_hf = r.hash }

with_adv_conf : Option RxAdvConf → RawEthConf → RawEthConf
unfolding with_rss
with_adv_conf none conf = conf
with_adv_conf (some a) conf = with_rss a.rss_conf conf

-- `RawEthConf::from(&EthConf)`.
unfoldable pub raw_conf : EthConf → RawEthConf
unfolding with_rxmode with_txmode with_adv_conf
raw_conf c =
    with_adv_conf c.rx_adv_conf (with_txmode c.txmode (with_rxmode c.rxmode default_raw_conf))

-- The link speeds, the loopback mode, the DCB capability and the flow director and interrupt settings
-- of a configuration never reach DPDK: two that agree in the modes and in the RSS settings are
-- translated alike.
pub raw_conf_ignores :
    (c : EthConf) (speeds lpbk dcb : ℕ) (fdir intr : Option ℕ)
    → raw_conf (record c {
      link_speeds = speeds;
      lpbk_mode = lpbk;
      dcb_capability_en = dcb;
      fdir_conf = fdir;
      intr_conf = intr;
    })
      ≡ raw_conf c
unfolding raw_conf
raw_conf_ignores c speeds lpbk dcb fdir intr = ground arith

-- No configuration gives DPDK a hash key that it can read: the pointer is null, with length 0, or it
-- dangles.
pub raw_conf-rss_key :
    (c : EthConf)
    → ((raw_conf c).rss_key ≡ null) × ((raw_conf c).rss_key_len ≡ 0)
      ⊎ ((raw_conf c).rss_key ≡ dangling)
unfolding raw_conf
raw_conf-rss_key c = ground arith
