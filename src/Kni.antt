-- ===== src/Kni.antt =====
-- rte/src/kni.rs: KNI devices. A device is its address; a null address is `none`.
use rust_dpdk.Prelude.{
  ℕ, ◌%◌, ◌^◌, ◌≡◌, List, [], ◌∷◌, ◌++◌, Option, none, some, Bool, if◌then◌else◌, take, is_zero,
  arith,
}
use rust_dpdk.Outcome.{done}
use rust_dpdk.Dpdk
use rust_dpdk.Dpdk.{
  Dpdk, History, RawKniConf, M, pure, call, call_count, call_ptr, run, ◌>>=◌, ◌>>◌,
}
use rust_dpdk.Errors.{Result, ok, err, nul_error, rte_error, rte_check, rte_check_non_null, expect}
use rust_dpdk.Utils.Strings.{has_nul}

-- `KniDeviceConf`; the name is its bytes.
pub record KniDeviceConf : Type 0 where
  pub name : List ℕ
  pub core_id : ℕ
  pub group_id : ℕ
  pub mbuf_size : ℕ
  pub pci_addr : List ℕ
  pub pci_id : List ℕ
  pub flags : ℕ
  pub mac_addr : List ℕ
  pub mtu : ℕ

-- `KniDeviceConf::default`, all zero.
abbrev pub default_device_conf : KniDeviceConf
default_device_conf = record {
  name = [];
  core_id = 0;
  group_id = 0;
  mbuf_size = 0;
  pci_addr = 0 ∷ 0 ∷ 0 ∷ 0 ∷ [];
  pci_id = 0 ∷ 0 ∷ 0 ∷ 0 ∷ 0 ∷ [];
  flags = 0;
  mac_addr = 0 ∷ 0 ∷ 0 ∷ 0 ∷ 0 ∷ 0 ∷ [];
  mtu = 0;
}

-- The `rte_kni_conf` that `alloc` builds: the name has 16 bytes, the last of them zero.
unfoldable pub raw_kni_conf : KniDeviceConf → RawKniConf
raw_kni_conf c = record {
  name = take 15 c.name;
  core_id = c.core_id;
  group_id = c.group_id;
  mbuf_size = c.mbuf_size;
  addr = c.pci_addr;
  id = c.pci_id;
  force_bind = c.flags % 2;
  mac_addr = c.mac_addr;
  mtu = c.mtu;
  max_mtu = c.mtu;
  min_mtu = c.mtu;
}

-- The address is cleared where the release succeeds.
after_release : ℕ → Result (Unit {0}) → Result (Unit {0}) × Option ℕ
after_release p (ok _) = (ok tt, none)
after_release p (err e) = (err e, some p)

module _ (d : Dpdk) where
  unfoldable pub init : ℕ → M (Result (Unit {0}))
  init max_kni_ifaces h =
      let c = Dpdk.kni_init (max_kni_ifaces % 2 ^ 32) in
      let after = h ++ c ∷ [] in
      (done (if is_zero (d.ret h c) then ok tt else err (rte_error (d.errno after))), after)

  unfoldable pub close : M (Unit {0})
  close = run d Dpdk.kni_close

  -- Whether there are callbacks is passed on.
  unfoldable pub alloc : KniDeviceConf → Bool → M (Result ℕ)
  unfolding raw_kni_conf rte_check_non_null
  alloc conf opts h =
      let c = Dpdk.kni_alloc (raw_kni_conf conf) opts in
      let after = h ++ c ∷ [] in (done (rte_check_non_null (d.ptr h c) (d.errno after)), after)

  -- `release`, with the device's address after it.
  unfoldable pub release : Option ℕ → M (Result (Unit {0}) × Option ℕ)
  unfolding rte_check after_release
  release none = pure (ok tt, none)
  release (some p) = do r ← rte_check (call d (Dpdk.kni_release p)) tt; pure (after_release p r)

  -- `Drop for KniDevice`.
  unfoldable pub drop_device : Option ℕ → M (Unit {0})
  unfolding release
  drop_device p = do released ← release p; expect released.0

  -- `into_raw`, which takes the device and so drops it, when it has read its address.
  unfoldable pub into_raw : ℕ → M ℕ
  unfolding drop_device
  into_raw p = do drop_device (some p); pure p

  unfoldable pub get : List ℕ → M (Result ℕ)
  unfolding has_nul rte_check_non_null
  get name h =
      let c = Dpdk.kni_get name in
      let after = h ++ c ∷ [] in
      if has_nul name
      then (done (err nul_error), h)
      else (done (rte_check_non_null (d.ptr h c) (d.errno after)), after)

  unfoldable pub handle_requests : ℕ → M (Result ℕ)
  unfolding rte_check
  handle_requests p = rte_check (call d (Dpdk.kni_handle_request p)) p

  -- `len` is the length of the slice.
  unfoldable pub rx_burst : ℕ → ℕ → M ℕ
  rx_burst p len = call_count d (Dpdk.kni_rx_burst p (len % 2 ^ 32))

  -- The source calls the receiving function here too.
  unfoldable pub tx_burst : ℕ → ℕ → M ℕ
  tx_burst p len = call_count d (Dpdk.kni_rx_burst p (len % 2 ^ 32))

  unfoldable pub register_handlers : ℕ → Bool → M (Result ℕ)
  unfolding rte_check
  register_handlers p opts = rte_check (call d (Dpdk.kni_register_handlers p opts)) p

  unfoldable pub unregister_handlers : ℕ → M (Result ℕ)
  unfolding rte_check
  unregister_handlers p = rte_check (call d (Dpdk.kni_unregister_handlers p)) p

  -- A device whose release succeeds is released once: releasing what is left of it calls nothing, so
  -- the drop behind an explicit release is harmless.
  pub drop-release :
      (p : Option ℕ) (h : History) {q : Option ℕ}
      → (release p h).0 ≡ done (ok tt, q)
      → (h' : History) → drop_device q h' ≡ (done tt, h')
  unfolding release drop_device rte_check after_release
  drop-release none h e h' = grind arith
  drop-release (some p) h e h' = grind arith
