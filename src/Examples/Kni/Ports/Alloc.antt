-- ===== src/Examples/Kni/Ports/Alloc.antt =====
-- The KNI devices of rte/examples/kni/main.rs: `kni_alloc` and `kni_free_kni`.
use rust_dpdk.Prelude.{
  ℕ, zero, suc, ◌+◌, ◌%◌, ◌^◌, List, [], ◌∷◌, ◌++◌, Option, none, some, ltb, ◌==◌, if◌then◌else◌,
  length, set, get_elem?, take, max,
}
use rust_dpdk.Outcome.{panicked, write}
use rust_dpdk.Dpdk.{Dpdk, M, pure, halt, lift, ◌>>=◌, ◌>>◌}
use rust_dpdk.Errors.{expect}
use rust_dpdk.Ethdev.{stop}
use rust_dpdk.Text.{codes}
use rust_dpdk.Text.Decimal.{decimal}
use rust_dpdk.Kni.{KniDeviceConf, default_device_conf, alloc, drop_device, into_raw}
use rust_dpdk.Examples.Kni.Config.{Conf, KniPortParams}
use rust_dpdk.Examples.Kni.Ports.{max_packet_sz}

-- `vEth{port}_{i}`, or `vEth{port}` where no core is given for kernel threads.
unfoldable pub device_name : ℕ → ℕ → ℕ → List ℕ
unfolding decimal
device_name nb_lcore_k port i =
    if nb_lcore_k == 0
    then codes "vEth" ++ decimal port
    else codes "vEth" ++ decimal port ++ codes "_" ++ decimal i

unfoldable pub device_conf : ℕ → ℕ → ℕ → KniDeviceConf
unfolding device_name
device_conf nb_lcore_k port i = record {
  name = device_name nb_lcore_k port i;
  core_id = default_device_conf.core_id;
  group_id = port % 2 ^ 16;
  mbuf_size = max_packet_sz;
  pci_addr = default_device_conf.pci_addr;
  pci_id = default_device_conf.pci_id;
  flags = default_device_conf.flags;
  mac_addr = default_device_conf.mac_addr;
  mtu = default_device_conf.mtu;
}

unfoldable pub with_devices : KniPortParams → ℕ → List (Option ℕ) → KniPortParams
with_devices p nb_kni kni = record {
  port_id = p.port_id;
  lcore_rx = p.lcore_rx;
  lcore_tx = p.lcore_tx;
  nb_lcore_k = p.nb_lcore_k;
  nb_kni = nb_kni;
  lcore_k = p.lcore_k;
  kni = kni;
}

unfoldable pub with_param : Conf → ℕ → KniPortParams → Conf
with_param conf port p = record {
  enabled_port_mask = conf.enabled_port_mask;
  promiscuous_on = conf.promiscuous_on;
  port_params = set conf.port_params port (some p);
}

module _ (d : Dpdk) where
  -- The rounds `i`, `i + 1`, …, `n` of them; the first device of a port has the callbacks.
  unfoldable pub alloc_loop : ℕ → ℕ → ℕ → ℕ → List (Option ℕ) → M (List (Option ℕ))
  unfolding alloc device_conf write into_raw
  alloc_loop zero i nb_lcore_k port kni = pure kni
  alloc_loop (suc n) i nb_lcore_k port kni = do
    allocated ← alloc d (device_conf nb_lcore_k port i) (i == 0)
    dev ← expect allocated
    raw ← into_raw d dev
    kni' ← lift (write kni i (some raw))
    alloc_loop n (i + 1) nb_lcore_k port kni'

  unfoldable pub alloc_param : Conf → ℕ → KniPortParams → M Conf
  unfolding alloc_loop with_devices with_param
  alloc_param conf port p = do
    kni ← alloc_loop (max p.nb_lcore_k 1) 0 p.nb_lcore_k port p.kni
    pure (with_param conf port (with_devices p (max p.nb_lcore_k 1) kni))

  unfoldable pub kni_alloc : Conf → ℕ → M Conf
  unfolding alloc_param
  kni_alloc conf port = elim (get_elem? conf.port_params port) [
    | none ↦ halt panicked
    | some none ↦ pure conf
    | some (some p) ↦ alloc_param conf port p
  ]

  -- Each device is made of its address, and is dropped in the same round.
  unfoldable pub drop_devices : List (Option ℕ) → M (Unit {0})
  unfolding drop_device
  drop_devices [] = pure tt
  drop_devices (p ∷ ps) = do drop_device d p; drop_devices ps

  unfoldable pub free_param : ℕ → KniPortParams → M (Unit {0})
  unfolding drop_devices stop
  free_param port p =
      if ltb (length p.kni) p.nb_kni
      then halt panicked
      else (do drop_devices (take p.nb_kni p.kni); stop d port; pure tt)

  unfoldable pub kni_free_kni : Conf → ℕ → M (Unit {0})
  unfolding free_param
  kni_free_kni conf port = elim (get_elem? conf.port_params port) [
    | none ↦ halt panicked
    | some none ↦ pure tt
    | some (some p) ↦ free_param port p
  ]
