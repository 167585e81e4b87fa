-- ===== src/Ether/Types.antt =====
-- The types of frames in network order of rte/src/ether.rs, `rte_cpu_to_be_16!` of
-- rte/src/common/byteorder.rs, and the VLAN calls of rte/src/ether.rs.
use rust_dpdk.Prelude.{ℕ, ◌≡◌, ◌<◌, ◌+◌, ◌*◌, ◌/◌, ◌%◌, ◌^◌, List, [], ◌∷◌, arith}
use rust_dpdk.Dpdk
use rust_dpdk.Dpdk.{Dpdk, M, call}
use rust_dpdk.Errors.{Result, rte_check}

-- `rte_cpu_to_be_16!` of a `u16`. The two halves have no bit in common, so that `|` adds them.
unfoldable pub cpu_to_be_16 : ℕ → ℕ
cpu_to_be_16 n = n / 256 % 256 + n % 256 * 256 % 2 ^ 16

abbrev pub ether_type_ipv4_be : ℕ
unfolding cpu_to_be_16
ether_type_ipv4_be = cpu_to_be_16 2048

abbrev pub ether_type_ipv6_be : ℕ
unfolding cpu_to_be_16
ether_type_ipv6_be = cpu_to_be_16 34525

abbrev pub ether_type_arp_be : ℕ
unfolding cpu_to_be_16
ether_type_arp_be = cpu_to_be_16 2054

abbrev pub ether_type_rarp_be : ℕ
unfolding cpu_to_be_16
ether_type_rarp_be = cpu_to_be_16 32821

abbrev pub ether_type_vlan_be : ℕ
unfolding cpu_to_be_16
ether_type_vlan_be = cpu_to_be_16 33024

abbrev pub ether_type_1588_be : ℕ
unfolding cpu_to_be_16
ether_type_1588_be = cpu_to_be_16 35063

abbrev pub ether_type_slow_be : ℕ
unfolding cpu_to_be_16
ether_type_slow_be = cpu_to_be_16 34825

abbrev pub ether_type_teb_be : ℕ
unfolding cpu_to_be_16
ether_type_teb_be = cpu_to_be_16 25944

-- A `u16` in the memory of a little-endian processor.
unfoldable pub le_bytes : ℕ → List ℕ
le_bytes n = n % 256 ∷ n / 256 ∷ []

-- What `rte_cpu_to_be_16!` makes of a 16-bit number lies in the memory of a little-endian processor
-- with the high byte of the number first, and the macro takes itself back.
pub cpu_to_be_16-network :
    (n : ℕ)
    → n < 2 ^ 16
    → (le_bytes (cpu_to_be_16 n) ≡ n / 256 ∷ n % 256 ∷ []) × (cpu_to_be_16 (cpu_to_be_16 n) ≡ n)
unfolding le_bytes cpu_to_be_16
cpu_to_be_16-network n h = (grind arith, omega arith)

module _ (d : Dpdk) where
  -- `VlanExt::vlan_strip` and `vlan_insert`, of the address of a buffer. The macro makes a failing call
  -- twice.
  unfoldable pub vlan_strip : ℕ → M (Result (Unit {0}))
  unfolding rte_check
  vlan_strip m = rte_check (call d (Dpdk.vlan_strip m)) tt

  unfoldable pub vlan_insert : ℕ → M (Result (Unit {0}))
  unfolding rte_check
  vlan_insert m = rte_check (call d (Dpdk.vlan_insert m)) tt
