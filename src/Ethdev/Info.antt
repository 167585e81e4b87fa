-- ===== src/Ethdev/Info.antt =====
-- The information of a device and the sets of bits of rte/src/ethdev.rs: link speeds, VLAN offloads and
-- VMDq modes.
use rust_dpdk.Prelude.{
  ℕ, ◌≡◌, ◌^◌, List, [], ◌∷◌, ◌++◌, Option, none, some, Bool, true, refl, arith, ◌-◌, bit_and,
  if◌then◌else◌,
}
use Prim.Native.Nat.{bit_and-bitwise}
use rust_dpdk.Outcome.{Outcome, done, halted, panicked}
use rust_dpdk.Dpdk
use rust_dpdk.Dpdk.{Dpdk, History, M, pure, run, ◌>>=◌}
use rust_dpdk.Ethdev.Rss.{union}
use rust_dpdk.Mbuf.Flags.{contains}

-- The fields of `rte_eth_dev_info` that are read: the text that the name points to, and the device, with
-- null as `none`.
pub record RawEthDeviceInfo : Type 0 where
  pub name : List ℕ
  pub device : Option ℕ

-- `driver_name`, which panics on a text that is no UTF-8.
unfoldable pub driver_name : (List ℕ → Bool) → RawEthDeviceInfo → Outcome (List ℕ)
driver_name utf8 info = if utf8 info.name then done info.name else halted panicked

unfoldable pub dev : RawEthDeviceInfo → Option ℕ
dev info = elim info.device [ none ↦ none | some p ↦ some p ]

module _ (written : History → ℕ → RawEthDeviceInfo) where
  -- `info`, whose code is dropped; `written` is what the call has written over the default.
  unfoldable pub info : ℕ → M RawEthDeviceInfo
  info port h = (done (written h port), h ++ Dpdk.eth_dev_info_get port ∷ [])

abbrev pub eth_link_speed_autoneg : ℕ
eth_link_speed_autoneg = 0

abbrev pub eth_link_speed_fixed : ℕ
eth_link_speed_fixed = 2 ^ 0

abbrev pub eth_link_speed_10m_hd : ℕ
eth_link_speed_10m_hd = 2 ^ 1

abbrev pub eth_link_speed_10m : ℕ
eth_link_speed_10m = 2 ^ 2

abbrev pub eth_link_speed_100m_hd : ℕ
eth_link_speed_100m_hd = 2 ^ 3

abbrev pub eth_link_speed_100m : ℕ
eth_link_speed_100m = 2 ^ 4

abbrev pub eth_link_speed_1g : ℕ
eth_link_speed_1g = 2 ^ 5

abbrev pub eth_link_speed_2_5g : ℕ
eth_link_speed_2_5g = 2 ^ 6

abbrev pub eth_link_speed_5g : ℕ
eth_link_speed_5g = 2 ^ 7

abbrev pub eth_link_speed_10g : ℕ
eth_link_speed_10g = 2 ^ 8

abbrev pub eth_link_speed_20g : ℕ
eth_link_speed_20g = 2 ^ 9

abbrev pub eth_link_speed_25g : ℕ
eth_link_speed_25g = 2 ^ 10

abbrev pub eth_link_speed_40g : ℕ
eth_link_speed_40g = 2 ^ 11

abbrev pub eth_link_speed_50g : ℕ
eth_link_speed_50g = 2 ^ 12

abbrev pub eth_link_speed_56g : ℕ
eth_link_speed_56g = 2 ^ 13

abbrev pub eth_link_speed_100g : ℕ
eth_link_speed_100g = 2 ^ 14

-- The speeds but for the first constant.
abbrev speeds : List ℕ
speeds =
    eth_link_speed_fixed ∷ eth_link_speed_10m_hd ∷ eth_link_speed_10m ∷ eth_link_speed_100m_hd
    ∷ eth_link_speed_100m ∷ eth_link_speed_1g ∷ eth_link_speed_2_5g ∷ eth_link_speed_5g
    ∷ eth_link_speed_10g ∷ eth_link_speed_20g ∷ eth_link_speed_25g ∷ eth_link_speed_40g
    ∷ eth_link_speed_50g ∷ eth_link_speed_56g ∷ eth_link_speed_100g ∷ []

-- `LinkSpeed::default`.
abbrev pub default_speed : ℕ
default_speed = eth_link_speed_autoneg

abbrev pub eth_vlan_strip_offload : ℕ
eth_vlan_strip_offload = 1

abbrev pub eth_vlan_filter_offload : ℕ
eth_vlan_filter_offload = 2

abbrev pub eth_vlan_extend_offload : ℕ
eth_vlan_extend_offload = 4

abbrev pub eth_vlan_strip_mask : ℕ
eth_vlan_strip_mask = 1

abbrev pub eth_vlan_filter_mask : ℕ
eth_vlan_filter_mask = 2

abbrev pub eth_vlan_extend_mask : ℕ
eth_vlan_extend_mask = 4

abbrev pub eth_vlan_id_max : ℕ
eth_vlan_id_max = 4095

abbrev pub eth_vmdq_accept_untag : ℕ
eth_vmdq_accept_untag = 1

abbrev pub eth_vmdq_accept_hash_mc : ℕ
eth_vmdq_accept_hash_mc = 2

abbrev pub eth_vmdq_accept_hash_uc : ℕ
eth_vmdq_accept_hash_uc = 4

abbrev pub eth_vmdq_accept_broadcast : ℕ
eth_vmdq_accept_broadcast = 8

abbrev pub eth_vmdq_accept_multicast : ℕ
eth_vmdq_accept_multicast = 16

bit_and-none : (s : ℕ) → bit_and 0 s ≡ 0
bit_and-none s = simp bit_and-bitwise refl

-- Each set of speeds contains `ETH_LINK_SPEED_AUTONEG`, the set without a bit, so that a test for it
-- does not tell a set with fixed speeds from one without. The fifteen other speeds together are the
-- first fifteen bits.
pub autoneg-contained : (s : ℕ) → (contains s default_speed ≡ true) × (union speeds ≡ 2 ^ 15 - 1)
unfolding contains
autoneg-contained s = (ground (arith, bit_and-none s), refl)

-- `ETH_VLAN_ID_MAX`, which is no offload, contains the three offloads of VLAN tags.
pub vlan_id_max-contains :
    contains eth_vlan_id_max
      (union (eth_vlan_strip_offload ∷ eth_vlan_filter_offload ∷ eth_vlan_extend_offload ∷ []))
    ≡ true
unfolding contains
vlan_id_max-contains = refl
