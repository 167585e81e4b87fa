-- ===== src/Bond.antt =====
-- rte/src/bond.rs: bonded devices. `to_cptr!` of rte/src/macros.rs refuses a name with a zero byte.
pub mod Answers
use rust_dpdk.Prelude.{
  ℕ, ◌%◌, ◌^◌, ◌≡◌, List, [], ◌∷◌, ◌++◌, Option, none, some, Bool, true, false, ◌||◌, ◌==◌,
  if◌then◌else◌, take, get_elem?, ltb, ℤ, pos, negsuc, is_zero,
}
use rust_dpdk.Outcome.{halted, panicked}
use rust_dpdk.Dpdk
use rust_dpdk.Dpdk.{Dpdk, History, M, pure, call, ◌>>=◌, ◌>>◌}
use rust_dpdk.Utils.Strings.{has_nul}
use rust_dpdk.Errors.{Result, ok, err, nul_error, rte_error, rte_check, rte_check_value}
use rust_dpdk.Ethdev.Device.{as_u32}

-- `BondMode`, with the source's names.
pub data BondMode : Type 0 where
  rounc_robin active_backup balance broadcast auto_neg adaptive_tlb adaptive_lb : BondMode

-- `BondMode::from`, a `transmute`: any other number is no mode, and undefined behaviour.
unfoldable pub bond_mode_from : ℕ → Option BondMode
bond_mode_from n =
    get_elem?
      (rounc_robin ∷ active_backup ∷ balance ∷ broadcast ∷ auto_neg ∷ adaptive_tlb ∷ adaptive_lb
        ∷ [])
      n

-- `mode as u8`.
unfoldable pub bond_mode_number : BondMode → ℕ
bond_mode_number rounc_robin = 0
bond_mode_number active_backup = 1
bond_mode_number balance = 2
bond_mode_number broadcast = 3
bond_mode_number auto_neg = 4
bond_mode_number adaptive_tlb = 5
bond_mode_number adaptive_lb = 6

pub data TransmitPolicy : Type 0 where
  layer2 layer23 layer34 : TransmitPolicy

-- `TransmitPolicy::from`.
unfoldable pub transmit_policy_from : ℕ → Option TransmitPolicy
transmit_policy_from n = get_elem? (layer2 ∷ layer23 ∷ layer34 ∷ []) n

unfoldable pub transmit_policy_number : TransmitPolicy → ℕ
transmit_policy_number layer2 = 0
transmit_policy_number layer23 = 1
transmit_policy_number layer34 = 2

-- `x as u16` of an `i32`.
abbrev as_u16 : ℤ → ℕ
as_u16 x = as_u32 x % 2 ^ 16

-- `x as u8` of an `i32`.
abbrev as_u8 : ℤ → ℕ
as_u8 x = as_u32 x % 2 ^ 8

module _ (d : Dpdk) where
  unfoldable pub create : List ℕ → BondMode → ℤ → M (Result ℕ)
  unfolding has_nul bond_mode_number rte_check_value
  create name mode socket = if has_nul name then pure (err nul_error) else (do
    port_id ← call d (Dpdk.eth_bond_create name (bond_mode_number mode) (as_u8 socket))
    pure (rte_check_value port_id (as_u16 port_id)))

  unfoldable pub free : List ℕ → M (Result (Unit {0}))
  unfolding has_nul rte_check
  free name =
      if has_nul name then pure (err nul_error) else rte_check (call d (Dpdk.eth_bond_free name)) tt

  unfoldable pub add_slave : ℕ → ℕ → M (Result ℕ)
  unfolding rte_check
  add_slave port slave = rte_check (call d (Dpdk.eth_bond_slave_add port slave)) port

  unfoldable pub remove_slave : ℕ → ℕ → M (Result ℕ)
  unfolding rte_check
  remove_slave port slave = rte_check (call d (Dpdk.eth_bond_slave_remove port slave)) port

  unfoldable pub mode : ℕ → M (Result (Option BondMode))
  unfolding rte_check_value bond_mode_from
  mode port = do
    m ← call d (Dpdk.eth_bond_mode_get port)
    pure (rte_check_value m (bond_mode_from (as_u8 m)))

  unfoldable pub set_mode : ℕ → BondMode → M (Result ℕ)
  unfolding rte_check bond_mode_number
  set_mode port m = rte_check (call d (Dpdk.eth_bond_mode_set port (bond_mode_number m))) port

  unfoldable pub primary : ℕ → M (Result ℕ)
  unfolding rte_check_value
  primary port = do p ← call d (Dpdk.eth_bond_primary_get port); pure (rte_check_value p (as_u16 p))

  unfoldable pub set_primary : ℕ → ℕ → M (Result ℕ)
  unfolding rte_check
  set_primary port dev = rte_check (call d (Dpdk.eth_bond_primary_set port dev)) port

  -- The array has 32 entries, and what the call writes into it is read when the call is made.
  unfoldable pub slaves : ℕ → M (Result (List ℕ))
  unfolding rte_check_value
  slaves port h =
      (do
        num ← call d (Dpdk.eth_bond_slaves_get port 32)
        pure (rte_check_value num (take (as_u32 num) (d.slaves h port))))
        h

  -- The source asks `rte_eth_bond_slaves_get` here too.
  unfoldable pub active_slaves : ℕ → M (Result (List ℕ))
  unfolding rte_check_value
  active_slaves port h =
      (do
        num ← call d (Dpdk.eth_bond_slaves_get port 32)
        pure (rte_check_value num (take (as_u32 num) (d.slaves h port))))
        h

  unfoldable pub set_mac_addr : ℕ → List ℕ → M (Result ℕ)
  unfolding rte_check
  set_mac_addr port mac = rte_check (call d (Dpdk.eth_bond_mac_address_set port mac)) port

  unfoldable pub reset_mac_addr : ℕ → M (Result ℕ)
  unfolding rte_check
  reset_mac_addr port = rte_check (call d (Dpdk.eth_bond_mac_address_reset port)) port

  unfoldable pub xmit_policy : ℕ → M (Result (Option TransmitPolicy))
  unfolding rte_check_value transmit_policy_from
  xmit_policy port = do
    p ← call d (Dpdk.eth_bond_xmit_policy_get port)
    pure (rte_check_value p (transmit_policy_from (as_u8 p)))

  unfoldable pub set_xmit_policy : ℕ → TransmitPolicy → M (Result ℕ)
  unfolding rte_check transmit_policy_number
  set_xmit_policy port p =
      rte_check (call d (Dpdk.eth_bond_xmit_policy_set port (transmit_policy_number p))) port
