-- ===== src/Examples/Bond/Commands.antt =====
-- The commands of rte/examples/bond/main.rs: `CmdActionResult`.
use rust_dpdk.Prelude.{
  ℕ, ◌≡◌, List, [], ◌∷◌, Bool, true, false, ◌||◌, ◌==◌, if◌then◌else◌, length, replicate, arith,
}
use rust_dpdk.Outcome.{done}
use rust_dpdk.Dpdk.{Dpdk, History, M, pure, ◌>>=◌, ◌>>◌}
use rust_dpdk.Errors.{rte_check_value, expect}
use rust_dpdk.Ethdev.{mac_addr}
use rust_dpdk.Bond.{slaves, active_slaves, primary}
use rust_dpdk.Launch.{remote_launch, wait}
use rust_dpdk.Examples.Bond.Frames.{put, Counters, ether_type_arp, ether_type_ipv4, arp_op_request}

-- `AppConfig`; the bond's addresses are in network order.
pub record AppConfig : Type 0 where
  pub lcore_main_is_running : Bool
  pub lcore_main_core_id : ℕ
  pub bond_ip : List ℕ
  pub bond_mac_addr : List ℕ
  pub bonded_port_id : ℕ
  pub port_packets : Counters

with_running : AppConfig → Bool → AppConfig
with_running c b = record {
  lcore_main_is_running = b;
  lcore_main_core_id = c.lcore_main_core_id;
  bond_ip = c.bond_ip;
  bond_mac_addr = c.bond_mac_addr;
  bonded_port_id = c.bonded_port_id;
  port_packets = c.port_packets;
}

-- What a command prints, where it prints anything.
pub data Line : Type 0 where
  already_running not_running stopped : ℕ → Line

pub data Role : Type 0 where
  primary_role active_role unused_role : Role

contains : ℕ → List ℕ → Bool
contains x [] = false
contains x (y ∷ ys) = x == y || contains x ys

unfoldable pub role : ℕ → List ℕ → ℕ → Role
unfolding contains
role prim active slave =
    if slave == prim
    then primary_role
    else if contains slave active
    then active_role
    else unused_role

-- The request that `send` writes into a fresh buffer, whose bytes `buf` are what they are: the Ethernet
-- header, then the ARP header at 14.
unfoldable pub arp_request : List ℕ → List ℕ → List ℕ → List ℕ → List ℕ
unfolding put
arp_request bond_ip bond_mac ip buf =
    let m = put 12 ether_type_arp buf in
    let m = put 6 bond_mac m in
    let m = put 0 (replicate 6 255) m in
    let m = put 14 (0 ∷ 1 ∷ []) m in
    let m = put 16 ether_type_ipv4 m in
    let m = put 18 (6 ∷ []) m in
    let m = put 19 (4 ∷ []) m in
    let m = put 20 arp_op_request m in
    let m = put 22 bond_mac m in
    let m = put 32 (replicate 6 0) m in let m = put 28 bond_ip m in put 38 ip m

module _ (d : Dpdk) where
  -- `AppConfig::start` and `AppConfig::stop`.
  start_app : AppConfig → M AppConfig
  unfolding remote_launch with_running
  start_app c = do
    launched ← remote_launch d c.lcore_main_core_id
    expect launched
    pure (with_running c true)

  stop_app : AppConfig → M AppConfig
  unfolding wait with_running
  stop_app c = do wait d c.lcore_main_core_id; pure (with_running c false)

  -- The commands `start` and `stop`.
  unfoldable pub start : AppConfig → M (AppConfig × List Line)
  unfolding start_app
  start c = elim c.lcore_main_is_running [
    | true ↦ pure (c, already_running c.lcore_main_core_id ∷ [])
    | false ↦ (do c' ← start_app c; pure (c', []))
  ]

  unfoldable pub stop : AppConfig → M (AppConfig × List Line)
  unfolding stop_app
  stop c = elim c.lcore_main_is_running [
    | false ↦ pure (c, not_running c.lcore_main_core_id ∷ [])
    | true ↦ (do c' ← stop_app c; pure (c', stopped c.lcore_main_core_id ∷ []))
  ]

  slave_lines : ℕ → List ℕ → List ℕ → M (List (ℕ × List ℕ × Role))
  unfolding mac_addr role
  slave_lines prim active [] = pure []
  slave_lines prim active (s ∷ ss) = do
    mac ← mac_addr d s
    lines ← slave_lines prim active ss
    pure ((s, mac, role prim active s) ∷ lines)

  -- `show`: a line for each slave, the number of active slaves, and the counters.
  unfoldable pub show : AppConfig → M (List (ℕ × List ℕ × Role) × ℕ × Counters)
  unfolding active_slaves primary slaves slave_lines
  show c = do
    active' ← active_slaves d c.bonded_port_id
    active ← expect active'
    prim' ← primary d c.bonded_port_id
    prim ← expect prim'
    all' ← slaves d c.bonded_port_id
    all ← expect all'
    lines ← slave_lines prim active all
    pure (lines, length active, c.port_packets)

  -- Whatever DPDK answers, `show` lists no slave and counts no active one, where it does not panic.
  pub show_lists_nothing :
      (c : AppConfig) (h : History) {lines : List (ℕ × List ℕ × Role)} {n : ℕ} {p : Counters}
      → (show c h).0 ≡ done (lines, n, p)
      → (lines ≡ []) × (n ≡ 0) × (p ≡ c.port_packets)
  unfolding show slaves active_slaves primary rte_check_value slave_lines
  show_lists_nothing c h e = grind arith
