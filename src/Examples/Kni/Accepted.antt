-- ===== src/Examples/Kni/Accepted.antt =====
-- What `parse_config` of rte/examples/kni/main.rs accepts.
use rust_dpdk.Prelude.{
  ℕ, zero, suc, ◌≤◌, ◌<◌, ◌≡◌, List, [], ◌∷◌, Option, none, some, ◌==◌, if◌then◌else◌, length,
  get_elem?, arith, refl,
}
use rust_dpdk.Lcore.{rte_max_lcore}
use rust_dpdk.Examples.Kni.Config.{
  Conf, KniPortParams, refused, panic, port_too_big, rte_max_ethports, kni_max_kthread, lcore_room,
  port_params, parse_port,
}

-- The parameters of the port `i`: receiving and sending cores in range, no more kernel threads than there
-- is room for up to the end of the structure.
pub record Valid (i : ℕ) (p : KniPortParams) : Type 0 where
  pub port_here : p.port_id ≡ i
  pub rx_below : p.lcore_rx < rte_max_lcore
  pub tx_below : p.lcore_tx < rte_max_lcore
  pub threads_fit : p.nb_lcore_k ≤ lcore_room
  pub lcore_k_full : length p.lcore_k ≡ kni_max_kthread
  pub kni_full : length p.kni ≡ kni_max_kthread

-- An entry of the table.
ValidEntry : ℕ → Option KniPortParams → Type 0
ValidEntry i none = Unit
ValidEntry i (some p) = Valid i p

unfoldable pub IsValidConf : Conf → Type 0
IsValidConf c =
    (length c.port_params ≡ rte_max_ethports)
    × ((i : ℕ) (p : KniPortParams) → get_elem? c.port_params i ≡ some (some p) → Valid i p)

beyond_none : {A : Type 0} (xs : List A) (i : ℕ) → length xs ≤ i → get_elem? xs i ≡ none
beyond_none [] i h = refl
beyond_none (x ∷ xs) zero h = absurd (omega arith)
beyond_none (x ∷ xs) (suc i) h = beyond_none xs i (omega arith)

-- A port number behind the table: 32 passes the guard and panics, and a greater one is refused.
pub parse_port_beyond :
    (conf : Conf) (port : ℕ) (fields : List (List ℕ))
    → length conf.port_params ≡ rte_max_ethports
    → rte_max_ethports ≤ port
    → parse_port conf port fields
      ≡ (if port == rte_max_ethports then panic else refused port_too_big)
unfolding parse_port
parse_port_beyond conf port fields len beyond =
    ground (arith, beyond_none conf.port_params port (omega (arith, len, beyond)))
