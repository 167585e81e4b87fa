-- ===== src/Tests/L2fwd.antt =====
-- Runs of the example l2fwd.
use rust_dpdk.Prelude.{
  min, range_from, ℕ, ◌^◌, ◌≤◌, ◌<◌, ◌≡◌, List, [], ◌∷◌, ◌++◌, none, some, Bool, false, ◌==◌, ◌||◌,
  length, get_elem?, replicate, All, NoDup, refl, arith,
}
use rust_dpdk.Outcome.{done, halted, panicked}
use rust_dpdk.Text.{codes}
use rust_dpdk.Text.Radix.{from_str_radix, u32_max}
use rust_dpdk.Examples.Args.{prepare_args, prepare_args_split, file_name}
use rust_dpdk.Text.Equal.{equal}
use rust_dpdk.Examples.L2fwd.Options.{
  Options, Matches, parse_args, timer_period, max_rx_queue_per_lcore, max_timer_period,
  parse_args_ranges,
}
use rust_dpdk.Examples.L2fwd.Pairs.{pair_ports, partner, or_else, pair_ports-partner}
use rust_dpdk.Examples.L2fwd.Queues
use rust_dpdk.Lcore.{is_eligible}
use rust_dpdk.Examples.L2fwd.Queues.{Assignment, assign_ports, times_received, first_count, times}
use rust_dpdk.Examples.L2fwd.Queues.Received.{assign_ports-received}
use rust_dpdk.Examples.L2fwd.Init.{PortTables}
use rust_dpdk.Examples.L2fwd.Main.{main, main_stops}
use rust_dpdk.Outcome.{Halt}
use rust_dpdk.Tests.World.{working}

no_dashes : All (λ x. equal x (codes "--") ≡ false) (codes "bin/l2fwd" ∷ codes "-c3" ∷ [])
unfolding equal
no_dashes = (refl, (refl, tt))

named : file_name (codes "bin/l2fwd") ≡ some (codes "l2fwd")
unfolding file_name
named = refl

prepare_args_split_example :
    prepare_args (codes "bin/l2fwd" ∷ (codes "-c3" ∷ []) ++ codes "--" ∷ codes "-p3" ∷ [])
    ≡ done (record {
      eal_args = codes "bin/l2fwd" ∷ codes "-c3" ∷ [];
      opt_args = codes "l2fwd" ∷ codes "-p3" ∷ [];
    })
prepare_args_split_example =
    prepare_args_split (codes "bin/l2fwd") (codes "-c3" ∷ []) (codes "-p3" ∷ []) (codes "l2fwd")
      no_dashes named

abbrev given : Matches
given = record { help = false; p = some (codes "f"); q = some (codes "4"); period = none }

abbrev chosen : Options
chosen = record { enabled_port_mask = 15; rx_queue_per_lcore = 4; timer_period_seconds = 10 }

given-chosen : parse_args (some given) ≡ done chosen
unfolding parse_args from_str_radix
given-chosen = refl

parse_args_ranges_example :
    (15 ≤ u32_max)
    × (1 ≤ 4)
    × (4 < max_rx_queue_per_lcore)
    × (1 ≤ 10)
    × (10 < max_timer_period)
    × (timer_period chosen < 2 ^ 63)
parse_args_ranges_example = parse_args_ranges (some given) {o = chosen} given-chosen

abbrev no_dst : List ℕ
no_dst = replicate 32 0

three_distinct : NoDup (0 ∷ 2 ∷ 5 ∷ [])
three_distinct = ((omega arith, (omega arith, tt)), ((omega arith, tt), (tt, tt)))

three_below : All (λ p. p < length no_dst) (0 ∷ 2 ∷ 5 ∷ [])
three_below = (omega arith, (omega arith, (omega arith, tt)))

pair_ports-partner_example :
    (dst' : List ℕ) × (pair_ports (0 ∷ 2 ∷ 5 ∷ []) no_dst ≡ done dst')
    × (length dst' ≡ length no_dst)
    × ((q : ℕ) → get_elem? dst' q ≡ or_else (partner (0 ∷ 2 ∷ 5 ∷ []) q) (get_elem? no_dst q))
pair_ports-partner_example = pair_ports-partner (0 ∷ 2 ∷ 5 ∷ []) no_dst three_distinct three_below

zero_with_two : partner (0 ∷ 2 ∷ 5 ∷ []) 0 ≡ some 2
unfolding partner
zero_with_two = refl

abbrev on : ℕ → Bool
on id = id == 0 || id == 3

assign_ports-received_example :
    (a : Assignment) × (assign_ports on 0 1 (4 ∷ 7 ∷ 9 ∷ []) ≡ done a)
    × ((p : ℕ) → times_received on 0 p a.queue_conf ≡ times p (4 ∷ 7 ∷ 9 ∷ []))
    × (min 1 (length {A = ℕ} (4 ∷ 7 ∷ 9 ∷ [])) ≤ first_count a.queue_conf)
assign_ports-received_example = assign_ports-received on 0 refl 1 (4 ∷ 7 ∷ 9 ∷ []) (omega arith)

abbrev tables : PortTables
tables = record { ports_eth_addr = replicate 32 (replicate 6 0); tx_buffers = replicate 32 none }

abbrev conf : Queues.Conf
conf = record { nb_rxd = 128; nb_txd = 512; queue_conf = [] }

-- One core and seventeen ports: the last one is written behind the core's list.
seventeen_ports : assign_ports (λ id. id == 0) 0 1 (range_from 0 17) ≡ halted panicked
unfolding assign_ports range_from is_eligible
seventeen_ports = refl

main_stops_example :
    (x : Halt) × ((main working
        (λ opts. some given)
        (λ h. false)
        (λ id. id == 0)
        0
        (codes "bin/l2fwd" ∷ [])
        []).0
      ≡ halted x)
main_stops_example =
    main_stops working (λ opts. some given) (λ h. false) (λ id. id == 0) 0 (λ h p. refl)
      (codes "bin/l2fwd" ∷ []) []
