-- ===== src/Tests/Kni.antt =====
-- Runs of the example kni.
use rust_dpdk.Prelude.{
  ℕ, ◌<◌, ◌≡◌, ◌≢◌, List, [], ◌∷◌, none, some, false, length, get_elem?, replicate, refl,
}
use rust_dpdk.Outcome.{done}
use rust_dpdk.Dpdk
use rust_dpdk.Dpdk.{Dpdk, History}
use rust_dpdk.Text.{codes}
use rust_dpdk.Text.Radix.{from_str_radix}
use rust_dpdk.Examples.Kni.Config.{Conf, new, rte_max_ethports, KniPortParams}
use rust_dpdk.Prelude.{max, ◌≢◌}
use rust_dpdk.Examples.Kni.Ports.Alloc.{kni_alloc}
use rust_dpdk.Examples.Kni.Ports.Allocated.{kni_alloc-devices, rounds}
use rust_dpdk.Examples.Kni.Ports.{is_refused_port}
use rust_dpdk.Examples.Ports.{all_up}
use rust_dpdk.Prelude.{range_from, ◌++◌, true}
use rust_dpdk.Examples.Kni.Config.{Matches}
use rust_dpdk.Examples.Kni.Main.{main}
use rust_dpdk.Tests.World.{obedient, working, broken}

abbrev config_args : List (List ℕ)
config_args = codes "2,4,5,6" ∷ []

abbrev port_2 : KniPortParams
port_2 = record {
  port_id = 2;
  lcore_rx = 4;
  lcore_tx = 5;
  nb_lcore_k = 1;
  nb_kni = 0;
  lcore_k = 6 ∷ replicate 31 0;
  kni = replicate 32 none;
}

abbrev with_port_2 : Conf
with_port_2 = record new { port_params = none ∷ none ∷ some port_2 ∷ replicate 29 none }

new_length : length new.port_params ≡ rte_max_ethports
unfolding new
new_length = refl

port_1_accepted : is_refused_port (broken.count [] Dpdk.eth_dev_count_avail) 1 ≡ false
unfolding is_refused_port
port_1_accepted = refl

abbrev allocated : Conf
allocated = record with_port_2 {
  port_params =
      none
      ∷ none
      ∷ some (record port_2 { nb_kni = 1; kni = some 4096 ∷ replicate 31 none })
      ∷ replicate 29 none;
}

port_2-here : get_elem? with_port_2.port_params 2 ≡ some (some port_2)
port_2-here = refl

kni_alloc-allocated : (kni_alloc working with_port_2 2 []).0 ≡ done allocated
unfolding kni_alloc new
kni_alloc-allocated = refl

kni_alloc-devices_example :
    (p' : KniPortParams) × (get_elem? allocated.port_params 2 ≡ some (some p'))
    × (p'.nb_kni ≡ max port_2.nb_lcore_k 1)
    × ((j : ℕ) → j < p'.nb_kni → (dev : ℕ) × (get_elem? p'.kni j ≡ some (some dev)))
    × ((q : ℕ) → 2 ≢ q → get_elem? allocated.port_params q ≡ get_elem? with_port_2.port_params q)
    × ((kni_alloc working with_port_2 2 []).1 ≡ [] ++ rounds p'.nb_kni 0 port_2.nb_lcore_k 2 p'.kni)
kni_alloc-devices_example =
    kni_alloc-devices working with_port_2 2 port_2 [] {conf' = allocated} port_2-here
      kni_alloc-allocated

abbrev matches : Matches
matches = record {
  help = false;
  p = some (codes "3");
  promiscuous = true;
  configs = codes "0,4,5,6" ∷ [];
}

main_ends :
    (main obedient (λ opts. some matches) (λ h. false) (codes "bin/kni" ∷ []) []).0 ≡ done tt
unfolding main from_str_radix range_from all_up
main_ends = refl
