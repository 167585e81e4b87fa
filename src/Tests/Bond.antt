-- ===== src/Tests/Bond.antt =====
-- Runs of the example bond.
use rust_dpdk.Prelude.{
  ℕ, ◌+◌, ◌*◌, ◌≡◌, List, [], ◌∷◌, ◌++◌, some, true, false, length, replicate, refl, arith,
}
use rust_dpdk.Outcome.{done, Halt, halted}
use rust_dpdk.Text.{codes}
use rust_dpdk.Text.Equal.{equal}
use rust_dpdk.Examples.Bond.Frames.{
  field, answer_arp, strip_vlan_hdr, handle_frame, handle_of, arp_op_reply, Counters,
  ether_type_vlan,
}
use rust_dpdk.Errors.{Error, ok, err}
use rust_dpdk.Bond.{slaves, mode, primary, create, rounc_robin}
use rust_dpdk.Bond.Answers.{getters_answer_zero}
use rust_dpdk.Prelude.{◌⊎◌, pos}
use rust_dpdk.Examples.Bond.Replies.{answer_arp_fields}
use rust_dpdk.Examples.Bond.Tagged.{strip_vlan_hdr-tagged, tagged}
use rust_dpdk.Examples.Bond.Commands.{AppConfig, Role, arp_request, show}
use rust_dpdk.Examples.Bond.Exchange.{arp_request_answered}
use rust_dpdk.Examples.Bond.Main.{main, bond_main_stops}
use rust_dpdk.Tests.World.{obedient, working}

abbrev bond_ip : List ℕ
bond_ip = 10 ∷ 0 ∷ 0 ∷ 7 ∷ []

abbrev bond_mac : List ℕ
bond_mac = 2 ∷ 0 ∷ 0 ∷ 0 ∷ 0 ∷ 1 ∷ []

abbrev host_ip : List ℕ
host_ip = 10 ∷ 0 ∷ 0 ∷ 9 ∷ []

abbrev host_mac : List ℕ
host_mac = 2 ∷ 0 ∷ 0 ∷ 0 ∷ 0 ∷ 9 ∷ []

abbrev buffer : List ℕ
buffer = replicate 42 170

answer_arp_fields_example :
    (field 0 6 (answer_arp bond_ip bond_mac 14 buffer) ≡ field 6 6 buffer)
    × (field 6 6 (answer_arp bond_ip bond_mac 14 buffer) ≡ bond_mac)
    × (field (14 + 6) 2 (answer_arp bond_ip bond_mac 14 buffer) ≡ arp_op_reply)
    × (field (14 + 8) 6 (answer_arp bond_ip bond_mac 14 buffer) ≡ bond_mac)
    × (field (14 + 14) 4 (answer_arp bond_ip bond_mac 14 buffer) ≡ bond_ip)
    × (field (14 + 18) 6 (answer_arp bond_ip bond_mac 14 buffer) ≡ field (14 + 8) 6 buffer)
    × (field (14 + 24) 4 (answer_arp bond_ip bond_mac 14 buffer) ≡ field (14 + 14) 4 buffer)
    × (length (answer_arp bond_ip bond_mac 14 buffer) ≡ length buffer)
answer_arp_fields_example =
    answer_arp_fields bond_ip bond_mac 14 buffer refl refl (omega arith) (omega arith)

abbrev no_packets : Counters
no_packets = record { total = 0; arp = 0; ipv4 = 0 }

arp_request_answered_example :
    handle_frame host_ip host_mac no_packets (arp_request bond_ip bond_mac host_ip buffer) ≡ (
      record { total = 0; arp = 1; ipv4 = 0 },
      some (
          handle_of (answer_arp host_ip host_mac 14 (arp_request bond_ip bond_mac host_ip buffer))),
    )
arp_request_answered_example =
    arp_request_answered bond_ip bond_mac host_ip buffer refl refl refl host_mac no_packets refl

arp_is_no_tag : equal (8 ∷ 6 ∷ []) ether_type_vlan ≡ false
unfolding equal
arp_is_no_tag = refl

strip_vlan_hdr-tagged_example :
    strip_vlan_hdr (replicate 12 1 ++ tagged ((0, 5) ∷ (0, 6) ∷ []) (8 ∷ 6 ∷ 0 ∷ []))
    ≡ some (14 + 4 * 2, 8 ∷ 6 ∷ [])
strip_vlan_hdr-tagged_example =
    strip_vlan_hdr-tagged (replicate 12 1) 8 6 ((0, 5) ∷ (0, 6) ∷ []) (0 ∷ []) refl arp_is_no_tag

abbrev app : AppConfig
app = record {
  lcore_main_is_running = true;
  lcore_main_core_id = 1;
  bond_ip = bond_ip;
  bond_mac_addr = bond_mac;
  bonded_port_id = 2;
  port_packets = no_packets;
}

abbrev no_lines : List (ℕ × List ℕ × Role)
no_lines = []

abbrev none_active : ℕ
none_active = 0

shown : (show obedient app []).0 ≡ done (no_lines, none_active, no_packets)
unfolding show
shown = refl

bond_main_stops_example :
    (x : Halt) × ((main working (λ id. true) 0 1 8 (codes "bin/bond" ∷ []) []).0 ≡ halted x)
bond_main_stops_example =
    bond_main_stops working (λ id. true) 0 1 8 (λ h name mode socket. refl) (codes "bin/bond" ∷ [])
      []

getters_answer_zero_example :
    (((e : Error) × ((slaves working 2 []).0 ≡ done (err e)))
      ⊎ ((slaves working 2 []).0 ≡ done (ok [])))
    × (((e : Error) × ((mode working 2 []).0 ≡ done (err e)))
        ⊎ ((mode working 2 []).0 ≡ done (ok (some rounc_robin))))
    × (((e : Error) × ((primary working 2 []).0 ≡ done (err e)))
        ⊎ ((primary working 2 []).0 ≡ done (ok 0)))
    × (((e : Error) × ((create working (codes "bond") rounc_robin (pos 0) []).0 ≡ done (err e)))
        ⊎ ((create working (codes "bond") rounc_robin (pos 0) []).0 ≡ done (ok 0)))
getters_answer_zero_example = getters_answer_zero working [] 2 (codes "bond") rounc_robin (pos 0)
