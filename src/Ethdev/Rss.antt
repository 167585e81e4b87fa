-- ===== src/Ethdev/Rss.antt =====
-- `RssHashFunc` of rte/src/ethdev.rs: the hash functions of receive side scaling, a set of bits. The
-- numbers of the flow types are those of the bindings.
pub mod Groups
use Prim.Native.Nat.{bit_or}
use rust_dpdk.Prelude.{ℕ, ◌*◌, ◌^◌, List, [], ◌∷◌}

-- The union of sets of bits.
abbrev pub union : List ℕ → ℕ
union [] = 0
union (b ∷ bs) = bit_or b (union bs)

abbrev flow_ipv4 : ℕ
flow_ipv4 = 2

abbrev flow_frag_ipv4 : ℕ
flow_frag_ipv4 = 3

abbrev flow_nonfrag_ipv4_tcp : ℕ
flow_nonfrag_ipv4_tcp = 4

abbrev flow_nonfrag_ipv4_udp : ℕ
flow_nonfrag_ipv4_udp = 5

abbrev flow_nonfrag_ipv4_sctp : ℕ
flow_nonfrag_ipv4_sctp = 6

abbrev flow_nonfrag_ipv4_other : ℕ
flow_nonfrag_ipv4_other = 7

abbrev flow_ipv6 : ℕ
flow_ipv6 = 8

abbrev flow_frag_ipv6 : ℕ
flow_frag_ipv6 = 9

abbrev flow_nonfrag_ipv6_tcp : ℕ
flow_nonfrag_ipv6_tcp = 10

abbrev flow_nonfrag_ipv6_udp : ℕ
flow_nonfrag_ipv6_udp = 11

abbrev flow_nonfrag_ipv6_sctp : ℕ
flow_nonfrag_ipv6_sctp = 12

abbrev flow_nonfrag_ipv6_other : ℕ
flow_nonfrag_ipv6_other = 13

abbrev flow_l2_payload : ℕ
flow_l2_payload = 14

abbrev flow_ipv6_ex : ℕ
flow_ipv6_ex = 15

abbrev flow_ipv6_tcp_ex : ℕ
flow_ipv6_tcp_ex = 16

abbrev flow_ipv6_udp_ex : ℕ
flow_ipv6_udp_ex = 17

abbrev flow_port : ℕ
flow_port = 18

abbrev flow_vxlan : ℕ
flow_vxlan = 19

abbrev flow_geneve : ℕ
flow_geneve = 20

abbrev flow_nvgre : ℕ
flow_nvgre = 21

abbrev flow_gtpu : ℕ
flow_gtpu = 23

abbrev flow_max : ℕ
flow_max = 24

abbrev pub eth_rss_unknown : ℕ
eth_rss_unknown = 0

abbrev pub eth_rss_ipv4 : ℕ
eth_rss_ipv4 = 2 ^ flow_ipv4

abbrev pub eth_rss_frag_ipv4 : ℕ
eth_rss_frag_ipv4 = 2 ^ flow_frag_ipv4

abbrev pub eth_rss_nonfrag_ipv4_tcp : ℕ
eth_rss_nonfrag_ipv4_tcp = 2 ^ flow_nonfrag_ipv4_tcp

abbrev pub eth_rss_nonfrag_ipv4_udp : ℕ
eth_rss_nonfrag_ipv4_udp = 2 ^ flow_nonfrag_ipv4_udp

abbrev pub eth_rss_nonfrag_ipv4_sctp : ℕ
eth_rss_nonfrag_ipv4_sctp = 2 ^ flow_nonfrag_ipv4_sctp

abbrev pub eth_rss_nonfrag_ipv4_other : ℕ
eth_rss_nonfrag_ipv4_other = 2 ^ flow_nonfrag_ipv4_other

abbrev pub eth_rss_ipv6 : ℕ
eth_rss_ipv6 = 2 ^ flow_ipv6

abbrev pub eth_rss_frag_ipv6 : ℕ
eth_rss_frag_ipv6 = 2 ^ flow_frag_ipv6

abbrev pub eth_rss_nonfrag_ipv6_tcp : ℕ
eth_rss_nonfrag_ipv6_tcp = 2 ^ flow_nonfrag_ipv6_tcp

abbrev pub eth_rss_nonfrag_ipv6_udp : ℕ
eth_rss_nonfrag_ipv6_udp = 2 ^ flow_nonfrag_ipv6_udp

abbrev pub eth_rss_nonfrag_ipv6_sctp : ℕ
eth_rss_nonfrag_ipv6_sctp = 2 ^ flow_nonfrag_ipv6_sctp

abbrev pub eth_rss_nonfrag_ipv6_other : ℕ
eth_rss_nonfrag_ipv6_other = 2 ^ flow_nonfrag_ipv6_other

abbrev pub eth_rss_l2_payload : ℕ
eth_rss_l2_payload = 2 ^ flow_l2_payload

abbrev pub eth_rss_ipv6_ex : ℕ
eth_rss_ipv6_ex = 2 ^ flow_ipv6_ex

abbrev pub eth_rss_ipv6_tcp_ex : ℕ
eth_rss_ipv6_tcp_ex = 2 ^ flow_ipv6_tcp_ex

abbrev pub eth_rss_ipv6_udp_ex : ℕ
eth_rss_ipv6_udp_ex = 2 ^ flow_ipv6_udp_ex

abbrev pub eth_rss_port : ℕ
eth_rss_port = 2 ^ flow_port

abbrev pub eth_rss_vxlan : ℕ
eth_rss_vxlan = 2 ^ flow_vxlan

abbrev pub eth_rss_geneve : ℕ
eth_rss_geneve = 2 ^ flow_geneve

abbrev pub eth_rss_nvgre : ℕ
eth_rss_nvgre = 2 ^ flow_nvgre

abbrev pub eth_rss_gtpu : ℕ
eth_rss_gtpu = 2 ^ flow_gtpu

abbrev pub eth_rss_eth : ℕ
eth_rss_eth = 2 ^ flow_max

abbrev pub eth_rss_s_vlan : ℕ
eth_rss_s_vlan = 2 ^ 25

abbrev pub eth_rss_c_vlan : ℕ
eth_rss_c_vlan = 2 ^ 26

abbrev pub eth_rss_esp : ℕ
eth_rss_esp = 2 ^ 27

abbrev pub eth_rss_ah : ℕ
eth_rss_ah = 2 ^ 28

abbrev pub eth_rss_l2tpv3 : ℕ
eth_rss_l2tpv3 = 2 ^ 29

abbrev pub eth_rss_pfcp : ℕ
eth_rss_pfcp = 2 ^ 30

abbrev pub eth_rss_pppoe : ℕ
eth_rss_pppoe = 2 ^ 31

abbrev pub eth_rss_ecpri : ℕ
eth_rss_ecpri = 2 ^ 32

abbrev pub eth_rss_l3_src_only : ℕ
eth_rss_l3_src_only = 2 ^ 63

abbrev pub eth_rss_l3_dst_only : ℕ
eth_rss_l3_dst_only = 2 ^ 62

abbrev pub eth_rss_l4_src_only : ℕ
eth_rss_l4_src_only = 2 ^ 61

abbrev pub eth_rss_l4_dst_only : ℕ
eth_rss_l4_dst_only = 2 ^ 60

abbrev pub eth_rss_l2_src_only : ℕ
eth_rss_l2_src_only = 2 ^ 59

abbrev pub eth_rss_l2_dst_only : ℕ
eth_rss_l2_dst_only = 2 ^ 58

abbrev pub rte_eth_rss_l3_pre32 : ℕ
rte_eth_rss_l3_pre32 = 2 ^ 57

abbrev pub rte_eth_rss_l3_pre40 : ℕ
rte_eth_rss_l3_pre40 = 2 ^ 56

abbrev pub rte_eth_rss_l3_pre48 : ℕ
rte_eth_rss_l3_pre48 = 2 ^ 55

abbrev pub rte_eth_rss_l3_pre56 : ℕ
rte_eth_rss_l3_pre56 = 2 ^ 54

abbrev pub rte_eth_rss_l3_pre64 : ℕ
rte_eth_rss_l3_pre64 = 2 ^ 53

abbrev pub rte_eth_rss_l3_pre96 : ℕ
rte_eth_rss_l3_pre96 = 2 ^ 52

abbrev pub eth_rss_level_pmd_default : ℕ
eth_rss_level_pmd_default = 0

abbrev pub eth_rss_level_outermost : ℕ
eth_rss_level_outermost = 2 ^ 50

abbrev pub eth_rss_level_innermost : ℕ
eth_rss_level_innermost = 2 * 2 ^ 50

abbrev pub eth_rss_level_mask : ℕ
eth_rss_level_mask = 3 * 2 ^ 50
