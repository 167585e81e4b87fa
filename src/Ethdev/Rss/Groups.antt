-- ===== src/Ethdev/Rss/Groups.antt =====
-- The combinations of hash functions of `RssHashFunc` in rte/src/ethdev.rs.
use rust_dpdk.Prelude.{ℕ, ◌≡◌, refl, [], ◌∷◌, map, bit_and}
use rust_dpdk.Ethdev.Rss.{
  union, eth_rss_c_vlan, eth_rss_frag_ipv4, eth_rss_frag_ipv6, eth_rss_geneve, eth_rss_ipv4,
  eth_rss_ipv6, eth_rss_ipv6_ex, eth_rss_ipv6_tcp_ex, eth_rss_ipv6_udp_ex, eth_rss_l2_payload,
  eth_rss_nonfrag_ipv4_other, eth_rss_nonfrag_ipv4_sctp, eth_rss_nonfrag_ipv4_tcp,
  eth_rss_nonfrag_ipv4_udp, eth_rss_nonfrag_ipv6_other, eth_rss_nonfrag_ipv6_sctp,
  eth_rss_nonfrag_ipv6_tcp, eth_rss_nonfrag_ipv6_udp, eth_rss_nvgre, eth_rss_port, eth_rss_s_vlan,
  eth_rss_vxlan, rte_eth_rss_l3_pre32, rte_eth_rss_l3_pre40, rte_eth_rss_l3_pre48,
  rte_eth_rss_l3_pre56, rte_eth_rss_l3_pre64, rte_eth_rss_l3_pre96,
}

abbrev pub eth_rss_ipv6_pre32 : ℕ
eth_rss_ipv6_pre32 = union (eth_rss_ipv6 ∷ rte_eth_rss_l3_pre32 ∷ [])

abbrev pub eth_rss_ipv6_pre40 : ℕ
eth_rss_ipv6_pre40 = union (eth_rss_ipv6 ∷ rte_eth_rss_l3_pre40 ∷ [])

abbrev pub eth_rss_ipv6_pre48 : ℕ
eth_rss_ipv6_pre48 = union (eth_rss_ipv6 ∷ rte_eth_rss_l3_pre48 ∷ [])

abbrev pub eth_rss_ipv6_pre56 : ℕ
eth_rss_ipv6_pre56 = union (eth_rss_ipv6 ∷ rte_eth_rss_l3_pre56 ∷ [])

abbrev pub eth_rss_ipv6_pre64 : ℕ
eth_rss_ipv6_pre64 = union (eth_rss_ipv6 ∷ rte_eth_rss_l3_pre64 ∷ [])

abbrev pub eth_rss_ipv6_pre96 : ℕ
eth_rss_ipv6_pre96 = union (eth_rss_ipv6 ∷ rte_eth_rss_l3_pre96 ∷ [])

abbrev pub eth_rss_ipv6_pre32_udp : ℕ
eth_rss_ipv6_pre32_udp = union (eth_rss_nonfrag_ipv6_udp ∷ rte_eth_rss_l3_pre32 ∷ [])

abbrev pub eth_rss_ipv6_pre40_udp : ℕ
eth_rss_ipv6_pre40_udp = union (eth_rss_nonfrag_ipv6_udp ∷ rte_eth_rss_l3_pre40 ∷ [])

abbrev pub eth_rss_ipv6_pre48_udp : ℕ
eth_rss_ipv6_pre48_udp = union (eth_rss_nonfrag_ipv6_udp ∷ rte_eth_rss_l3_pre48 ∷ [])

abbrev pub eth_rss_ipv6_pre56_udp : ℕ
eth_rss_ipv6_pre56_udp = union (eth_rss_nonfrag_ipv6_udp ∷ rte_eth_rss_l3_pre56 ∷ [])

abbrev pub eth_rss_ipv6_pre64_udp : ℕ
eth_rss_ipv6_pre64_udp = union (eth_rss_nonfrag_ipv6_udp ∷ rte_eth_rss_l3_pre64 ∷ [])

abbrev pub eth_rss_ipv6_pre96_udp : ℕ
eth_rss_ipv6_pre96_udp = union (eth_rss_nonfrag_ipv6_udp ∷ rte_eth_rss_l3_pre96 ∷ [])

abbrev pub eth_rss_ipv6_pre32_tcp : ℕ
eth_rss_ipv6_pre32_tcp = union (eth_rss_nonfrag_ipv6_tcp ∷ rte_eth_rss_l3_pre32 ∷ [])

abbrev pub eth_rss_ipv6_pre40_tcp : ℕ
eth_rss_ipv6_pre40_tcp = union (eth_rss_nonfrag_ipv6_tcp ∷ rte_eth_rss_l3_pre40 ∷ [])

abbrev pub eth_rss_ipv6_pre48_tcp : ℕ
eth_rss_ipv6_pre48_tcp = union (eth_rss_nonfrag_ipv6_tcp ∷ rte_eth_rss_l3_pre48 ∷ [])

abbrev pub eth_rss_ipv6_pre56_tcp : ℕ
eth_rss_ipv6_pre56_tcp = union (eth_rss_nonfrag_ipv6_tcp ∷ rte_eth_rss_l3_pre56 ∷ [])

abbrev pub eth_rss_ipv6_pre64_tcp : ℕ
eth_rss_ipv6_pre64_tcp = union (eth_rss_nonfrag_ipv6_tcp ∷ rte_eth_rss_l3_pre64 ∷ [])

abbrev pub eth_rss_ipv6_pre96_tcp : ℕ
eth_rss_ipv6_pre96_tcp = union (eth_rss_nonfrag_ipv6_tcp ∷ rte_eth_rss_l3_pre96 ∷ [])

abbrev pub eth_rss_ipv6_pre32_sctp : ℕ
eth_rss_ipv6_pre32_sctp = union (eth_rss_nonfrag_ipv6_sctp ∷ rte_eth_rss_l3_pre32 ∷ [])

abbrev pub eth_rss_ipv6_pre40_sctp : ℕ
eth_rss_ipv6_pre40_sctp = union (eth_rss_nonfrag_ipv6_sctp ∷ rte_eth_rss_l3_pre40 ∷ [])

abbrev pub eth_rss_ipv6_pre48_sctp : ℕ
eth_rss_ipv6_pre48_sctp = union (eth_rss_nonfrag_ipv6_sctp ∷ rte_eth_rss_l3_pre48 ∷ [])

abbrev pub eth_rss_ipv6_pre56_sctp : ℕ
eth_rss_ipv6_pre56_sctp = union (eth_rss_nonfrag_ipv6_sctp ∷ rte_eth_rss_l3_pre56 ∷ [])

abbrev pub eth_rss_ipv6_pre64_sctp : ℕ
eth_rss_ipv6_pre64_sctp = union (eth_rss_nonfrag_ipv6_sctp ∷ rte_eth_rss_l3_pre64 ∷ [])

abbrev pub eth_rss_ipv6_pre96_sctp : ℕ
eth_rss_ipv6_pre96_sctp = union (eth_rss_nonfrag_ipv6_sctp ∷ rte_eth_rss_l3_pre96 ∷ [])

abbrev pub eth_rss_ip : ℕ
eth_rss_ip = union (
    eth_rss_ipv4 ∷ eth_rss_frag_ipv4 ∷ eth_rss_nonfrag_ipv4_other ∷ eth_rss_ipv6 ∷ eth_rss_frag_ipv6
    ∷ eth_rss_nonfrag_ipv6_other ∷ eth_rss_ipv6_ex ∷ [])

abbrev pub eth_rss_udp : ℕ
eth_rss_udp = union (eth_rss_nonfrag_ipv4_udp ∷ eth_rss_nonfrag_ipv6_udp ∷ eth_rss_ipv6_udp_ex ∷ [])

abbrev pub eth_rss_tcp : ℕ
eth_rss_tcp = union (eth_rss_nonfrag_ipv4_tcp ∷ eth_rss_nonfrag_ipv6_tcp ∷ eth_rss_ipv6_tcp_ex ∷ [])

abbrev pub eth_rss_sctp : ℕ
eth_rss_sctp = union (eth_rss_nonfrag_ipv4_sctp ∷ eth_rss_nonfrag_ipv6_sctp ∷ [])

abbrev pub eth_rss_tunnel : ℕ
eth_rss_tunnel = union (eth_rss_vxlan ∷ eth_rss_geneve ∷ eth_rss_nvgre ∷ [])

abbrev pub eth_rss_vlan : ℕ
eth_rss_vlan = union (eth_rss_s_vlan ∷ eth_rss_c_vlan ∷ [])

abbrev pub eth_rss_proto_mask : ℕ
eth_rss_proto_mask = union (
    eth_rss_ipv4 ∷ eth_rss_frag_ipv4 ∷ eth_rss_nonfrag_ipv4_tcp ∷ eth_rss_nonfrag_ipv4_udp
    ∷ eth_rss_nonfrag_ipv4_sctp ∷ eth_rss_nonfrag_ipv4_other ∷ eth_rss_ipv6 ∷ eth_rss_frag_ipv6
    ∷ eth_rss_nonfrag_ipv6_tcp ∷ eth_rss_nonfrag_ipv6_udp ∷ eth_rss_nonfrag_ipv6_sctp
    ∷ eth_rss_nonfrag_ipv6_other ∷ eth_rss_l2_payload ∷ eth_rss_ipv6_ex ∷ eth_rss_ipv6_tcp_ex
    ∷ eth_rss_ipv6_udp_ex ∷ eth_rss_port ∷ eth_rss_vxlan ∷ eth_rss_geneve ∷ eth_rss_nvgre ∷ [])

-- The bits of the valid protocols in a combination with the length of a prefix are those of the protocol
-- alone.
prefixes_masked :
    map
      (λ s. bit_and s eth_rss_proto_mask)
      (eth_rss_ipv6_pre32 ∷ eth_rss_ipv6_pre64_udp ∷ eth_rss_ipv6_pre48_tcp
        ∷ eth_rss_ipv6_pre96_sctp ∷ [])
    ≡ eth_rss_ipv6 ∷ eth_rss_nonfrag_ipv6_udp ∷ eth_rss_nonfrag_ipv6_tcp ∷ eth_rss_nonfrag_ipv6_sctp
      ∷ []
prefixes_masked = refl

-- The groups by protocol lie in the mask of valid protocols; that of the VLAN tags lies outside.
groups_masked :
    map
      (λ s. bit_and s eth_rss_proto_mask)
      (eth_rss_ip ∷ eth_rss_udp ∷ eth_rss_tcp ∷ eth_rss_sctp ∷ eth_rss_tunnel ∷ eth_rss_vlan ∷ [])
    ≡ eth_rss_ip ∷ eth_rss_udp ∷ eth_rss_tcp ∷ eth_rss_sctp ∷ eth_rss_tunnel ∷ 0 ∷ []
groups_masked = refl
