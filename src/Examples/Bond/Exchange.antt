-- ===== src/Examples/Bond/Exchange.antt =====
-- The ARP request that `send` of rte/examples/bond/main.rs makes, seen by `lcore_main` of the host that
-- it asks for.
use rust_dpdk.Prelude.{
  ℕ, ◌+◌, ◌≡◌, inl, inr, List, [], ◌∷◌, some, length, replicate, arith, refl, ◌∙◌,
}
use rust_dpdk.Text.Equal.{equal, equal_same}
use rust_dpdk.Examples.Bond.Frames.{
  field, put, strip_vlan_hdr, handle_frame, handle_next, answer_arp, Counters, ether_type_arp,
  ether_type_ipv4, arp_op_request, handle_of, tx_burst_ref,
}
use rust_dpdk.Examples.Bond.Replies.{length-put, keep, write_read}
use rust_dpdk.Examples.Bond.Commands.{arp_request}

module _ (bond_ip bond_mac ip buf : List ℕ) (bond4 : length bond_ip ≡ 4)
    (mac6 : length bond_mac ≡ 6) (ip4 : length ip ≡ 4) where
  -- The fields that the receiver looks at: the protocol, the operation, and the address asked for.
  arp_request_fields :
      length buf ≡ 42
      → (field 12 2 (arp_request bond_ip bond_mac ip buf) ≡ ether_type_arp)
        × (field 20 2 (arp_request bond_ip bond_mac ip buf) ≡ arp_op_request)
        × (field 38 4 (arp_request bond_ip bond_mac ip buf) ≡ ip)
  unfolding arp_request
  arp_request_fields long =
      let f1 = put 12 ether_type_arp buf in
      let n1 : length f1 ≡ 42 = length-put 12 ether_type_arp buf ∙ long in
      let f2 = put 6 bond_mac f1 in
      let n2 : length f2 ≡ 42 = length-put 6 bond_mac f1 ∙ n1 in
      let f3 = put 0 (replicate 6 255) f2 in
      let n3 : length f3 ≡ 42 = length-put 0 (replicate 6 255) f2 ∙ n2 in
      let f4 = put 14 (0 ∷ 1 ∷ []) f3 in
      let n4 : length f4 ≡ 42 = length-put 14 (0 ∷ 1 ∷ []) f3 ∙ n3 in
      let f5 = put 16 ether_type_ipv4 f4 in
      let n5 : length f5 ≡ 42 = length-put 16 ether_type_ipv4 f4 ∙ n4 in
      let f6 = put 18 (6 ∷ []) f5 in
      let n6 : length f6 ≡ 42 = length-put 18 (6 ∷ []) f5 ∙ n5 in
      let f7 = put 19 (4 ∷ []) f6 in
      let n7 : length f7 ≡ 42 = length-put 19 (4 ∷ []) f6 ∙ n6 in
      let f8 = put 20 arp_op_request f7 in
      let n8 : length f8 ≡ 42 = length-put 20 arp_op_request f7 ∙ n7 in
      let f9 = put 22 bond_mac f8 in
      let n9 : length f9 ≡ 42 = length-put 22 bond_mac f8 ∙ n8 in
      let f10 = put 32 (replicate 6 0) f9 in
      let n10 : length f10 ≡ 42 = length-put 32 (replicate 6 0) f9 ∙ n9 in
      let f11 = put 28 bond_ip f10 in
      let n11 : length f11 ≡ 42 = length-put 28 bond_ip f10 ∙ n10 in
      let f12 = put 38 ip f11 in
      let n12 : length f12 ≡ 42 = length-put 38 ip f11 ∙ n11 in
      (
        keep 38 ip f11 12 2 (inr (omega (arith, ip4))) (
            keep 28 bond_ip f10 12 2 (inr (omega (arith, bond4))) (
              keep 32 (replicate 6 0) f9 12 2 (inr (omega (arith))) (
                keep 22 bond_mac f8 12 2 (inr (omega (arith, mac6))) (
                  keep 20 arp_op_request f7 12 2 (inr (omega (arith))) (
                    keep 19 (4 ∷ []) f6 12 2 (inr (omega (arith))) (
                      keep 18 (6 ∷ []) f5 12 2 (inr (omega (arith))) (
                        keep 16 ether_type_ipv4 f4 12 2 (inr (omega (arith))) (
                          keep 14 (0 ∷ 1 ∷ []) f3 12 2 (inr (omega (arith))) (
                            keep 0 (replicate 6 255) f2 12 2 (inl (omega (arith))) (
                              keep 6 bond_mac f1 12 2 (inl (omega (arith, mac6))) (
                                write_read 12 2 ether_type_arp buf refl
                                  (omega (arith, long))))))))))))),
        keep 38 ip f11 20 2 (inr (omega (arith, ip4))) (
            keep 28 bond_ip f10 20 2 (inr (omega (arith, bond4))) (
              keep 32 (replicate 6 0) f9 20 2 (inr (omega (arith))) (
                keep 22 bond_mac f8 20 2 (inr (omega (arith, mac6)))
                  (write_read 20 2 arp_op_request f7 refl (omega (arith, n7)))))),
        write_read 38 4 ip f11 ip4 (omega (arith, n11)),
      )

  -- The request is recognised by the host with that address, whatever stood in the buffer: the host
  -- counts one ARP packet and rewrites the frame into the reply in its buffer. DPDK is called once to send
  -- it, and is given the address of the Rust handle of the buffer, not that of the buffer.
  pub arp_request_answered :
      (host_mac : List ℕ) (n : Counters)
      → length buf ≡ 42
      → handle_frame ip host_mac n (arp_request bond_ip bond_mac ip buf) ≡ (
        record { total = n.total; arp = n.arp + 1; ipv4 = n.ipv4 },
        some (handle_of (answer_arp ip host_mac 14 (arp_request bond_ip bond_mac ip buf))),
      )
  unfolding handle_frame strip_vlan_hdr handle_next equal tx_burst_ref
  arp_request_answered host_mac n long =
      let (type, op, tip) = arp_request_fields long in ground (arith, type, op, tip, equal_same ip)
