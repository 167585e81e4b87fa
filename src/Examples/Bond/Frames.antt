-- ===== src/Examples/Bond/Frames.antt =====
-- The frames of rte/examples/bond/main.rs: `strip_vlan_hdr`, and the answer to one frame in
-- `lcore_main`. A frame is the list of its bytes; a multi-byte field is in network order, as the
-- source compares and writes it.
use rust_dpdk.Prelude.{
  ℕ, zero, suc, ◌+◌, List, [], ◌∷◌, Option, none, some, ◌&&◌, if◌then◌else◌, length, take, drop,
}
use rust_dpdk.Text.Equal.{equal}

-- `sizeof(EtherHdr)`.
abbrev pub ether_hdr_len : ℕ
ether_hdr_len = 14

abbrev pub ether_type_vlan : List ℕ
ether_type_vlan = 0x81 ∷ 0x00 ∷ []

abbrev pub ether_type_arp : List ℕ
ether_type_arp = 0x08 ∷ 0x06 ∷ []

abbrev pub ether_type_ipv4 : List ℕ
ether_type_ipv4 = 0x08 ∷ 0x00 ∷ []

abbrev pub arp_op_request : List ℕ
arp_op_request = 0 ∷ 1 ∷ []

abbrev pub arp_op_reply : List ℕ
arp_op_reply = 0 ∷ 2 ∷ []

-- The field of `len` bytes at `off`.
unfoldable pub field : ℕ → ℕ → List ℕ → List ℕ
field off len frame = take len (drop off frame)

-- A write of a field.
unfoldable pub put : ℕ → List ℕ → List ℕ → List ℕ
put zero [] frame = frame
put zero (v ∷ vs) [] = []
put zero (v ∷ vs) (b ∷ frame) = v ∷ put zero vs frame
put (suc off) vs [] = []
put (suc off) vs (b ∷ frame) = b ∷ put off vs frame

-- The loop over VLAN headers at `off`, of four bytes each: the offset behind the last and the protocol
-- in it. A header that is cut off would be read out of bounds, and is `none`.
unfoldable pub skip_vlan_hdrs : ℕ → List ℕ → Option (ℕ × List ℕ)
unfolding equal
skip_vlan_hdrs off (t0 ∷ t1 ∷ p0 ∷ p1 ∷ rest) =
    let next = skip_vlan_hdrs (off + 4) rest in
    if equal (p0 ∷ p1 ∷ []) ether_type_vlan then next else some (off + 4, p0 ∷ p1 ∷ [])
skip_vlan_hdrs off _ = none

-- `strip_vlan_hdr`: the offset of the next header, and its protocol. The source reads the 14 bytes of the
-- Ethernet header unchecked; the model is for frames that have them.
unfoldable pub strip_vlan_hdr : List ℕ → Option (ℕ × List ℕ)
unfolding skip_vlan_hdrs field equal
strip_vlan_hdr frame =
    if equal (field 12 2 frame) ether_type_vlan
    then skip_vlan_hdrs ether_hdr_len (drop ether_hdr_len frame)
    else some (ether_hdr_len, field 12 2 frame)

-- The branch of an ARP packet whose header is at `hdr`: `arp_opcode` is at 6, `arp_sha` at 8,
-- `arp_sip` at 14, `arp_tha` at 18 and `arp_tip` at 24.
unfoldable pub answer_arp : List ℕ → List ℕ → ℕ → List ℕ → List ℕ
unfolding field put
answer_arp bond_ip bond_mac hdr frame =
    let frame = put (hdr + 6) arp_op_reply frame in
    let frame = put 0 (field 6 6 frame) frame in
    let frame = put 6 bond_mac frame in
    let frame = put (hdr + 18) (field (hdr + 8) 6 frame) frame in
    let frame = put (hdr + 8) bond_mac frame in
    let frame = put (hdr + 24) (field (hdr + 14) 4 frame) frame in put (hdr + 14) bond_ip frame

-- The branch of an IPv4 packet: `src_addr` is at 12 and `dst_addr` at 16.
unfoldable pub answer_ipv4 : List ℕ → List ℕ → ℕ → List ℕ → List ℕ
unfolding field put
answer_ipv4 bond_ip bond_mac hdr frame =
    let frame = put 0 (field 6 6 frame) frame in
    let frame = put 6 bond_mac frame in
    let frame = put (hdr + 16) (field (hdr + 12) 4 frame) frame in put (hdr + 12) bond_ip frame

-- `port_packets[1]` and `port_packets[2]`; the total is counted by the burst.
pub record Counters : Type 0 where
  pub total : ℕ
  pub arp : ℕ
  pub ipv4 : ℕ

-- What an element of the array that DPDK is given for `tx_burst` points to: a buffer, with its frame, or
-- the Rust handle of a buffer, which DPDK takes for a buffer.
pub data Sent : Type 0 where
  buffer_of handle_of : List ℕ → Sent

-- `tx_burst(0, &mut [m])`, where `m` is a `&MBuf`: the element is the reference, and so the address of
-- the handle.
unfoldable pub tx_burst_ref : List ℕ → Sent
tx_burst_ref frame = handle_of frame

-- What one frame leads to: the counters, and what DPDK is given to send, if it is called, with the frame
-- as it has been rewritten in its buffer.
unfoldable pub handle_next :
    List ℕ → List ℕ → Counters → List ℕ → ℕ × List ℕ → Counters × Option Sent
unfolding field equal answer_arp answer_ipv4 tx_burst_ref
handle_next bond_ip bond_mac n frame (hdr, proto) =
    if equal proto ether_type_arp
    then (
      record { total = n.total; arp = n.arp + 1; ipv4 = n.ipv4 },
      (if equal (field (hdr + 24) 4 frame) bond_ip && equal (field (hdr + 6) 2 frame) arp_op_request
          then some (tx_burst_ref (answer_arp bond_ip bond_mac hdr frame))
          else none),
    )
    else if equal proto ether_type_ipv4
    then (
      record { total = n.total; arp = n.arp; ipv4 = n.ipv4 + 1 },
      (if equal (field (hdr + 16) 4 frame) bond_ip
          then some (tx_burst_ref (answer_ipv4 bond_ip bond_mac hdr frame))
          else none),
    )
    else (n, none)

unfoldable pub handle_frame : List ℕ → List ℕ → Counters → List ℕ → Counters × Option Sent
unfolding strip_vlan_hdr handle_next
handle_frame bond_ip bond_mac n frame = elim (strip_vlan_hdr frame) [
  | none ↦ (n, none)
  | some next ↦ handle_next bond_ip bond_mac n frame next
]

-- What DPDK is given to send, one `tx_burst` for each, with the counters behind them.
unfoldable pub handle_frames : List ℕ → List ℕ → Counters → List (List ℕ) → Counters × List Sent
unfolding handle_frame
handle_frames bond_ip bond_mac n [] = (n, [])
handle_frames bond_ip bond_mac n (f ∷ fs) =
    let (n1, answer) = handle_frame bond_ip bond_mac n f in
    let (n2, answers) = handle_frames bond_ip bond_mac n1 fs in
    (n2, elim answer [ none ↦ answers | some a ↦ a ∷ answers ])

-- One round of the loop with the frames of a burst; an empty burst waits 50 microseconds.
unfoldable pub lcore_round : List ℕ → List ℕ → Counters → List (List ℕ) → Counters × List Sent
unfolding handle_frames
lcore_round bond_ip bond_mac n frames =
    handle_frames bond_ip bond_mac
      (record { total = n.total + length frames; arp = n.arp; ipv4 = n.ipv4 }) frames
