-- ===== src/Examples/Bond/Tagged.antt =====
-- `strip_vlan_hdr` of rte/examples/bond/main.rs on a tagged frame.
use rust_dpdk.Prelude.{
  ℕ, zero, suc, ◌+◌, ◌*◌, ◌≡◌, List, [], ◌∷◌, ◌++◌, some, false, length, drop, arith, ap,
}
use rust_dpdk.Text.Equal.{equal, equal_same}
use rust_dpdk.Examples.Bond.Frames.{field, skip_vlan_hdrs, strip_vlan_hdr, ether_type_vlan}

-- What stands behind the addresses: a type and a tag for each pair, then the protocol.
unfoldable pub tagged : List (ℕ × ℕ) → List ℕ → List ℕ
tagged [] rest = rest
tagged ((t0, t1) ∷ tags) rest = ether_type_vlan ++ t0 ∷ t1 ∷ tagged tags rest

skip_vlan_hdrs-tagged :
    (off t0 t1 p0 p1 : ℕ) (tags : List (ℕ × ℕ)) (payload : List ℕ)
    → equal (p0 ∷ p1 ∷ []) ether_type_vlan ≡ false
    → skip_vlan_hdrs off (t0 ∷ t1 ∷ tagged tags (p0 ∷ p1 ∷ payload))
      ≡ some (off + 4 * (length tags + 1), p0 ∷ p1 ∷ [])
unfolding skip_vlan_hdrs tagged
skip_vlan_hdrs-tagged off t0 t1 p0 p1 [] payload h = ground (arith, h)
skip_vlan_hdrs-tagged off t0 t1 p0 p1 ((u0, u1) ∷ tags) payload h =
    ground (arith, skip_vlan_hdrs-tagged (off + 4) u0 u1 p0 p1 tags payload h)

drop-append : (n k : ℕ) (xs ys : List ℕ) → length xs + k ≡ n → drop n (xs ++ ys) ≡ drop k ys
drop-append n k [] ys h = ap (λ i. drop i ys) (omega (arith, h))
drop-append zero k (x ∷ xs) ys h = absurd (omega (arith, h))
drop-append (suc n) k (x ∷ xs) ys h = drop-append n k xs ys (omega (arith, h))

-- However many VLAN tags a frame has between its addresses and its protocol, all are skipped: the next
-- header is behind the protocol, and the protocol is the frame's own.
pub strip_vlan_hdr-tagged :
    (addresses : List ℕ) (p0 p1 : ℕ) (tags : List (ℕ × ℕ)) (payload : List ℕ)
    → length addresses ≡ 12
    → equal (p0 ∷ p1 ∷ []) ether_type_vlan ≡ false
    → strip_vlan_hdr (addresses ++ tagged tags (p0 ∷ p1 ∷ payload))
      ≡ some (14 + 4 * length tags, p0 ∷ p1 ∷ [])
unfolding strip_vlan_hdr field tagged
strip_vlan_hdr-tagged addresses p0 p1 [] payload h other =
    ground (arith, drop-append 12 0 addresses (p0 ∷ p1 ∷ payload) (omega (arith, h)), other)
strip_vlan_hdr-tagged addresses p0 p1 ((t0, t1) ∷ tags) payload h other =
    let rest = tagged tags (p0 ∷ p1 ∷ payload) in
    let frame = ether_type_vlan ++ t0 ∷ t1 ∷ rest in
    ground (
      arith,
      drop-append 12 0 addresses frame (omega (arith, h)),
      drop-append 14 2 addresses frame (omega (arith, h)),
      equal_same ether_type_vlan,
      skip_vlan_hdrs-tagged 14 t0 t1 p0 p1 tags payload other,
    )
