-- ===== src/Examples/Bond/Replies.antt =====
-- The answers of rte/examples/bond/main.rs, field by field.
use rust_dpdk.Prelude.{
  ℕ, zero, suc, ◌+◌, ◌≤◌, ◌≡◌, ◌⊎◌, inl, inr, List, [], ◌∷◌, length, arith, refl, ◌∙◌, ap, subst,
}
use rust_dpdk.Examples.Bond.Frames.{field, put, answer_arp, arp_op_reply}

-- A write keeps the length.
pub length-put : (off : ℕ) (vs frame : List ℕ) → length (put off vs frame) ≡ length frame
unfolding put
length-put zero [] frame = refl
length-put zero (v ∷ vs) [] = refl
length-put zero (v ∷ vs) (b ∷ frame) = omega (arith, length-put zero vs frame)
length-put (suc off) vs [] = refl
length-put (suc off) vs (b ∷ frame) = omega (arith, length-put off vs frame)

-- What is written is read back.
field-put_same :
    (off : ℕ) (vs frame : List ℕ)
    → off + length vs ≤ length frame
    → field off (length vs) (put off vs frame) ≡ vs
unfolding put field
field-put_same zero [] frame h = refl
field-put_same zero (v ∷ vs) [] h = absurd (omega arith)
field-put_same zero (v ∷ vs) (b ∷ frame) h =
    ap (λ r. v ∷ r) (field-put_same zero vs frame (omega arith))
field-put_same (suc off) vs [] h = absurd (omega arith)
field-put_same (suc off) vs (b ∷ frame) h = field-put_same off vs frame (omega arith)

field-put_behind :
    (off : ℕ) (vs frame : List ℕ) (off2 len : ℕ)
    → off + length vs ≤ off2
    → field off2 len (put off vs frame) ≡ field off2 len frame
unfolding put field
field-put_behind zero [] frame off2 len h = refl
field-put_behind zero (v ∷ vs) [] off2 len h = refl
field-put_behind zero (v ∷ vs) (b ∷ frame) zero len h = absurd (omega arith)
field-put_behind zero (v ∷ vs) (b ∷ frame) (suc off2) len h =
    field-put_behind zero vs frame off2 len (omega arith)
field-put_behind (suc off) vs [] off2 len h = refl
field-put_behind (suc off) vs (b ∷ frame) zero len h = absurd (omega arith)
field-put_behind (suc off) vs (b ∷ frame) (suc off2) len h =
    field-put_behind off vs frame off2 len (omega arith)

field-put_before :
    (off : ℕ) (vs frame : List ℕ) (off2 len : ℕ)
    → off2 + len ≤ off
    → field off2 len (put off vs frame) ≡ field off2 len frame
unfolding put field
field-put_before zero vs frame zero zero h = refl
field-put_before zero vs frame zero (suc len) h = absurd (omega arith)
field-put_before zero vs frame (suc off2) len h = absurd (omega arith)
field-put_before (suc off) vs [] off2 len h = refl
field-put_before (suc off) vs (b ∷ frame) zero zero h = refl
field-put_before (suc off) vs (b ∷ frame) zero (suc len) h =
    ap (λ r. b ∷ r) (field-put_before off vs frame zero len (omega arith))
field-put_before (suc off) vs (b ∷ frame) (suc off2) len h =
    field-put_before off vs frame off2 len (omega arith)

-- A write elsewhere leaves a field alone.
field-put_other :
    (off : ℕ) (vs frame : List ℕ) (off2 len : ℕ)
    → (off + length vs ≤ off2) ⊎ (off2 + len ≤ off)
    → field off2 len (put off vs frame) ≡ field off2 len frame
field-put_other off vs frame off2 len (inl h) = field-put_behind off vs frame off2 len h
field-put_other off vs frame off2 len (inr h) = field-put_before off vs frame off2 len h

length-field :
    (off len : ℕ) (frame : List ℕ) → off + len ≤ length frame → length (field off len frame) ≡ len
unfolding field
length-field zero zero frame h = refl
length-field zero (suc len) [] h = absurd (omega arith)
length-field zero (suc len) (b ∷ frame) h = omega (arith, length-field zero len frame (omega arith))
length-field (suc off) zero [] h = refl
length-field (suc off) (suc len) [] h = absurd (omega arith)
length-field (suc off) len (b ∷ frame) h = length-field off len frame (omega arith)

-- A write keeps a field, and what was known of it.
pub keep :
    {v : List ℕ} (off : ℕ) (vs frame : List ℕ) (off2 len : ℕ)
    → (off + length vs ≤ off2) ⊎ (off2 + len ≤ off)
    → field off2 len frame ≡ v
    → field off2 len (put off vs frame) ≡ v
keep off vs frame off2 len apart e = field-put_other off vs frame off2 len apart ∙ e

-- What is written is read back, at a length that is known otherwise.
pub write_read :
    (off len : ℕ) (vs frame : List ℕ)
    → length vs ≡ len
    → off + len ≤ length frame
    → field off len (put off vs frame) ≡ vs
write_read off len vs frame e h =
    subst (λ (n : ℕ). field off n (put off vs frame) ≡ vs) e
      (field-put_same off vs frame (omega (arith, e, h)))

module _ (bond_ip bond_mac : List ℕ) (hdr : ℕ) (frame : List ℕ) (ip4 : length bond_ip ≡ 4)
    (mac6 : length bond_mac ≡ 6) (behind : 14 ≤ hdr) where
  -- The answer to an ARP request whose header lies behind the Ethernet header and within the frame: it
  -- goes from the bond to the sender, is a reply, and has the bond's addresses as the sender's and the
  -- sender's as the target's. It is as long as the request.
  pub answer_arp_fields :
      hdr + 28 ≤ length frame
      → (field 0 6 (answer_arp bond_ip bond_mac hdr frame) ≡ field 6 6 frame)
        × (field 6 6 (answer_arp bond_ip bond_mac hdr frame) ≡ bond_mac)
        × (field (hdr + 6) 2 (answer_arp bond_ip bond_mac hdr frame) ≡ arp_op_reply)
        × (field (hdr + 8) 6 (answer_arp bond_ip bond_mac hdr frame) ≡ bond_mac)
        × (field (hdr + 14) 4 (answer_arp bond_ip bond_mac hdr frame) ≡ bond_ip)
        × (field (hdr + 18) 6 (answer_arp bond_ip bond_mac hdr frame) ≡ field (hdr + 8) 6 frame)
        × (field (hdr + 24) 4 (answer_arp bond_ip bond_mac hdr frame) ≡ field (hdr + 14) 4 frame)
        × (length (answer_arp bond_ip bond_mac hdr frame) ≡ length frame)
  unfolding answer_arp
  answer_arp_fields room =
      let f1 = put (hdr + 6) arp_op_reply frame in
      let n1 : length f1 ≡ length frame = length-put (hdr + 6) arp_op_reply frame in
      let v2 = field 6 6 f1 in
      let l2 : length v2 ≡ 6 = length-field 6 6 f1 (omega (arith, n1)) in
      let f2 = put 0 v2 f1 in
      let n2 : length f2 ≡ length frame = length-put 0 v2 f1 ∙ n1 in
      let f3 = put 6 bond_mac f2 in
      let n3 : length f3 ≡ length frame = length-put 6 bond_mac f2 ∙ n2 in
      let v4 = field (hdr + 8) 6 f3 in
      let l4 : length v4 ≡ 6 = length-field (hdr + 8) 6 f3 (omega (arith, n3)) in
      let f4 = put (hdr + 18) v4 f3 in
      let n4 : length f4 ≡ length frame = length-put (hdr + 18) v4 f3 ∙ n3 in
      let f5 = put (hdr + 8) bond_mac f4 in
      let n5 : length f5 ≡ length frame = length-put (hdr + 8) bond_mac f4 ∙ n4 in
      let v6 = field (hdr + 14) 4 f5 in
      let l6 : length v6 ≡ 4 = length-field (hdr + 14) 4 f5 (omega (arith, n5)) in
      let f6 = put (hdr + 24) v6 f5 in
      let n6 : length f6 ≡ length frame = length-put (hdr + 24) v6 f5 ∙ n5 in
      (
        keep (hdr + 14) bond_ip f6 0 6 (inr (omega (arith, behind, ip4))) (
            keep (hdr + 24) v6 f5 0 6 (inr (omega (arith, behind, l6))) (
              keep (hdr + 8) bond_mac f4 0 6 (inr (omega (arith, behind, mac6))) (
                keep (hdr + 18) v4 f3 0 6 (inr (omega (arith, behind, l4))) (
                  keep 6 bond_mac f2 0 6 (inr (omega (arith, behind, mac6))) (
                    write_read 0 6 v2 f1 l2 (omega (arith, room, n1, behind))
                    ∙ keep (hdr + 6) arp_op_reply frame 6 6 (inr (omega (arith, behind)))
                        (refl)))))),
        keep (hdr + 14) bond_ip f6 6 6 (inr (omega (arith, behind, ip4))) (
            keep (hdr + 24) v6 f5 6 6 (inr (omega (arith, behind, l6))) (
              keep (hdr + 8) bond_mac f4 6 6 (inr (omega (arith, behind, mac6))) (
                keep (hdr + 18) v4 f3 6 6 (inr (omega (arith, behind, l4)))
                  (write_read 6 6 bond_mac f2 mac6 (omega (arith, room, n2, behind)))))),
        keep (hdr + 14) bond_ip f6 (hdr + 6) 2 (inr (omega (arith, behind, ip4))) (
            keep (hdr + 24) v6 f5 (hdr + 6) 2 (inr (omega (arith, behind, l6))) (
              keep (hdr + 8) bond_mac f4 (hdr + 6) 2 (inr (omega (arith, behind, mac6))) (
                keep (hdr + 18) v4 f3 (hdr + 6) 2 (inr (omega (arith, behind, l4))) (
                  keep 6 bond_mac f2 (hdr + 6) 2 (inl (omega (arith, behind, mac6))) (
                    keep 0 v2 f1 (hdr + 6) 2 (inl (omega (arith, behind, l2))) (
                      write_read (hdr + 6) 2 arp_op_reply frame refl
                        (omega (arith, room, behind)))))))),
        keep (hdr + 14) bond_ip f6 (hdr + 8) 6 (inr (omega (arith, behind, ip4))) (
            keep (hdr + 24) v6 f5 (hdr + 8) 6 (inr (omega (arith, behind, l6)))
              (write_read (hdr + 8) 6 bond_mac f4 mac6 (omega (arith, room, n4, behind)))),
        write_read (hdr + 14) 4 bond_ip f6 ip4 (omega (arith, room, n6, behind)),
        keep (hdr + 14) bond_ip f6 (hdr + 18) 6 (inl (omega (arith, behind, ip4))) (
            keep (hdr + 24) v6 f5 (hdr + 18) 6 (inr (omega (arith, behind, l6))) (
              keep (hdr + 8) bond_mac f4 (hdr + 18) 6 (inl (omega (arith, behind, mac6))) (
                write_read (hdr + 18) 6 v4 f3 l4 (omega (arith, room, n3, behind))
                ∙ keep 6 bond_mac f2 (hdr + 8) 6 (inl (omega (arith, behind, mac6))) (
                    keep 0 v2 f1 (hdr + 8) 6 (inl (omega (arith, behind, l2))) (
                      keep (hdr + 6) arp_op_reply frame (hdr + 8) 6 (inl (omega (arith, behind)))
                        (refl)))))),
        keep (hdr + 14) bond_ip f6 (hdr + 24) 4 (inl (omega (arith, behind, ip4))) (
            write_read (hdr + 24) 4 v6 f5 l6 (omega (arith, room, n5, behind))
            ∙ keep (hdr + 8) bond_mac f4 (hdr + 14) 4 (inl (omega (arith, behind, mac6))) (
                keep (hdr + 18) v4 f3 (hdr + 14) 4 (inr (omega (arith, behind, l4))) (
                  keep 6 bond_mac f2 (hdr + 14) 4 (inl (omega (arith, behind, mac6))) (
                    keep 0 v2 f1 (hdr + 14) 4 (inl (omega (arith, behind, l2))) (
                      keep (hdr + 6) arp_op_reply frame (hdr + 14) 4 (inl (omega (arith, behind)))
                        (refl)))))),
        length-put (hdr + 14) bond_ip f6 ∙ n6,
      )
