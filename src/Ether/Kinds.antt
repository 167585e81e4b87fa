-- ===== src/Ether/Kinds.antt =====
-- The kinds of addresses of rte/src/ether.rs, and what `random` makes.
use Prim.Native.Nat.{bit_and, bit_or}
use rust_dpdk.Prelude.{
  ℕ, zero, suc, ◌+◌, ◌*◌, ◌%◌, ◌/◌, ◌<◌, Bool, true, false, ◌&&◌, ◌≡◌, refl, arith, ◌==◌, not,
  if◌then◌else◌, ◌≤◌,
}
use rust_dpdk.Ether.{
  EtherAddr, IsOctets, random, is_zero, is_unicast, is_multicast, is_broadcast, is_universal,
  is_local_admin, is_valid, group_addr, local_admin_addr,
}

-- A test that `n` numbers from `lo` up all pass, tried on each of them.
passes : (ℕ → Bool) → ℕ → ℕ → Bool
passes p lo zero = true
passes p lo (suc n) = if p lo then passes p (lo + 1) n else false

passes-each : (p : ℕ → Bool) (lo n x : ℕ) → lo ≤ x → x < lo + n → passes p lo n ≡ true → p x ≡ true
unfolding passes
passes-each p lo zero x from to h = absurd (omega (arith, from, to))
passes-each p lo (suc n) x from to h = ground (arith, from, to, h, passes-each p (lo + 1) n x)

-- The two flag bits of an octet, and what `random` does to it.
octet_bits : ℕ → Bool
octet_bits x =
    bit_and x group_addr == x % 2
    && bit_and x local_admin_addr == x / 2 % 2 * 2
    && bit_or (bit_and x 0xfe) local_admin_addr == x / 4 * 4 + 2

bits_of_octets : passes octet_bits 0 256 ≡ true
unfolding passes octet_bits
bits_of_octets = refl

module _ (x : ℕ) (h : x < 256) where
  flags :
      (bit_and x group_addr ≡ x % 2)
      × (bit_and x local_admin_addr ≡ x / 2 % 2 * 2)
      × (bit_or (bit_and x 0xfe) local_admin_addr ≡ x / 4 * 4 + 2)
  unfolding octet_bits
  flags = ground (arith, passes-each octet_bits 0 256 x (omega arith) h bits_of_octets)

-- Every address is unicast or multicast and not both, by the lowest bit of its first octet, and
-- universal or locally administered and not both, by the bit above.
pub kinds_by_bits :
    (a : EtherAddr)
    → IsOctets a
    → (is_unicast a ≡ (a.b0 % 2 == 0))
      × (is_multicast a ≡ not (is_unicast a))
      × (is_universal a ≡ (a.b0 / 2 % 2 == 0))
      × (is_local_admin a ≡ not (is_universal a))
unfolding is_unicast is_multicast is_universal is_local_admin
kinds_by_bits a o = ground (arith, flags a.b0 o.h0)

-- A valid address is neither the zero address nor the broadcast address.
pub is_valid-excludes :
    (a : EtherAddr)
    → is_valid a ≡ true
    → (is_multicast a ≡ false) × (is_zero a ≡ false) × (is_broadcast a ≡ false)
unfolding is_valid is_multicast is_broadcast
is_valid-excludes a h = ground arith

-- Whatever octets the generator gives, a random address is a valid unicast address, locally
-- administered, and not the broadcast address; its last five octets are the generator's, and so are
-- the upper six bits of the first.
pub random-is_valid :
    (a : EtherAddr)
    → IsOctets a
    → (is_valid (random a) ≡ true)
      × (is_multicast (random a) ≡ false)
      × (is_local_admin (random a) ≡ true)
      × (is_broadcast (random a) ≡ false)
      × ((random a).b0 / 4 ≡ a.b0 / 4)
      × (record (random a) { b0 = 0 } ≡ record a { b0 = 0 })
unfolding is_valid is_multicast is_local_admin is_broadcast random
random-is_valid a o =
    ground (arith, flags a.b0 o.h0, flags (a.b0 / 4 * 4 + 2) (omega (arith, o.h0)))
