-- ===== src/Ether.antt =====
-- rte/src/ether.rs: Ethernet addresses. `[u8; 6]` is a record of six numbers, each below 256.
pub mod Kinds
pub mod Format
pub mod Types
use Prim.Native.Nat.{bit_and, bit_or}
use rust_dpdk.Prelude.{
  ℕ, ◌+◌, ◌-◌, ◌/◌, ◌%◌, ◌<◌, List, [], ◌∷◌, ◌++◌, Option, none, some, Bool, true, false, ◌&&◌, not,
  ltb, ◌==◌, if◌then◌else◌, length,
}
use rust_dpdk.Text.Radix.{from_str_radix, u8_max}
use rust_dpdk.Text.Split.{split}

abbrev pub ether_addr_len : ℕ
ether_addr_len = 6

-- `RTE_ETHER_GROUP_ADDR` and `RTE_ETHER_LOCAL_ADMIN_ADDR` of rte-sys/src/raw.rs.
abbrev pub group_addr : ℕ
group_addr = 1

abbrev pub local_admin_addr : ℕ
local_admin_addr = 2

pub record EtherAddr : Type 0 where
  pub b0 : ℕ
  pub b1 : ℕ
  pub b2 : ℕ
  pub b3 : ℕ
  pub b4 : ℕ
  pub b5 : ℕ

-- Every octet is a `u8`.
pub record IsOctets (a : EtherAddr) : Type 0 where
  pub h0 : a.b0 < 256
  pub h1 : a.b1 < 256
  pub h2 : a.b2 < 256
  pub h3 : a.b3 < 256
  pub h4 : a.b4 < 256
  pub h5 : a.b5 < 256

-- `AddrParseError`.
pub data AddrParseError : Type 0 where
  addr_parse_error : AddrParseError

pub data ParseResult : Type 0 where
  parsed : EtherAddr → ParseResult
  failed : AddrParseError → ParseResult

unfoldable pub new : ℕ → ℕ → ℕ → ℕ → ℕ → ℕ → EtherAddr
new a b c d e f = record { b0 = a; b1 = b; b2 = c; b3 = d; b4 = e; b5 = f }

-- `octets` and `into_bytes`.
unfoldable pub octets : EtherAddr → List ℕ
octets a = a.b0 ∷ a.b1 ∷ a.b2 ∷ a.b3 ∷ a.b4 ∷ a.b5 ∷ []

-- The copy of a slice whose length has been checked.
copy_octets : List ℕ → EtherAddr
unfolding new
copy_octets (a ∷ b ∷ c ∷ d ∷ e ∷ f ∷ _) = new a b c d e f
copy_octets _ = new 0 0 0 0 0 0

unfoldable pub from_bytes : List ℕ → ParseResult
unfolding copy_octets
from_bytes b =
    if length b == ether_addr_len then parsed (copy_octets b) else failed addr_parse_error

unfoldable pub zeroed : EtherAddr
unfolding new
zeroed = new 0 0 0 0 0 0

unfoldable pub broadcast : EtherAddr
unfolding new
broadcast = new 0xff 0xff 0xff 0xff 0xff 0xff

-- `random`, on the octets that the generator fills in. `!RTE_ETHER_GROUP_ADDR as u8` is 0xfe.
unfoldable pub random : EtherAddr → EtherAddr
random filled = record filled { b0 = bit_or (bit_and filled.b0 0xfe) local_admin_addr }

-- `PartialEq` of the arrays.
unfoldable pub equal : EtherAddr → EtherAddr → Bool
equal a b =
    a.b0 == b.b0
    && (a.b1 == b.b1 && (a.b2 == b.b2 && (a.b3 == b.b3 && (a.b4 == b.b4 && a.b5 == b.b5))))

unfoldable pub is_zero : EtherAddr → Bool
unfolding equal zeroed
is_zero a = equal a zeroed

unfoldable pub is_unicast : EtherAddr → Bool
is_unicast a = bit_and a.b0 group_addr == 0

unfoldable pub is_multicast : EtherAddr → Bool
is_multicast a = not (bit_and a.b0 group_addr == 0)

unfoldable pub is_broadcast : EtherAddr → Bool
unfolding equal broadcast
is_broadcast a = equal a broadcast

unfoldable pub is_universal : EtherAddr → Bool
is_universal a = bit_and a.b0 local_admin_addr == 0

unfoldable pub is_local_admin : EtherAddr → Bool
is_local_admin a = not (bit_and a.b0 local_admin_addr == 0)

unfoldable pub is_valid : EtherAddr → Bool
unfolding is_unicast is_zero
is_valid a = is_unicast a && not (is_zero a)

-- A digit of `{:x}`.
hex_digit : ℕ → ℕ
hex_digit d = if ltb d 10 then b'0' + d else b'a' + (d - 10)

-- `{:02x}` of a `u8`.
pub hex2 : ℕ → List ℕ
unfolding hex_digit
hex2 n = hex_digit (n / 16) ∷ hex_digit (n % 16) ∷ []

-- `Display`: the six octets, `:` between them.
pub to_string : EtherAddr → List ℕ
to_string a =
    hex2 a.b0
    ++ b':'
      ∷ (hex2 a.b1
          ++ b':' ∷ (hex2 a.b2 ++ b':' ∷ (hex2 a.b3 ++ b':' ∷ (hex2 a.b4 ++ b':' ∷ hex2 a.b5))))

-- `filter_map(|part| u8::from_str_radix(part, 16).ok())`: what is no byte is left out.
pub parse_parts : List (List ℕ) → List ℕ
parse_parts [] = []
parse_parts (part ∷ parts) = elim (from_str_radix 16 u8_max part) [
  | none ↦ parse_parts parts
  | some b ↦ b ∷ parse_parts parts
]

pub from_str : List ℕ → ParseResult
unfolding split from_bytes
from_str s = from_bytes (parse_parts (split b':' s))
