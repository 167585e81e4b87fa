-- ===== src/Cmdline/Macros.antt =====
-- The macros of rte/src/cmdline.rs that make tokens, and the lines that the instructions with such tokens
-- take. A field of the result stands for its offset.
use Prim.Native.Nat.{bit_or}
use rust_dpdk.Prelude.{ℕ, ◌%◌, List, Option, none, some}

-- `cmdline_numtype`.
pub data NumType : Type 0 where
  uint8 uint16 uint32 uint64 int8 int16 int32 int64 : NumType

-- What a token holds besides its operations and its offset.
pub data TokenData : Type 0 where
  string_data : Option (List ℕ) → TokenData
  num_data : NumType → TokenData
  ip_addr_data : ℕ → TokenData
  ether_addr_data port_list_data raw_data : TokenData

pub record TokenInit : Type 0 where
  pub field : List ℕ
  pub token_data : TokenData

-- `TOKEN_STRING_INITIALIZER!` with a text and without.
unfoldable pub token_string : List ℕ → List ℕ → TokenInit
token_string f s = record { field = f; token_data = string_data (some s) }

unfoldable pub token_any_string : List ℕ → TokenInit
token_any_string f = record { field = f; token_data = string_data none }

unfoldable pub token_num : List ℕ → NumType → TokenInit
token_num f t = record { field = f; token_data = num_data t }

-- `CMDLINE_IPADDR_V4`, `CMDLINE_IPADDR_V6` and `CMDLINE_IPADDR_NETWORK`.
abbrev pub ipaddr_v4 : ℕ
ipaddr_v4 = 1

abbrev pub ipaddr_v6 : ℕ
ipaddr_v6 = 2

abbrev pub ipaddr_network : ℕ
ipaddr_network = 4

unfoldable pub token_ipaddr_flags : List ℕ → ℕ → TokenInit
token_ipaddr_flags f flags = record { field = f; token_data = ip_addr_data (flags % 256) }

unfoldable pub token_ipaddr : List ℕ → TokenInit
unfolding token_ipaddr_flags
token_ipaddr f = token_ipaddr_flags f (bit_or ipaddr_v4 ipaddr_v6)

unfoldable pub token_ipv4 : List ℕ → TokenInit
unfolding token_ipaddr_flags
token_ipv4 f = token_ipaddr_flags f ipaddr_v4

unfoldable pub token_ipv6 : List ℕ → TokenInit
unfolding token_ipaddr_flags
token_ipv6 f = token_ipaddr_flags f ipaddr_v6

unfoldable pub token_ipnet : List ℕ → TokenInit
unfolding token_ipaddr_flags
token_ipnet f = token_ipaddr_flags f (bit_or (bit_or ipaddr_v4 ipaddr_v6) ipaddr_network)

unfoldable pub token_ipv4net : List ℕ → TokenInit
unfolding token_ipaddr_flags
token_ipv4net f = token_ipaddr_flags f (bit_or ipaddr_v4 ipaddr_network)

unfoldable pub token_ipv6net : List ℕ → TokenInit
unfolding token_ipaddr_flags
token_ipv6net f = token_ipaddr_flags f (bit_or ipaddr_v6 ipaddr_network)

unfoldable pub token_etheraddr : List ℕ → TokenInit
token_etheraddr f = record { field = f; token_data = ether_addr_data }

unfoldable pub token_portlist : List ℕ → TokenInit
token_portlist f = record { field = f; token_data = port_list_data }
