-- ===== src/Cmdline/Tokens.antt =====
-- The tokens of rte/src/cmdline.rs, and the values that C code parses into.
use rust_dpdk.Prelude.{ℕ, List, Option, none, some, Bool, ◌==◌, if◌then◌else◌, take}
use rust_dpdk.Outcome.{Outcome, panicked, done, halted}
use rust_dpdk.Utils.Strings.{c_text}

-- `Token`: the header's address, and for a text token the address of its allocated text, where null is
-- `none`.
pub data Token : Type 0 where
  raw num_token ip_addr_token ether_addr_token port_list_token : ℕ → Token
  str_token : ℕ → Option ℕ → Token

unfoldable pub as_raw : Token → ℕ
as_raw (raw hdr) = hdr
as_raw (num_token hdr) = hdr
as_raw (ip_addr_token hdr) = hdr
as_raw (ether_addr_token hdr) = hdr
as_raw (port_list_token hdr) = hdr
as_raw (str_token hdr s) = hdr

-- `FixedStr::to_str`, where `utf8` says whether bytes are UTF-8; `none` is a read past the array.
unfoldable pub to_str : (List ℕ → Bool) → List ℕ → Option (Outcome (List ℕ))
unfolding c_text
to_str utf8 buf = elim (c_text buf) [
  | none ↦ none
  | some s ↦ some (if utf8 s then done s else halted panicked)
]

-- `cmdline_ipaddr_t`: the family, and the 16 bytes of the union of the addresses.
pub record IpNetAddr : Type 0 where
  pub family : ℕ
  pub addr : List ℕ

pub data IpAddr : Type 0 where
  v4 v6 : List ℕ → IpAddr

unfoldable pub as_ipv4 : IpNetAddr → List ℕ
as_ipv4 a = take 4 a.addr

unfoldable pub as_ipv6 : IpNetAddr → List ℕ
as_ipv6 a = take 16 a.addr

-- `AF_INET` is 2.
unfoldable pub to_ipaddr : IpNetAddr → IpAddr
unfolding as_ipv4 as_ipv6
to_ipaddr a = if a.family == 2 then v4 (as_ipv4 a) else v6 (as_ipv6 a)
