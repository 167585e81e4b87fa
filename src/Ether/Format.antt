-- ===== src/Ether/Format.antt =====
-- `Display` and `FromStr` of rte/src/ether.rs.
use rust_dpdk.Prelude.{
  ℕ, ◌/◌, ◌%◌, ◌<◌, List, [], ◌∷◌, ◌++◌, none, some, ◌≡◌, ◌≢◌, ◌↔◌, refl, sym, ap, ◌∙◌, append-nil,
  arith, All,
}
use rust_dpdk.Text.Radix.{from_str_radix, from_str_radix_two_hex, to_digit, u8_max}
use rust_dpdk.Text.Split.{split_from, split_from-append, split_from_sep}
use rust_dpdk.Ether.{
  EtherAddr, IsOctets, parsed, hex_digit, hex2, to_string, octets, parse_parts, from_bytes,
  from_str,
}

to_digit-hex_digit : (d : ℕ) → d < 16 → to_digit 16 (hex_digit d) ≡ some d
unfolding to_digit hex_digit
to_digit-hex_digit d h = ground arith

hex_digit-ne-colon : (d : ℕ) → hex_digit d ≢ b':'
unfolding hex_digit
hex_digit-ne-colon d = ground arith

from_str_radix-hex2 : (n : ℕ) → n < 256 → from_str_radix 16 u8_max (hex2 n) ≡ some n
unfolding hex2
from_str_radix-hex2 n h =
    from_str_radix_two_hex _ _ (n / 16) (n % 16) (to_digit-hex_digit _ (omega arith))
      (to_digit-hex_digit _ (omega arith)) (omega arith) (omega arith)
    ∙ ap some (omega arith)

hex2-lacks_colon : (n : ℕ) → All (λ c. c ≢ b':') (hex2 n)
unfolding hex2
hex2-lacks_colon n = (hex_digit-ne-colon (n / 16), (hex_digit-ne-colon (n % 16), tt))

parse_parts-byte :
    (n : ℕ) (parts : List (List ℕ)) → n < 256 → parse_parts (hex2 n ∷ parts) ≡ n ∷ parse_parts parts
unfolding parse_parts
parse_parts-byte n parts h = rw (from_str_radix-hex2 n h, parse_parts)

-- An octet and its separator are read as one byte.
read_octet :
    (n : ℕ) (s : List ℕ)
    → n < 256
    → parse_parts (split_from b':' [] (hex2 n ++ b':' ∷ s)) ≡ n ∷ parse_parts (split_from b':' [] s)
read_octet n s h =
    rw (split_from-append b':' [] (hex2 n) (b':' ∷ s) (hex2-lacks_colon n), split_from_sep)
      (parse_parts-byte n _ h)

read_last : (n : ℕ) → n < 256 → parse_parts (split_from b':' [] (hex2 n)) ≡ n ∷ []
read_last n h =
    ap (λ s. parse_parts (split_from b':' [] s)) (sym (append-nil (hex2 n)))
    ∙ rw (split_from-append b':' [] (hex2 n) [] (hex2-lacks_colon n))
        (unfold split_from in parse_parts-byte n [] h ∙ (unfold parse_parts in refl))

-- Every address is read back from the text that `Display` writes.
pub from_str-to_string : (a : EtherAddr) → IsOctets a → from_str (to_string a) ≡ parsed a
unfolding from_str to_string
from_str-to_string a o = rw (
  read_octet a.b0 _ o.h0,
  read_octet a.b1 _ o.h1,
  read_octet a.b2 _ o.h2,
  read_octet a.b3 _ o.h3,
  read_octet a.b4 _ o.h4,
  read_last a.b5 o.h5,
)

-- A slice is an address exactly when it has six bytes, and then the address has those octets.
pub from_bytes_iff : (b : List ℕ) (a : EtherAddr) → (from_bytes b ≡ parsed a) ↔ (b ≡ octets a)
unfolding from_bytes octets
from_bytes_iff b a = grind arith

-- A part that is no byte in hexadecimal is passed over: the text is read as if it and its separator
-- were not there.
pub from_str_skips :
    (p s : List ℕ)
    → All (λ c. c ≢ b':') p
    → from_str_radix 16 u8_max p ≡ none
    → from_str (p ++ b':' ∷ s) ≡ from_str s
unfolding from_str parse_parts
from_str_skips p s h bad =
    rw (split_from-append b':' [] p (b':' ∷ s) h, split_from_sep) (rw (bad, parse_parts))
