-- ===== src/Text.antt =====
-- What the crate uses of Rust's standard library on text. A `str` is the list of its bytes.
pub mod Radix
pub mod Split
pub mod Decimal
pub mod Join
pub mod Equal
use Prim.Native.Char.{code}
use Prim.Native.String.{String}
use rust_dpdk.Prelude.{ℕ, List, [], ◌∷◌}

-- The bytes of an ASCII literal.
abbrev pub codes : String → List ℕ
codes String.[] = []
codes (String.◌∷◌ c s) = code c ∷ codes s
