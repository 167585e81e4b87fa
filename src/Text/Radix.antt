-- ===== src/Text/Radix.antt =====
-- `u8::from_str_radix`, `u32::from_str_radix` and `u32::from_str` of Rust's standard library.
use rust_dpdk.Prelude.{
  ℕ, ◌+◌, ◌-◌, ◌*◌, ◌≤◌, ◌<◌, List, [], ◌∷◌, Option, none, some, ◌&&◌, ◌||◌, ◌≡◌, arith, ltb, leb,
  ◌==◌, if◌then◌else◌, Option-cases, inl, inr,
}

infixl 5 ◌>>=◌
abbrev ◌>>=◌ {ℓ κ} : {A : Type ℓ} {B : Type κ} → Option A → (A → Option B) → Option B
none >>= f = none
some a >>= f = f a

-- `char::to_digit`.
unfoldable pub to_digit : ℕ → ℕ → Option ℕ
to_digit radix c =
    let d =
      (if leb b'0' c && leb c b'9'
        then c - b'0'
        else if leb b'a' c && leb c b'z'
        then c - b'a' + 10
        else if leb b'A' c && leb c b'Z'
        then c - b'A' + 10
        else radix) in
    if ltb d radix then some d else none

-- The loop over the digits, with its checked multiplication and addition; `max` is the type's `MAX`.
scan : ℕ → ℕ → List ℕ → ℕ → Option ℕ
scan radix max [] acc = some acc
scan radix max (c ∷ s) acc = do
  d ← to_digit radix c
  if ltb max (acc * radix) || ltb max (acc * radix + d)
      then none
      else scan radix max s (acc * radix + d)

-- An unsigned number: one leading `+` is allowed, and a sign alone is not.
unfoldable pub from_str_radix : ℕ → ℕ → List ℕ → Option ℕ
unfolding scan to_digit
from_str_radix radix max [] = none
from_str_radix radix max (c ∷ []) =
    if c == b'+' || c == b'-' then none else scan radix max (c ∷ []) 0
from_str_radix radix max (c ∷ e ∷ s) =
    if c == b'+' then scan radix max (e ∷ s) 0 else scan radix max (c ∷ e ∷ s) 0

abbrev pub u8_max : ℕ
u8_max = 255

abbrev pub u32_max : ℕ
u32_max = 4294967295

scan-le-max :
    (radix max : ℕ) (s : List ℕ) (acc : ℕ) {n : ℕ}
    → acc ≤ max
    → scan radix max s acc ≡ some n
    → n ≤ max
unfolding scan
scan-le-max radix max [] acc h e = ground arith
scan-le-max radix max (c ∷ s) acc {n} h e = elim (Option-cases (to_digit radix c)) [
  | inl bad ↦ absurd (ground (arith, bad))
  | inr (d, good) ↦ ground (arith, good, scan-le-max radix max s (acc * radix + d) {n = n})
]

-- A number that is read fits its type, whatever the text.
pub from_str_radix-le-max :
    (radix max : ℕ) (s : List ℕ) {n : ℕ} → from_str_radix radix max s ≡ some n → n ≤ max
unfolding from_str_radix
from_str_radix-le-max radix max [] e = ground arith
from_str_radix-le-max radix max (c ∷ []) {n} e =
    ground (arith, scan-le-max radix max (c ∷ []) 0 {n = n})
from_str_radix-le-max radix max (c ∷ f ∷ s) {n} e =
    ground
      (arith, scan-le-max radix max (f ∷ s) 0 {n = n}, scan-le-max radix max (c ∷ f ∷ s) 0 {n = n})

-- Two hexadecimal digits are read as the byte that they spell.
pub from_str_radix_two_hex :
    (c e m n : ℕ)
    → to_digit 16 c ≡ some m
    → to_digit 16 e ≡ some n
    → m < 16
    → n < 16
    → from_str_radix 16 u8_max (c ∷ e ∷ []) ≡ some (m * 16 + n)
unfolding from_str_radix
from_str_radix_two_hex c e m n p q hm hn = ground arith
