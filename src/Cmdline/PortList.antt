-- ===== src/Cmdline/PortList.antt =====
-- `PortList` of rte/src/cmdline.rs: the set of ports that a 32-bit map stands for, and its text.
use native.Mathlib.Nat.{pow-suc, one-le-pow, div-div-eq-div-mul}
use native.Mathlib.Numerals.{add-one}
use rust_dpdk.Prelude.{
  ℕ, zero, suc, ◌+◌, ◌*◌, ◌/◌, ◌%◌, ◌^◌, ◌<◌, ◌≡◌, ◌≢◌, ◌⊎◌, inl, inr, List, [], ◌∷◌, Bool, true,
  false, not, ◌==◌, arith, sym, subst, ap, ◌∙◌, bit_and, bit_and-pow, filter, range_from, map, All,
}
use rust_dpdk.Text.Decimal.{decimal, decimal-NoComma}
use rust_dpdk.Text.Join.{NoComma, join, split-join}
use rust_dpdk.Text.Split.{split}

-- `(1 << portid) as u32 & map != 0`, for ports below 32.
unfoldable pub has_port : ℕ → ℕ → Bool
has_port m p = not (bit_and (2 ^ p) m == 0)

unfoldable pub to_portlist : ℕ → List ℕ
unfolding has_port
to_portlist m = filter (has_port m) (range_from 0 32)

-- `Display for PortList`.
unfoldable pub to_string : ℕ → List ℕ
unfolding to_portlist join decimal
to_string m = join (map decimal (to_portlist m))

-- The map of a list of ports: the sum of their bits.
unfoldable pub mask_of : List ℕ → ℕ
mask_of [] = 0
mask_of (p ∷ ps) = 2 ^ p + mask_of ps

digit_cases : (n : ℕ) → (n % 2 ≡ 0) ⊎ (n % 2 ≡ 1)
digit_cases n = ground arith

has_port-zero : (m p : ℕ) → m / 2 ^ p % 2 ≡ 0 → has_port m p ≡ false
unfolding has_port
has_port-zero m p h = ground (arith, bit_and-pow p m, h)

has_port-one : (m p : ℕ) → m / 2 ^ p % 2 ≡ 1 → has_port m p ≡ true
unfolding has_port
has_port-one m p h = ground (arith, bit_and-pow p m, h, one-le-pow p 2)

-- One digit and the digits above it.
low_digit : (a q d : ℕ) → q ≡ d + 2 * (q / 2) → a * q ≡ a * d + 2 * (a * (q / 2))
low_digit a q d h = ap (λ (t : ℕ). a * t) h ∙ omega arith

next_power : (i m : ℕ) → 2 ^ (i + 1) * (m / 2 ^ (i + 1)) ≡ 2 * (2 ^ i * (m / 2 ^ i / 2))
next_power i m =
    rw (add-one i) (rw (pow-suc 2 i) (rw (sym (div-div-eq-div-mul m (2 ^ i) 2)) (omega arith)))

-- What one port adds to the digits above it.
mask-step :
    (rest top i m d : ℕ)
    → rest + top ≡ 2 ^ (i + 1) * (m / 2 ^ (i + 1))
    → m / 2 ^ i % 2 ≡ d
    → 2 ^ i * d + rest + top ≡ 2 ^ i * (m / 2 ^ i)
mask-step rest top i m d h e =
    let split_off = low_digit (2 ^ i) (m / 2 ^ i) d (omega (arith, e)) in
    omega (arith, h, next_power i m, split_off)

mask-range :
    (n i m : ℕ)
    → mask_of (filter (has_port m) (range_from i n)) + 2 ^ (i + n) * (m / 2 ^ (i + n))
      ≡ 2 ^ i * (m / 2 ^ i)
unfolding mask_of filter range_from
mask-range zero i m = ground arith
mask-range (suc n) i m =
    let rest = mask_of (filter (has_port m) (range_from (i + 1) n)) in
    let index : i + 1 + n ≡ i + suc n = omega arith in
    let above =
      subst (λ (t : ℕ). rest + 2 ^ t * (m / 2 ^ t) ≡ 2 ^ (i + 1) * (m / 2 ^ (i + 1))) index
        (mask-range n (i + 1) m) in
    let top = 2 ^ (i + suc n) * (m / 2 ^ (i + suc n)) in
    elim (digit_cases (m / 2 ^ i)) [
      | inl low ↦ ground (arith, mask-step rest top i m 0 above low, has_port-zero m i low)
      | inr high ↦ ground (arith, mask-step rest top i m 1 above high, has_port-one m i high)
    ]

-- The listed ports stand for the whole map: adding up their bits gives the map again.
pub to_portlist-mask : (m : ℕ) → m < 2 ^ 32 → mask_of (to_portlist m) ≡ m
unfolding to_portlist
to_portlist-mask m h = ground (arith, mask-range 32 0 m)

decimals-NoComma : (ps : List ℕ) → All NoComma (map decimal ps)
decimals-NoComma [] = tt
decimals-NoComma (p ∷ ps) = (decimal-NoComma p, decimals-NoComma ps)

-- The text of a port list that is not empty, split at its commas, gives the decimal text of each port
-- of the list, in order; the ports' bits add up to the map.
pub to_string-split :
    (m : ℕ)
    → m < 2 ^ 32
    → m ≢ 0
    → (split 44 (to_string m) ≡ map decimal (to_portlist m)) × (mask_of (to_portlist m) ≡ m)
unfolding to_string split mask_of
to_string-split m h nonzero =
    let whole = to_portlist-mask m h in
    (
      elim (to_portlist m)
            as (λ l. mask_of l ≡ m → split 44 (join (map decimal l)) ≡ map decimal l) [
              | [] ↦ (λ e. absurd (nonzero (sym e)))
              | p ∷ ps ↦ (λ e.
                  split-join (decimal p) (map decimal ps) (decimal-NoComma p) (decimals-NoComma ps))
            ]
          whole,
      whole,
    )
