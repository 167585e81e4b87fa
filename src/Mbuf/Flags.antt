-- ===== src/Mbuf/Flags.antt =====
-- The offload flags of rte/src/mbuf.rs, and the tests of a buffer by them.
use Prim.Native.Nat.{bit_or}
use rust_dpdk.Prelude.{
  ℕ, ◌*◌, ◌/◌, ◌%◌, ◌^◌, ◌≡◌, ◌⊎◌, List, [], ◌∷◌, Option, none, some, Bool, true, false, not, ◌||◌,
  ◌&&◌, ◌==◌, if◌then◌else◌, arith, refl, bit_and, bit_and-pow, bit_and-digit, bit_and-pair,
}
use rust_dpdk.Outcome.{Outcome, done, halted, panicked}

abbrev ext_attached_mbuf : ℕ
ext_attached_mbuf = 2 ^ 61

abbrev ind_attached_mbuf : ℕ
ind_attached_mbuf = 2 ^ 62

-- The constants of `OffloadFlags` in their order, those that are 0 left out.
abbrev pub flag_constants : List ℕ
flag_constants =
    1
    ∷ 2
    ∷ 4
    ∷ 32
    ∷ 64
    ∷ 144
    ∷ 16
    ∷ 128
    ∷ 144
    ∷ 264
    ∷ 8
    ∷ 256
    ∷ 264
    ∷ 512
    ∷ 1024
    ∷ 8192
    ∷ 16384
    ∷ 32768
    ∷ 65536
    ∷ 262144
    ∷ 524288
    ∷ 1048576
    ∷ 6291456
    ∷ 2097152
    ∷ 4194304
    ∷ 6291456
    ∷ 2 ^ 41
    ∷ 2 ^ 42
    ∷ 2 ^ 43
    ∷ 2 ^ 44
    ∷ 2 ^ 45
    ∷ 2 ^ 46
    ∷ 3 * 2 ^ 45
    ∷ 2 ^ 47
    ∷ 5 * 2 ^ 45
    ∷ 6 * 2 ^ 45
    ∷ 13 * 2 ^ 45
    ∷ 14 * 2 ^ 45
    ∷ 15 * 2 ^ 45
    ∷ 2 ^ 49
    ∷ 2 ^ 49
    ∷ 2 ^ 50
    ∷ 2 ^ 51
    ∷ 2 ^ 52
    ∷ 2 ^ 53
    ∷ 3 * 2 ^ 52
    ∷ 3 * 2 ^ 52
    ∷ 2 ^ 54
    ∷ 2 ^ 55
    ∷ 2 ^ 56
    ∷ 2 ^ 57
    ∷ 2 ^ 58
    ∷ 2 ^ 59
    ∷ 2 ^ 60
    ∷ 2305840810190438400
    ∷ ext_attached_mbuf
    ∷ ind_attached_mbuf
    ∷ 2 ^ 63
    ∷ []

all_of : List ℕ → ℕ
all_of [] = 0
all_of (f ∷ fs) = bit_or f (all_of fs)

-- `OffloadFlags::all`.
unfoldable pub all_flags : ℕ
unfolding all_of
all_flags = all_of flag_constants

-- `offload`, by `from_bits_truncate`.
unfoldable pub offload : ℕ → ℕ
unfolding all_flags
offload ol_flags = bit_and ol_flags all_flags

-- `contains` and `intersects` of bitflags.
unfoldable pub contains : ℕ → ℕ → Bool
contains bits other = bit_and other bits == other

unfoldable pub intersects : ℕ → ℕ → Bool
intersects bits other = not (bit_and other bits == 0)

unfoldable pub has_cloned : ℕ → Bool
unfolding offload contains
has_cloned ol_flags = contains (offload ol_flags) ind_attached_mbuf

unfoldable pub has_ext_buf : ℕ → Bool
unfolding offload contains
has_ext_buf ol_flags = contains (offload ol_flags) ext_attached_mbuf

unfoldable pub is_indirect : ℕ → Bool
unfolding has_cloned
is_indirect ol_flags = has_cloned ol_flags

unfoldable pub is_direct : ℕ → Bool
unfolding offload intersects
is_direct ol_flags = intersects (offload ol_flags) (bit_or ind_attached_mbuf ext_attached_mbuf)

-- What `raw_free` asserts in a debug build before it calls the C function.
unfoldable pub raw_free_asserts : ℕ → ℕ → Option ℕ → ℕ → Outcome (Unit {0})
unfolding is_direct
raw_free_asserts ol_flags refcnt next nb_segs =
    if is_direct ol_flags
      && refcnt == 1
      && (elim next [ none ↦ true | some p ↦ false ])
      && nb_segs == 1
    then done tt
    else halted panicked

kept-digit : (p f : ℕ) → all_flags / 2 ^ p % 2 ≡ 1 → offload f / 2 ^ p % 2 ≡ f / 2 ^ p % 2
unfolding offload
kept-digit p f h = ground (arith, bit_and-digit p f all_flags, h)

digit_cases : (n : ℕ) → (n % 2 ≡ 0) ⊎ (n % 2 ≡ 1)
digit_cases n = ground arith

-- The two flags are seen by their bits, and a test for both by either.
cloned-digit : (f : ℕ) → has_cloned f ≡ (f / 2 ^ 62 % 2 == 1)
unfolding has_cloned contains all_flags
cloned-digit f =
    ground (arith, bit_and-pow 62 (offload f), kept-digit 62 f refl, digit_cases (f / 2 ^ 62))

ext-digit : (f : ℕ) → has_ext_buf f ≡ (f / 2 ^ 61 % 2 == 1)
unfolding has_ext_buf contains all_flags
ext-digit f =
    ground (arith, bit_and-pow 61 (offload f), kept-digit 61 f refl, digit_cases (f / 2 ^ 61))

direct-digit : (f : ℕ) → is_direct f ≡ (f / 2 ^ 61 % 2 == 1) || (f / 2 ^ 62 % 2 == 1)
unfolding is_direct intersects all_flags
direct-digit f =
    let low = kept-digit 61 f refl in
    let high = kept-digit 62 f refl in
    let next : offload f / 2 ^ 61 / 2 ≡ offload f / 2 ^ 62 = omega arith in
    let both = bit_and-pair 61 (offload f) in
    ground (arith, both, next, low, high, digit_cases (f / 2 ^ 61), digit_cases (f / 2 ^ 62))

-- A buffer is reported as direct just where it is a clone or has an external buffer, so just where it is
-- not; and in a debug build `raw_free` panics for a buffer that is neither, whatever its other fields
-- are.
pub is_direct-inverted :
    (f ol_flags refcnt nb_segs : ℕ) (next : Option ℕ)
    → ol_flags / 2 ^ 61 % 4 ≡ 0
    → (is_direct f ≡ has_cloned f || has_ext_buf f)
      × (raw_free_asserts ol_flags refcnt next nb_segs ≡ halted panicked)
unfolding raw_free_asserts
is_direct-inverted f ol_flags refcnt nb_segs next plain =
    let low : ol_flags / 2 ^ 61 % 2 ≡ 0 = omega (arith, plain) in
    let high : ol_flags / 2 ^ 62 % 2 ≡ 0 = omega (arith, plain) in
    let same = direct-digit f in
    (
      ground (arith, same, cloned-digit f, ext-digit f),
      ground (arith, direct-digit ol_flags, low, high),
    )
