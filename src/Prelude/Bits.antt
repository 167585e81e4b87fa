-- ===== src/Prelude/Bits.antt =====
-- A test of one bit, `(1 << p) & m`, as a quotient.
use Prim.Native.Nat.{
  ℕ, zero, suc, ◌+◌, ◌*◌, ◌/◌, ◌%◌, ◌^◌, ◌≤◌, ◌<◌, min, digits, bit_and, bit_and-bitwise,
}
use mathlib.Core.Path.{◌≡◌, refl, ap, ◌∙◌, sym}
use native.Mathlib.Nat.{pow-suc, one-le-pow, div-div-eq-div-mul, zero-div}
use native.Mathlib.Omega.{arith}

digits-zero : (n b : ℕ) → digits (λ x. 0) min n 0 b ≡ 0
digits-zero zero b = refl
digits-zero (suc n) b = refl

scale : (u v x y : ℕ) → v ≡ 2 * u → x ≡ y → u * x * 2 ≡ v * y
scale u v x y e f = rw e (rw f (omega arith))

-- The digits of a power of two pick one digit of the other number.
digits-pow : (n a p b : ℕ) → a ≡ 2 ^ p → a ≤ n → digits (λ x. 0) min n a b ≡ 2 ^ p * (b / 2 ^ p % 2)
digits-pow zero a p b e h = absurd (omega (arith, one-le-pow p 2))
digits-pow (suc n) zero p b e h = absurd (omega (arith, one-le-pow p 2))
digits-pow (suc n) (suc a) zero b e h =
    let last : a ≡ 0 = omega (arith, e) in ground (arith, digits-zero n (b / 2), last)
digits-pow (suc n) (suc a) (suc p) b e h =
    let half : suc a / 2 ≡ 2 ^ p = omega (arith, pow-suc 2 p, e) in
    let even : suc a % 2 ≡ 0 = omega (arith, pow-suc 2 p, e) in
    let rest = digits-pow n (suc a / 2) p (b / 2) half (omega (arith, h)) in
    let quotient = div-div-eq-div-mul b 2 (2 ^ p) in
    let power : 2 ^ suc p ≡ 2 * 2 ^ p = omega (arith, pow-suc 2 p) in
    let shifted = quotient ∙ ap (λ (t : ℕ). b / t) (sym power) in
    let scaled =
      scale (2 ^ p) (2 ^ suc p) (b / 2 / 2 ^ p % 2) (b / 2 ^ suc p % 2) power
        (ap (λ (t : ℕ). t % 2) shifted) in
    rw even (rw rest (omega (arith, scaled)))

pub bit_and-pow : (p b : ℕ) → bit_and (2 ^ p) b ≡ 2 ^ p * (b / 2 ^ p % 2)
bit_and-pow p b = simp bit_and-bitwise (digits-pow (2 ^ p) (2 ^ p) p b refl (omega arith))

halves : (p x : ℕ) → x / 2 ^ suc p ≡ x / 2 / 2 ^ p
halves p x =
    let power : 2 ^ suc p ≡ 2 * 2 ^ p = omega (arith, pow-suc 2 p) in
    ap (λ (t : ℕ). x / t) power ∙ sym (div-div-eq-div-mul x 2 (2 ^ p))

min_bits : (a b : ℕ) → min (a % 2) (b % 2) < 2
min_bits a b = ground arith

zero-digit : (p x : ℕ) → 0 / 2 ^ p % 2 ≡ min (0 / 2 ^ p % 2) x
zero-digit p x = ground (arith, zero-div (2 ^ p))

-- Each digit of the result is the lesser of the digits.
digits-digit :
    (n a b p : ℕ)
    → a ≤ n
    → digits (λ x. 0) min n a b / 2 ^ p % 2 ≡ min (a / 2 ^ p % 2) (b / 2 ^ p % 2)
digits-digit zero zero b p h = zero-digit p _
digits-digit zero (suc a) b p h = absurd (omega (arith, h))
digits-digit (suc n) zero b p h = zero-digit p _
digits-digit (suc n) (suc a) b zero h = omega (arith, min_bits (suc a) b)
digits-digit (suc n) (suc a) b (suc p) h =
    let rest = digits-digit n (suc a / 2) (b / 2) p (omega (arith, h)) in
    let half : (digits (λ x. 0) min n (suc a / 2) (b / 2) * 2 + min (suc a % 2) (b % 2)) / 2
        ≡ digits (λ x. 0) min n (suc a / 2) (b / 2) =
      omega (arith, min_bits (suc a) b) in
    rw (halves p (suc a))
      (rw (halves p b) (rw (halves p (digits (λ x. 0) min (suc n) (suc a) b)) (rw half rest)))

pub bit_and-digit : (p a b : ℕ) → bit_and a b / 2 ^ p % 2 ≡ min (a / 2 ^ p % 2) (b / 2 ^ p % 2)
bit_and-digit p a b = simp bit_and-bitwise (digits-digit a a b p (omega arith))

low_three : (n b : ℕ) → 3 ≤ n → digits (λ x. 0) min n 3 b ≡ b % 2 + 2 * (b / 2 % 2)
low_three zero b h = absurd (omega (arith, h))
low_three (suc zero) b h = absurd (omega (arith, h))
low_three (suc (suc n)) b h = ground (arith, digits-zero n (b / 2 / 2))

-- A mask of two neighbouring bits picks two digits.
digits-pair :
    (n a p b : ℕ)
    → a ≡ 2 ^ p * 3
    → a ≤ n
    → digits (λ x. 0) min n a b ≡ 2 ^ p * (b / 2 ^ p % 2 + 2 * (b / 2 ^ p / 2 % 2))
digits-pair zero a p b e h = absurd (omega (arith, one-le-pow p 2))
digits-pair (suc n) zero p b e h = absurd (omega (arith, one-le-pow p 2))
digits-pair (suc n) (suc a) zero b e h =
    let three : suc a ≡ 3 = omega (arith, e) in
    rw three (omega (arith, low_three (suc n) b (omega (arith, three, h))))
digits-pair (suc n) (suc a) (suc p) b e h =
    let half : suc a / 2 ≡ 2 ^ p * 3 = omega (arith, pow-suc 2 p, e) in
    let even : suc a % 2 ≡ 0 = omega (arith, pow-suc 2 p, e) in
    let rest = digits-pair n (suc a / 2) p (b / 2) half (omega (arith, h)) in
    let power : 2 ^ suc p ≡ 2 * 2 ^ p = omega (arith, pow-suc 2 p) in
    let scaled =
      scale (2 ^ p) (2 ^ suc p) (b / 2 / 2 ^ p % 2 + 2 * (b / 2 / 2 ^ p / 2 % 2))
        (b / 2 ^ suc p % 2 + 2 * (b / 2 ^ suc p / 2 % 2)) power
        (ap (λ (t : ℕ). t % 2 + 2 * (t / 2 % 2)) (sym (halves p b))) in
    rw even (rw rest (omega (arith, scaled)))

pub bit_and-pair :
    (p b : ℕ) → bit_and (2 ^ p * 3) b ≡ 2 ^ p * (b / 2 ^ p % 2 + 2 * (b / 2 ^ p / 2 % 2))
bit_and-pair p b = simp bit_and-bitwise (digits-pair (2 ^ p * 3) (2 ^ p * 3) p b refl (omega arith))
