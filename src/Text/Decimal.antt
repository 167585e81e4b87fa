-- ===== src/Text/Decimal.antt =====
-- How `format!("{}")` prints a number: its decimal digits, at most 20 for a `u64`.
use rust_dpdk.Prelude.{
  arith, All, ◌≢◌, if-either, All-append, ℕ, zero, suc, ◌+◌, ◌/◌, ◌%◌, List, [], ◌∷◌, ◌++◌, ltb,
  if◌then◌else◌,
}

print_digits : ℕ → ℕ → List ℕ
print_digits zero n = []
print_digits (suc fuel) n =
    let front = print_digits fuel (n / 10) in
    if ltb n 10 then (48 + n) ∷ [] else front ++ (48 + n % 10) ∷ []

unfoldable pub decimal : ℕ → List ℕ
unfolding print_digits
decimal n = print_digits 20 n

-- A decimal text has digits alone.
print_digits-NoComma : (fuel n : ℕ) → All (λ c. c ≢ 44) (print_digits fuel n)
unfolding print_digits
print_digits-NoComma zero n = tt
print_digits-NoComma (suc fuel) n =
    if-either (All (λ c. c ≢ 44)) (ltb n 10) ((48 + n) ∷ [])
      (print_digits fuel (n / 10) ++ (48 + n % 10) ∷ []) ((λ e. absurd (omega arith)), tt)
      (All-append (λ c. c ≢ 44) (print_digits fuel (n / 10)) ((48 + n % 10) ∷ [])
        (print_digits-NoComma fuel (n / 10)) ((λ e. absurd (omega arith)), tt))

pub decimal-NoComma : (n : ℕ) → All (λ c. c ≢ 44) (decimal n)
unfolding decimal
decimal-NoComma n = print_digits-NoComma 20 n
