-- ===== src/Outcome.antt =====
-- How a piece of the program ends, and arrays with Rust's bounds checks.
use rust_dpdk.Prelude.{
  ◌≡◌, ◌⊎◌, inl, inr, refl, ℕ, ℤ, List, Option, none, some, ltb, if◌then◌else◌, length, set,
  get_elem?,
}

-- A panic (`unwrap`, `expect`, an index out of bounds, an arithmetic overflow), an exit of the process
-- with a code, or fuel that is used up, which no code does.
pub data Halt : Type 0 where
  panicked : Halt
  exited : ℤ → Halt
  out_of_fuel : Halt

pub data Outcome {ℓ} (A : Type ℓ) : Type ℓ where
  done : A → Outcome A
  halted : Halt → Outcome A

module _ {ℓ κ} {A : Type ℓ} {B : Type κ} where
  infixl 5 ◌>>=◌
  abbrev pub ◌>>=◌ : Outcome A → (A → Outcome B) → Outcome B
  done a >>= f = f a
  halted x >>= f = halted x

module _ {ℓ} {A : Type ℓ} where
  -- `Option::unwrap` and `Option::expect`.
  abbrev pub unwrap : Option A → Outcome A
  unwrap none = halted panicked
  unwrap (some a) = done a

  -- `xs[i] = v`.
  unfoldable pub write : List A → ℕ → A → Outcome (List A)
  write xs i v = if ltb i (length xs) then done (set xs i v) else halted panicked

  -- `xs[i]`.
  unfoldable pub read : List A → ℕ → Outcome A
  read xs i = unwrap (get_elem? xs i)

-- To split on an outcome and keep the equation.
pub Outcome-cases {ℓ} :
    {A : Type ℓ} (o : Outcome A) → ((a : A) × (o ≡ done a)) ⊎ ((x : Halt) × (o ≡ halted x))
Outcome-cases (done a) = inl (a, refl)
Outcome-cases (halted x) = inr (x, refl)
