-- ===== src/Text/Split.antt =====
-- `str::split` at one ASCII character, as it is collected.
use rust_dpdk.Prelude.{
  ℕ, List, [], ◌∷◌, ◌++◌, true, false, ◌≡◌, ◌≢◌, arith, ◌==◌, All, append-nil, append_assoc,
}

-- The parts, `cur` being the part that is read.
unfoldable pub split_from : ℕ → List ℕ → List ℕ → List (List ℕ)
split_from sep cur [] = cur ∷ []
split_from sep cur (c ∷ s) = elim (c == sep) [
  | true ↦ cur ∷ split_from sep [] s
  | false ↦ split_from sep (cur ++ c ∷ []) s
]

unfoldable pub split : ℕ → List ℕ → List (List ℕ)
unfolding split_from
split sep s = split_from sep [] s

-- A text without the separator goes into the part that is read.
pub split_from-append :
    (sep : ℕ) (cur p s : List ℕ)
    → All (λ c. c ≢ sep) p
    → split_from sep cur (p ++ s) ≡ split_from sep (cur ++ p) s
unfolding split_from
split_from-append sep cur [] s h = rw append-nil
split_from-append sep cur (c ∷ p) s (hc, hp) =
    ground (arith, split_from-append sep (cur ++ c ∷ []) p s hp, append_assoc cur (c ∷ []) p)

-- The separator ends the part that is read.
pub split_from_sep :
    (sep : ℕ) (cur s : List ℕ) → split_from sep cur (sep ∷ s) ≡ cur ∷ split_from sep [] s
unfolding split_from
split_from_sep sep cur s = ground arith
