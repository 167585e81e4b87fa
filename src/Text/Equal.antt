-- ===== src/Text/Equal.antt =====
-- Equality of texts, and whether a text is one of several.
use rust_dpdk.Prelude.{
  ℕ, List, [], ◌∷◌, Bool, true, false, ◌&&◌, ◌||◌, not, ◌==◌, ◌≡◌, refl, subst, Bool-cases, inl,
  inr, arith,
}

unfoldable pub equal : List ℕ → List ℕ → Bool
equal [] [] = true
equal (x ∷ xs) (y ∷ ys) = x == y && equal xs ys
equal _ _ = false

pub equal→eq : (s t : List ℕ) → equal s t ≡ true → s ≡ t
unfolding equal
equal→eq [] [] h = refl
equal→eq [] (y ∷ ys) h = ground (arith, h)
equal→eq (x ∷ xs) [] h = ground (arith, h)
equal→eq (x ∷ xs) (y ∷ ys) h = ground (arith, equal→eq xs ys)

-- A text equals itself.
pub equal_same : (s : List ℕ) → equal s s ≡ true
unfolding equal
equal_same [] = refl
equal_same (x ∷ xs) = ground (arith, equal_same xs)

unfoldable pub member : List ℕ → List (List ℕ) → Bool
unfolding equal
member s [] = false
member s (t ∷ ts) = equal t s || member s ts

-- No text stands in both lists.
unfoldable pub disjoint : List (List ℕ) → List (List ℕ) → Bool
unfolding member
disjoint [] ts = true
disjoint (s ∷ ss) ts = not (member s ts) && disjoint ss ts

pub disjoint-member :
    (ss ts : List (List ℕ)) (s : List ℕ)
    → disjoint ss ts ≡ true
    → member s ss ≡ true
    → member s ts ≡ false
unfolding disjoint
disjoint-member [] ts s h m = ground (arith, m)
disjoint-member (x ∷ xs) ts s h m = elim (Bool-cases (equal x s)) [
  | inl same ↦ subst (λ (t : List ℕ). member t ts ≡ false) (equal→eq x s same) (ground (arith, h))
  | inr other ↦ disjoint-member xs ts s (ground (arith, h)) (ground (arith, m, other))
]
