-- ===== src/Text/Join.antt =====
-- `join(",")` of the itertools crate and of slices, and how it is read back.
use rust_dpdk.Prelude.{ℕ, List, [], ◌∷◌, ◌++◌, ◌≡◌, ◌≢◌, arith, sym, ap, ◌∙◌, All, append-nil}
use rust_dpdk.Text.Split.{split, split_from, split_from-append, split_from_sep}

unfoldable pub join : List (List ℕ) → List ℕ
join [] = []
join (s ∷ []) = s
join (s ∷ t ∷ ss) = s ++ 44 ∷ join (t ∷ ss)

abbrev pub NoComma : List ℕ → Type 0
NoComma s = All (λ c. c ≢ 44) s

-- Texts without commas are read back from their join.
pub split-join :
    (s : List ℕ) (ss : List (List ℕ))
    → NoComma s
    → All NoComma ss
    → split 44 (join (s ∷ ss)) ≡ s ∷ ss
unfolding join split split_from
split-join s [] h hs =
    ap (λ (t : List ℕ). split_from 44 [] t) (sym (append-nil s)) ∙ split_from-append 44 [] s [] h
split-join s (t ∷ ss) h (ht, hs) = ground (
  arith,
  split_from-append 44 [] s (44 ∷ join (t ∷ ss)) h,
  split_from_sep 44 s (join (t ∷ ss)),
  split-join t ss ht hs,
)
