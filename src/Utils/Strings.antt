-- ===== src/Utils/Strings.antt =====
-- C strings: `AsCString` of rte/src/utils.rs and `to_cptr!` of rte/src/macros.rs. A string of the heap
-- is its bytes, or freed; its address is a place in the list.
use rust_dpdk.Prelude.{
  ℕ, ◌≡◌, ◌≢◌, List, [], ◌∷◌, ◌++◌, Option, none, some, Bool, true, false, ◌==◌, arith, All, ◌||◌,
  if◌then◌else◌, length, set, get_elem?, get_elem?-last, set-last, refl, Bool-cases, inl, inr,
}
use rust_dpdk.Errors.{Result, ok, err, nul_error}

-- What C code reads at a pointer: the bytes before the first zero; `none` is a read past the end.
unfoldable pub c_text : List ℕ → Option (List ℕ)
c_text [] = none
c_text (c ∷ s) = elim (c == 0) [
  | true ↦ some []
  | false ↦ elim (c_text s) [ none ↦ none | some t ↦ some (c ∷ t) ]
]

-- `as_cstring`: the bytes, with a zero behind them, unchecked.
unfoldable pub as_cstring : List ℕ → List ℕ
as_cstring s = s ++ 0 ∷ []

abbrev pub Heap : Type 0
Heap = List (Option (List ℕ))

-- `CString::new`, which refuses a zero byte.
unfoldable pub has_nul : List ℕ → Bool
has_nul [] = false
has_nul (c ∷ s) = c == 0 || has_nul s

-- `CString::new`, with the address of the new string.
unfoldable pub cstring_new : List ℕ → Heap → Result ℕ × Heap
unfolding has_nul
cstring_new s heap =
    if has_nul s
    then (err nul_error, heap)
    else (ok (length heap), heap ++ some (as_cstring s) ∷ [])

-- The end of a `CString`, which frees it.
unfoldable pub drop_cstring : ℕ → Heap → Heap
drop_cstring p heap = set heap p none

-- `to_cptr!`: `map` gives the string by value to the closure, which takes its address and at whose end
-- the string is dropped.
unfoldable pub to_cptr : List ℕ → Heap → Result ℕ × Heap
unfolding cstring_new drop_cstring
to_cptr s heap =
    let (made, after) = cstring_new s heap in
    elim made [ err e ↦ (err e, after) | ok p ↦ (ok p, drop_cstring p after) ]

-- What C code reads behind a pointer to the heap; `none` is the use of a string that is freed.
unfoldable pub read_at : Heap → ℕ → Option (List ℕ)
unfolding c_text
read_at heap p = elim (get_elem? heap p) [
  | none ↦ none
  | some none ↦ none
  | some (some s) ↦ c_text s
]

-- What the C code reads of `as_cstring` ends at the first zero of the Rust string: a string without a
-- zero is read back whole, and of one with a zero C sees the part before it, and no error is raised.
pub as_cstring_read :
    (s rest : List ℕ)
    → All (λ c. c ≢ 0) s
    → (c_text (as_cstring s) ≡ some s) × (c_text (as_cstring (s ++ 0 ∷ rest)) ≡ some s)
unfolding c_text as_cstring
as_cstring_read [] rest h = (refl, refl)
as_cstring_read (c ∷ s) rest (hc, hs) =
    let (whole, part) = as_cstring_read s rest hs in (ground (arith, whole), ground (arith, part))

has_nul-false : (s : List ℕ) → All (λ c. c ≢ 0) s → has_nul s ≡ false
unfolding has_nul
has_nul-false [] h = refl
has_nul-false (c ∷ s) (hc, hs) = ground (arith, has_nul-false s hs)

has_nul-inside : (s rest : List ℕ) → has_nul (s ++ 0 ∷ rest) ≡ true
unfolding has_nul
has_nul-inside [] rest = refl
has_nul-inside (c ∷ s) rest = ground (arith, has_nul-inside s rest)

-- Of a text without a zero byte `to_cptr!` gives a pointer to a string that is freed already, so that
-- the C function that gets the pointer uses freed memory; a string made of the text by `as_cstring`,
-- which lives on, is read back. A text with a zero byte is refused, and nothing is allocated for it.
pub to_cptr_dangles :
    (s rest : List ℕ) (heap : Heap)
    → All (λ c. c ≢ 0) s
    → (to_cptr s heap ≡ (ok (length heap), heap ++ none ∷ []))
      × (read_at (to_cptr s heap).1 (length heap) ≡ none)
      × (read_at (heap ++ some (as_cstring s) ∷ []) (length heap) ≡ some s)
      × (to_cptr (s ++ 0 ∷ rest) heap ≡ (err nul_error, heap))
unfolding to_cptr cstring_new drop_cstring read_at as_cstring
to_cptr_dangles s rest heap h =
    let whole = (as_cstring_read s [] h).0 in
    let clean = has_nul-false s h in
    let freed = set-last heap (some (s ++ 0 ∷ [])) none in
    (
      ground (arith, clean, freed),
      ground (arith, clean, freed, get_elem?-last heap none),
      ground (arith, whole, get_elem?-last heap (some (s ++ 0 ∷ []))),
      ground (arith, has_nul-inside s rest),
    )

-- A text of two parts without a zero byte has none.
pub has_nul-append :
    (s t : List ℕ) → has_nul s ≡ false → has_nul t ≡ false → has_nul (s ++ t) ≡ false
unfolding has_nul
has_nul-append [] t hs ht = ht
has_nul-append (c ∷ s) t hs ht = elim (Bool-cases (has_nul s)) [
  | inl bad ↦ absurd (ground (arith, hs, bad))
  | inr fine ↦ ground (arith, hs, has_nul-append s t fine ht)
]
