-- ===== src/Examples/Cmdline/Objects.antt =====
-- The laws of the object map of rte/examples/cmdline/main.rs.
use rust_dpdk.Prelude.{
  ℕ, ◌≡◌, ◌≢◌, inl, inr, List, [], ◌∷◌, none, some, true, false, arith, refl, Bool-cases, ap, ◌∙◌,
  get_elem?, zero, suc,
}
use rust_dpdk.Text.Equal.{equal, equal_same}
use rust_dpdk.Examples.Cmdline.{Object, ObjectMap, lookup, insert, remove, taken}

-- Each key stands once, with an object of that name.
unfoldable pub IsMap : ObjectMap → Type 0
IsMap [] = Unit
IsMap (e ∷ m) = (e.1.name ≡ e.0) × (lookup e.0 m ≡ none) × IsMap m

pub equal_lem : (a b : List ℕ) → equal a b ≡ true → a ≡ b
unfolding equal
equal_lem [] [] h = refl
equal_lem [] (y ∷ b) h = absurd (ground (arith, h))
equal_lem (x ∷ a) [] h = absurd (ground (arith, h))
equal_lem (x ∷ a) (y ∷ b) h = elim (Bool-cases (equal a b)) [
  | inl same ↦ ground (arith, h, equal_lem a b same)
  | inr differs ↦ absurd (ground (arith, h, differs))
]

pub equal_not : (a b : List ℕ) → a ≢ b → equal a b ≡ false
unfolding equal
equal_not a b h = elim (Bool-cases (equal a b)) [
  | inl same ↦ absurd (h (equal_lem a b same))
  | inr differs ↦ differs
]

-- A text that the test tells apart from another is another.
differs-not : (k j : List ℕ) → equal k j ≡ false → j ≢ k
differs-not k j h e = absurd (ground (arith, h, equal_same k, e))

pub lookup-insert_same :
    (k : List ℕ) (o : Object) (m : ObjectMap) → lookup k (insert k o m) ≡ some o
unfolding lookup insert
lookup-insert_same k o [] = ground (arith, equal_same k)
lookup-insert_same k o (e ∷ m) = elim (Bool-cases (equal k e.0)) [
  | inl same ↦ ground (arith, same, equal_same k)
  | inr differs ↦ ground (arith, differs, lookup-insert_same k o m)
]

pub lookup-insert_other :
    (k j : List ℕ) (o : Object) (m : ObjectMap) → j ≢ k → lookup j (insert k o m) ≡ lookup j m
unfolding lookup insert
lookup-insert_other k j o [] h = ground (arith, equal_not j k h)
lookup-insert_other k j o (e ∷ m) h = elim (Bool-cases (equal k e.0)) [
  | inl same ↦ ground (arith, same, equal_lem k e.0 same, equal_not j k h)
  | inr differs ↦ ground (arith, differs, lookup-insert_other k j o m h)
]

pub remove-0 : (k : List ℕ) (m : ObjectMap) → (remove k m).0 ≡ lookup k m
unfolding lookup remove
remove-0 k [] = refl
remove-0 k (e ∷ m) = ground (arith, remove-0 k m)

pub lookup-remove_other :
    (k j : List ℕ) (m : ObjectMap) → j ≢ k → lookup j (remove k m).1 ≡ lookup j m
unfolding lookup remove
lookup-remove_other k j [] h = refl
lookup-remove_other k j (e ∷ m) h = elim (Bool-cases (equal k e.0)) [
  | inl same ↦ ground (arith, same, equal_lem k e.0 same, equal_not j k h)
  | inr differs ↦ ground (arith, differs, lookup-remove_other k j m h)
]

pub lookup-remove_same : (k : List ℕ) (m : ObjectMap) → IsMap m → lookup k (remove k m).1 ≡ none
unfolding lookup remove IsMap
lookup-remove_same k [] h = refl
lookup-remove_same k (e ∷ m) (hn, ha, hm) = elim (Bool-cases (equal k e.0)) [
  | inl same ↦ ground (arith, same, equal_lem k e.0 same, ha)
  | inr differs ↦ ground (arith, differs, lookup-remove_same k m hm)
]

pub insert-IsMap :
    (k : List ℕ) (o : Object) (m : ObjectMap) → o.name ≡ k → IsMap m → IsMap (insert k o m)
unfolding insert IsMap lookup
insert-IsMap k o [] named h = (named, refl, tt)
insert-IsMap k o (e ∷ m) named (hn, ha, hm) =
    elim (equal k e.0)
        as (λ b.
          equal k e.0 ≡ b → IsMap (elim b [ true ↦ (k, o) ∷ m | false ↦ e ∷ insert k o m ])) [
            | true ↦ (λ same. (named, ap (λ j. lookup j m) (equal_lem k e.0 same) ∙ ha, hm))
            | false ↦ (λ differs. (
              hn,
              lookup-insert_other k e.0 o m (differs-not k e.0 differs) ∙ ha,
              insert-IsMap k o m named hm,
            ))
          ]
      refl

pub remove-IsMap : (k : List ℕ) (m : ObjectMap) → IsMap m → IsMap (remove k m).1
unfolding remove IsMap taken
remove-IsMap k [] h = tt
remove-IsMap k (e ∷ m) (hn, ha, hm) =
    let rest = remove k m in
    elim (equal k e.0) as (λ b. equal k e.0 ≡ b → IsMap (taken b e m rest).1) [
      | true ↦ (λ same. hm)
      | false ↦ (λ differs.
          (hn, lookup-remove_other k e.0 m (differs-not k e.0 differs) ∙ ha, remove-IsMap k m hm))
    ]
      refl

-- The entries of a map are what a look-up finds.
pub lookup-nth :
    (m : ObjectMap) (i : ℕ) {k : List ℕ} {o : Object}
    → IsMap m
    → get_elem? m i ≡ some (k, o)
    → lookup k m ≡ some o
unfolding lookup IsMap
lookup-nth [] i h e = absurd (ground (arith, e))
lookup-nth (x ∷ m) zero h e = ground (arith, e, equal_same x.0)
lookup-nth (x ∷ m) (suc i) {k} {o} (hn, ha, hm) e =
    let found = lookup-nth m i {k = k} {o = o} hm e in
    elim (Bool-cases (equal k x.0)) [
      | inl same ↦ absurd (ground (arith, found, ha, equal_lem k x.0 same))
      | inr differs ↦ ground (arith, found, differs)
    ]
