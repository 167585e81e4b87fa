-- ===== src/Utils/Callbacks.antt =====
-- `CallbackContext` of rte/src/utils.rs: a boxed callback with its argument, which a stub that C code
-- calls takes back with `Box::from_raw`.
use rust_dpdk.Prelude.{
  ℕ, ◌≡◌, refl, List, [], ◌∷◌, ◌++◌, Option, none, some, arith, length, set, get_elem?,
  get_elem?-last, set-last,
}

pub record CallbackContext (F : Type 0) (T : Type 0) : Type 0 where
  pub callback : F
  pub arg : T

-- The boxes of the contexts, live with what they hold or freed; an address is a place in the list.
abbrev pub Contexts : Type 0 → Type 0 → Type 0
Contexts F T = List (Option (CallbackContext F T))

module _ {F T : Type 0} where
  unfoldable pub new_context : F → T → CallbackContext F T
  new_context f a = record { callback = f; arg = a }

  unfoldable pub into_raw : CallbackContext F T → Contexts F T → ℕ × Contexts F T
  into_raw c boxes = (length boxes, boxes ++ some c ∷ [])

  -- The box is the caller's, who frees it at the end of its scope; `none` is the use of a freed one.
  unfoldable pub from_raw : ℕ → Contexts F T → Option (CallbackContext F T × Contexts F T)
  from_raw p boxes = elim (get_elem? boxes p) [
    | none ↦ none
    | some none ↦ none
    | some (some c) ↦ some (c, set boxes p none)
  ]

  module _ {X R : Type 0} where
    -- A stub: it takes the box back, calls the callback with the argument and what the C code passes,
    -- and frees the box.
    unfoldable pub stub : (F → T → X → R) → ℕ → X → Contexts F T → Option (R × Contexts F T)
    unfolding from_raw
    stub apply p x boxes = elim (from_raw p boxes) [
      | none ↦ none
      | some (c, after) ↦ some (apply c.callback c.arg x, after)
    ]

    -- C code that calls a stub for each of its objects, with the one pointer.
    unfoldable pub over :
        (ℕ → X → Contexts F T → Option (R × Contexts F T))
        → ℕ
        → List X
        → Contexts F T
        → Option (List R × Contexts F T)
    over s p [] boxes = some ([], boxes)
    over s p (x ∷ xs) boxes = elim (s p x boxes) [
      | none ↦ none
      | some (r, after) ↦ elim (over s p xs after) [
        | none ↦ none
        | some (rs, last) ↦ some (r ∷ rs, last)
      ]
    ]

    -- A context that is boxed and handed to such C code.
    unfoldable pub handed :
        (ℕ → X → Contexts F T → Option (R × Contexts F T))
        → CallbackContext F T
        → List X
        → Contexts F T
        → Option (List R × Contexts F T)
    unfolding into_raw over
    handed s c xs boxes = let (p, after) = into_raw c boxes in over s p xs after

    module _ (apply : F → T → X → R) where
      pub handed-one :
          (c : CallbackContext F T) (x : X) (boxes : Contexts F T)
          → handed (stub apply) c (x ∷ []) boxes
            ≡ some (apply c.callback c.arg x ∷ [], boxes ++ none ∷ [])
      unfolding handed stub
      handed-one c x boxes =
          ground (arith, get_elem?-last boxes (some c), set-last boxes (some c) none)

      pub handed-more :
          (c : CallbackContext F T) (x y : X) (xs : List X) (boxes : Contexts F T)
          → handed (stub apply) c (x ∷ y ∷ xs) boxes ≡ none
      unfolding handed stub
      handed-more c x y xs boxes = ground (
        arith,
        get_elem?-last boxes (some c),
        get_elem?-last boxes none,
        set-last boxes (some c) none,
      )

      pub handed-none :
          (c : CallbackContext F T) (boxes : Contexts F T)
          → handed (stub apply) c [] boxes ≡ some ([], boxes ++ some c ∷ [])
      unfolding handed
      handed-none c boxes = refl
