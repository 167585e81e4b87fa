-- ===== src/Launch/Context.antt =====
-- The boxed context of rte/src/common/launch.rs: `Box::into_raw` in the two launching functions and
-- `Box::from_raw` in `lcore_stub`, which frees the box when it returns. DPDK calls `lcore_stub` with
-- the one pointer on each core that it launches.
use rust_dpdk.Prelude.{
  ℕ, zero, suc, ◌+◌, List, [], ◌∷◌, ◌++◌, Option, none, some, ◌≡◌, refl, arith, get_elem?, set,
  length, get_elem?-last, set-last,
}

-- `LcoreContext`.
pub record LcoreContext (T : Type 0) : Type 0 where
  pub callback : Option T → ℕ
  pub arg : Option T

-- A box is live with what it holds, or freed. An address is a place in the list.
abbrev pub Boxes : Type 0 → Type 0
Boxes T = List (Option (LcoreContext T))

module _ {T : Type 0} where
  -- `Box::into_raw(Box::new(…))`.
  unfoldable pub into_raw : LcoreContext T → Boxes T → ℕ × Boxes T
  into_raw c boxes = (length boxes, boxes ++ some c ∷ [])

  -- The code that the callback returns, with the boxes behind it; `none` is the use of a box that is
  -- freed.
  unfoldable pub lcore_stub : ℕ → Boxes T → Option (ℕ × Boxes T)
  lcore_stub p boxes = elim (get_elem? boxes p) [
    | none ↦ none
    | some none ↦ none
    | some (some c) ↦ some (c.callback c.arg, set boxes p none)
  ]

  -- The stub on `n` cores, one after the other, with the codes that they return.
  unfoldable pub on_cores : ℕ → ℕ → Boxes T → Option (List ℕ × Boxes T)
  unfolding lcore_stub
  on_cores zero p boxes = some ([], boxes)
  on_cores (suc n) p boxes = elim (lcore_stub p boxes) [
    | none ↦ none
    | some (r, after) ↦ elim (on_cores n p after) [
      | none ↦ none
      | some (rs, last) ↦ some (r ∷ rs, last)
    ]
  ]

  -- What a launch makes of the boxes, where DPDK runs the function on `n` cores.
  unfoldable pub launch : ℕ → LcoreContext T → Boxes T → Option (List ℕ × Boxes T)
  unfolding into_raw on_cores
  launch n c boxes = let (p, after) = into_raw c boxes in on_cores n p after

  -- A launch on one core calls the callback once and frees the context; on no core, as when DPDK
  -- refuses the launch, the context is never freed; and on two or more cores, which share the context,
  -- the second one uses it after the first has freed it.
  pub launch_frees :
      (c : LcoreContext T) (boxes : Boxes T)
      → (launch 1 c boxes ≡ some (c.callback c.arg ∷ [], boxes ++ none ∷ []))
        × (launch 0 c boxes ≡ some ([], boxes ++ some c ∷ []))
        × ((n : ℕ) → launch (n + 2) c boxes ≡ none)
  unfolding launch
  launch_frees c boxes =
      let live = get_elem?-last boxes (some c) in
      let freed = get_elem?-last boxes none in
      let after = set-last boxes (some c) none in
      (ground (arith, live, after), refl, λ n. ground (arith, live, after, freed))
