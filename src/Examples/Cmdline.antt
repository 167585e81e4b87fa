-- ===== src/Examples/Cmdline.antt =====
-- rte/examples/cmdline/main.rs: a list of objects with commands to add, show and delete one.
pub mod Objects
pub mod Completion
pub mod Commands
pub mod Spec
pub mod Main
pub mod Refinement
use rust_dpdk.Prelude.{ℕ, List, [], ◌∷◌, Option, none, some, Bool, true, false}
use rust_dpdk.Cmdline.Tokens.{IpAddr}
use rust_dpdk.Text.Equal.{equal}

pub record Object : Type 0 where
  pub name : List ℕ
  pub ip : IpAddr

-- The entries of the hash map, in the order in which it is iterated. No theorem depends on the place at
-- which a new entry is put.
abbrev pub ObjectMap : Type 0
ObjectMap = List (List ℕ × Object)

unfoldable pub lookup : List ℕ → ObjectMap → Option Object
lookup k [] = none
lookup k (e ∷ m) = elim (equal k e.0) [ true ↦ some e.1 | false ↦ lookup k m ]

-- `contains_key`.
unfoldable pub contains_key : List ℕ → ObjectMap → Bool
unfolding lookup
contains_key k m = elim (lookup k m) [ none ↦ false | some o ↦ true ]

-- `insert`, which replaces the object of a key that is there.
unfoldable pub insert : List ℕ → Object → ObjectMap → ObjectMap
insert k o [] = (k, o) ∷ []
insert k o (e ∷ m) = elim (equal k e.0) [ true ↦ (k, o) ∷ m | false ↦ e ∷ insert k o m ]

-- What `remove` gives, whether the first entry is the one.
unfoldable taken :
    Bool → List ℕ × Object → ObjectMap → Option Object × ObjectMap → Option Object × ObjectMap
taken true e m rest = (some e.1, m)
taken false e m rest = (rest.0, e ∷ rest.1)

-- `remove`, with the object that it returns.
unfoldable pub remove : List ℕ → ObjectMap → Option Object × ObjectMap
unfolding taken
remove k [] = (none, [])
remove k (e ∷ m) = taken (equal k e.0) e m (remove k m)
