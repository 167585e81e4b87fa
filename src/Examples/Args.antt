-- ===== src/Examples/Args.antt =====
-- `prepare_args` of rte/examples/l2fwd/main.rs and rte/examples/kni/main.rs. An argument is the list
-- of its bytes.
use rust_dpdk.Prelude.{
  ℕ, List, [], ◌∷◌, ◌++◌, Option, none, some, false, ◌≡◌, arith, if◌then◌else◌, All,
}
use rust_dpdk.Text.{codes}
use rust_dpdk.Text.Equal.{equal, equal_same}
use rust_dpdk.Text.Split.{split}
use rust_dpdk.Outcome.{Outcome, done, halted, panicked, unwrap, ◌>>=◌}

-- The last of the components of a path; empty ones and `.` behind the first are no components.
last_component : List (List ℕ) → Option (List ℕ) → Option (List ℕ)
unfolding equal
last_component [] last = last
last_component ([] ∷ parts) last = last_component parts last
last_component ((c ∷ part) ∷ parts) last = last_component parts (elim last [
  | none ↦ some (c ∷ part)
  | some p ↦ if equal (c ∷ part) (codes ".") then some p else some (c ∷ part)
])

-- `Path::file_name`: the last component, unless it is `.` or `..`.
unfoldable pub file_name : List ℕ → Option (List ℕ)
unfolding split last_component equal
file_name path = elim (last_component (split b'/' path) none) [
  | none ↦ none
  | some part ↦
      if equal part (codes ".") then none else if equal part (codes "..") then none else some part
]

pub record Args : Type 0 where
  pub eal_args : List (List ℕ)
  pub opt_args : List (List ℕ)

-- The split at the first `--`: what stands in front of it, and it with what follows.
split_at_dashes : List (List ℕ) → Option Args
unfolding equal
split_at_dashes [] = none
split_at_dashes (a ∷ rest) =
    let found = split_at_dashes rest in
    if equal a (codes "--")
    then some (record { eal_args = []; opt_args = a ∷ rest })
    else elim found [
      | none ↦ none
      | some r ↦ some (record { eal_args = a ∷ r.eal_args; opt_args = r.opt_args })
    ]

-- `opt_args[0] = program`.
with_program : List ℕ → List (List ℕ) → List (List ℕ)
with_program program [] = []
with_program program (_ ∷ rest) = program ∷ rest

unfoldable pub prepare_args : List (List ℕ) → Outcome Args
unfolding file_name split_at_dashes with_program
prepare_args [] = halted panicked
prepare_args (a ∷ rest) = do
  program ← unwrap (file_name a)
  elim (split_at_dashes (a ∷ rest)) [
    | some r ↦ done (record { eal_args = r.eal_args; opt_args = with_program program r.opt_args })
    | none ↦ done (record { eal_args = a ∷ []; opt_args = a ∷ rest })
  ]

split_at_dashes-append :
    (front back : List (List ℕ))
    → All (λ a. equal a (codes "--") ≡ false) front
    → split_at_dashes (front ++ codes "--" ∷ back)
      ≡ some (record { eal_args = front; opt_args = codes "--" ∷ back })
unfolding split_at_dashes
split_at_dashes-append [] back h = ground (arith, equal_same (codes "--"))
split_at_dashes-append (a ∷ front) back h =
    ground (arith, h.0, split_at_dashes-append front back h.1)

-- Where `--` follows some arguments, those are for the EAL, and what follows `--` is for the
-- application, headed by the name of the program's file in place of `--`.
pub prepare_args_split :
    (a : List ℕ) (front back : List (List ℕ)) (program : List ℕ)
    → All (λ x. equal x (codes "--") ≡ false) (a ∷ front)
    → file_name a ≡ some program
    → prepare_args (a ∷ front ++ codes "--" ∷ back)
      ≡ done (record { eal_args = a ∷ front; opt_args = program ∷ back })
unfolding prepare_args with_program
prepare_args_split a front back program h named =
    ground (arith, named, split_at_dashes-append (a ∷ front) back h)
