-- ===== src/Build/Libs.antt =====
-- rte-build/src/rte.rs: what pkg-config says of DPDK, and the names of the target. A path is its text.
use rust_dpdk.Prelude.{
  ℕ, ◌≡◌, refl, List, [], ◌∷◌, ◌++◌, Option, none, some, Bool, true, false, ◌==◌, map, All, inl,
  inr, Bool-cases, arith, ap,
}
use mathlib.Core.List.{reverse}
use rust_dpdk.Text.{codes}

-- `str::contains` for a text.
unfoldable pub starts_with : List ℕ → List ℕ → Bool
starts_with [] s = true
starts_with (c ∷ t) [] = false
starts_with (c ∷ t) (e ∷ s) = elim (c == e) [ true ↦ starts_with t s | false ↦ false ]

unfoldable pub contains : List ℕ → List ℕ → Bool
unfolding starts_with
contains t [] = starts_with t []
contains t (c ∷ s) = elim (starts_with t (c ∷ s)) [ true ↦ true | false ↦ contains t s ]

abbrev pub pmd : List ℕ
pmd = codes "pmd"

-- `RTE_LIB_DIR` and `RTE_INCLUDE_DIR`, of the paths that pkg-config lists.
unfoldable pub dirs : List (List ℕ) → List (List ℕ)
dirs paths = reverse paths

-- The loops of `RTE_CORE_LIBS` and `RTE_PMD_LIBS` over the libraries.
unfoldable pub core_libs : List (List ℕ) → List (List ℕ)
unfolding contains
core_libs [] = []
core_libs (lib ∷ libs) = elim (contains pmd lib) [
  | true ↦ core_libs libs
  | false ↦ lib ∷ core_libs libs
]

unfoldable pub pmd_libs : List (List ℕ) → List (List ℕ)
unfolding contains
pmd_libs [] = []
pmd_libs (lib ∷ libs) = elim (contains pmd lib) [
  | true ↦ lib ∷ pmd_libs libs
  | false ↦ pmd_libs libs
]

-- `env::var(…).unwrap_or_else(…)`.
unfoldable pub env_or : Option (List ℕ) → List ℕ → List ℕ
env_or none default = default
env_or (some s) default = s

-- `RTE_ARCH`, `RTE_MACHINE`, `RTE_OS` and `RTE_TOOLCHAIN`, with the constants of the host.
pub record Target : Type 0 where
  pub arch : List ℕ
  pub machine : List ℕ
  pub os : List ℕ
  pub toolchain : List ℕ

unfoldable pub target : (List ℕ → Option (List ℕ)) → List ℕ → List ℕ → Target
unfolding env_or
target env host_arch host_os = record {
  arch = env_or (env (codes "RTE_ARCH")) host_arch;
  machine = env_or (env (codes "RTE_MACHINE")) (codes "native");
  os = env_or (env (codes "RTE_OS")) host_os;
  toolchain = env_or (env (codes "RTE_TOOLCHAIN")) (codes "gcc");
}

-- `RTE_TARGET`.
unfoldable pub rte_target : (List ℕ → Option (List ℕ)) → List ℕ → List ℕ → List ℕ
unfolding target env_or
rte_target env host_arch host_os =
    let t = target env host_arch host_os in
    env_or (env (codes "RTE_TARGET"))
      (t.arch ++ codes "-" ++ t.machine ++ codes "-" ++ t.os ++ codes "app-" ++ t.toolchain)

-- Two lists put together again, a mark saying which one gives the next element.
pub merge : {A : Type 0} → List Bool → List A → List A → List A
merge [] xs ys = []
merge (true ∷ bs) xs [] = []
merge (true ∷ bs) xs (y ∷ ys) = y ∷ merge bs xs ys
merge (false ∷ bs) [] ys = []
merge (false ∷ bs) (x ∷ xs) ys = x ∷ merge bs xs ys

libs_driver :
    (lib : List ℕ) (libs : List (List ℕ))
    → contains pmd lib ≡ true
    → (core_libs (lib ∷ libs) ≡ core_libs libs) × (pmd_libs (lib ∷ libs) ≡ lib ∷ pmd_libs libs)
unfolding core_libs pmd_libs
libs_driver lib libs e = ground (arith, e)

libs_core :
    (lib : List ℕ) (libs : List (List ℕ))
    → contains pmd lib ≡ false
    → (core_libs (lib ∷ libs) ≡ lib ∷ core_libs libs) × (pmd_libs (lib ∷ libs) ≡ pmd_libs libs)
unfolding core_libs pmd_libs
libs_core lib libs e = ground (arith, e)

-- Every library that pkg-config lists is linked once, as a core library or as a driver, in the order of
-- the list; just those whose name contains `pmd` are drivers.
pub core_libs-pmd_libs :
    (libs : List (List ℕ))
    → (merge (map (contains pmd) libs) (core_libs libs) (pmd_libs libs) ≡ libs)
      × All (λ l. contains pmd l ≡ false) (core_libs libs)
      × All (λ l. contains pmd l ≡ true) (pmd_libs libs)
unfolding merge core_libs pmd_libs
core_libs-pmd_libs [] = (refl, tt, tt)
core_libs-pmd_libs (lib ∷ libs) =
    let (whole, core, drivers) = core_libs-pmd_libs libs in
    elim (Bool-cases (contains pmd lib)) [
      | inl driver ↦
          let (cores, pmds) = libs_driver lib libs driver in
          rw cores
            (rw pmds (rw driver (ap (λ (r : List (List ℕ)). lib ∷ r) whole, core, (refl, drivers))))
      | inr plain ↦
          let (cores, pmds) = libs_core lib libs plain in
          rw cores
            (rw pmds (rw plain (ap (λ (r : List (List ℕ)). lib ∷ r) whole, (refl, core), drivers)))
    ]
