-- ===== src/Build/Flags.antt =====
-- rte-build/src/gcc.rs and cargo.rs: the settings of the C compiler, and what Cargo is told.
use rust_dpdk.Prelude.{ℕ, List, [], ◌∷◌, ◌++◌, Option, none, some, Bool, true, map, if◌then◌else◌}
use rust_dpdk.Text.{codes}
use rust_dpdk.Build.Cpu.{Feature, gen_cpu_features}
use rust_dpdk.Build.Libs.{dirs, core_libs, pmd_libs}

-- A call of `cc::Build`.
pub data Setting : Type 0 where
  include : List ℕ → Setting
  flag : List ℕ → Setting
  cargo_metadata : Bool → Setting

unfoldable pub define : List ℕ × Option (List ℕ) → List ℕ
define (name, some value) = codes "-D" ++ name ++ codes "=" ++ value
define (name, none) = codes "-D" ++ name

-- `gcc_rte_config`, as the calls that it makes.
unfoldable pub gcc_rte_config :
    List (List ℕ) → Option (Feature → Bool) → Option (Feature → Bool) → List Setting
unfolding define gen_cpu_features
gcc_rte_config dirs features extended =
    map include dirs
    ++ flag (codes "-march=native")
      ∷ cargo_metadata true
      ∷ map (λ d. flag (define d)) (gen_cpu_features features extended)

-- `gen_cargo_config`, as the lines that it prints.
unfoldable pub gen_cargo_config :
    List ℕ → List (List ℕ) → List (List ℕ) → List (List ℕ) → List (List ℕ) → List (List ℕ)
gen_cargo_config link_kind lib_dirs include_dirs static_libs shared_libs =
    map (λ lib. codes "cargo:rustc-link-lib=" ++ link_kind ++ codes "=" ++ lib) static_libs
    ++ map (λ lib. codes "cargo:rustc-link-lib=" ++ lib) shared_libs
    ++ map (λ dir. codes "cargo:rustc-link-search=native=" ++ dir) lib_dirs
    ++ map (λ dir. codes "cargo:include=" ++ dir) include_dirs

-- What the build script of rte-sys prints of the libraries; `is_static` and `linux` are tests of its
-- configuration.
unfoldable pub sys_lines :
    Bool → Bool → List (List ℕ) → List (List ℕ) → List (List ℕ) → List (List ℕ)
unfolding gen_cargo_config dirs core_libs pmd_libs
sys_lines is_static linux link_paths include_paths libs =
    gen_cargo_config (if is_static then codes "static" else codes "dylib") (dirs link_paths)
      (dirs include_paths) (core_libs libs ++ pmd_libs libs) (codes "numa" ∷ [])
    ++ (if linux then codes "cargo:rustc-link-search=native=/usr/lib/x86_64-linux-gnu" ∷ [] else [])

-- What the build script of rte prints.
unfoldable pub rte_lines : Bool → List (List ℕ)
rte_lines linux =
    (if linux
      then codes "cargo:rustc-link-search=native=/usr/lib"
        ∷ codes "cargo:rustc-link-search=native=/usr/lib64"
        ∷ codes "cargo:rustc-link-search=native=/usr/lib/x86_64-linux-gnu"
        ∷ []
      else [])
    ++ codes "cargo:rustc-link-lib=dylib=rte_net_bond" ∷ []
