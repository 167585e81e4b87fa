-- ===== src/Build/Cpu.antt =====
-- rte-build/src/cpu.rs: the flags of the processor that the C code is compiled with.
pub mod Detected
use rust_dpdk.Prelude.{
  ℕ, ◌≡◌, refl, List, [], ◌∷◌, ◌++◌, Option, none, some, Bool, true, false, map, if◌then◌else◌,
}
use rust_dpdk.Text.{codes}
use rust_dpdk.Text.Join.{join}

-- What the raw_cpuid crate tells of the processor.
pub data Feature : Type 0 where
  sse sse2 sse3 ssse3 sse41 sse42 aesni pclmulqdq avx rdrand f16c fsgsbase avx2 avx512f : Feature

-- One `if` of the code: what it asks for, and what it pushes to `cflags` and to
-- `compile_time_cpuflags`.
pub record Push : Type 0 where
  pub feature : Feature
  pub cflag : List ℕ
  pub cpuflag : Option (List ℕ)

both : Feature → List ℕ → List ℕ → Push
both f c t = record { feature = f; cflag = c; cpuflag = some t }

machine : Feature → List ℕ → Push
machine f c = record { feature = f; cflag = c; cpuflag = none }

-- The questions to `get_feature_info`.
unfoldable pub feature_info : List Push
unfolding both machine
feature_info =
    both Feature.sse (codes "RTE_MACHINE_CPUFLAG_SSE") (codes "RTE_CPUFLAG_SSE")
    ∷ both Feature.sse2 (codes "RTE_MACHINE_CPUFLAG_SSE2") (codes "RTE_CPUFLAG_SSE2")
    ∷ both Feature.sse3 (codes "RTE_MACHINE_CPUFLAG_SSE3") (codes "RTE_CPUFLAG_SSE3")
    ∷ both Feature.ssse3 (codes "RTE_MACHINE_CPUFLAG_SSSE3") (codes "RTE_CPUFLAG_SSSE3")
    ∷ both Feature.sse41 (codes "RTE_MACHINE_CPUFLAG_SSE4_1") (codes "RTE_CPUFLAG_SSE4_1")
    ∷ both Feature.sse42 (codes "RTE_MACHINE_CPUFLAG_SSE4_2") (codes "RTE_CPUFLAG_SSE4_2")
    ∷ both Feature.aesni (codes "RTE_MACHINE_CPUFLAG_AES") (codes "RTE_CPUFLAG_AES")
    ∷ both Feature.pclmulqdq (codes "RTE_MACHINE_CPUFLAG_PCLMULQDQ") (codes "RTE_CPUFLAG_PCLMULQDQ")
    ∷ both Feature.avx (codes "RTE_MACHINE_CPUFLAG_AVX") (codes "RTE_CPUFLAG_AVX")
    ∷ machine Feature.rdrand (codes "RTE_MACHINE_CPUFLAG_RDRAND")
    ∷ machine Feature.f16c (codes "RTE_MACHINE_CPUFLAG_F16C")
    ∷ []

-- The questions to `get_extended_feature_info`.
unfoldable pub extended_feature_info : List Push
unfolding both machine
extended_feature_info =
    machine Feature.fsgsbase (codes "RTE_MACHINE_CPUFLAG_FSGSBASE")
    ∷ both Feature.avx2 (codes "RTE_MACHINE_CPUFLAG_AVX2") (codes "RTE_CPUFLAG_AVX2")
    ∷ both Feature.avx512f (codes "RTE_MACHINE_CPUFLAG_AVX512F") (codes "RTE_CPUFLAG_AVX512F")
    ∷ []

-- The two vectors.
pub record Flags : Type 0 where
  pub cflags : List (List ℕ)
  pub compile_time_cpuflags : List (List ℕ)

push_cpuflag : Option (List ℕ) → List (List ℕ) → List (List ℕ)
push_cpuflag none flags = flags
push_cpuflag (some t) flags = flags ++ t ∷ []

unfoldable pub push : (Feature → Bool) → Push → Flags → Flags
unfolding push_cpuflag
push has p fl =
    if has p.feature
    then record {
      cflags = fl.cflags ++ p.cflag ∷ [];
      compile_time_cpuflags = push_cpuflag p.cpuflag fl.compile_time_cpuflags;
    }
    else fl

unfoldable pub pushes : (Feature → Bool) → List Push → Flags → Flags
unfolding push
pushes has [] fl = fl
pushes has (p ∷ ps) fl = pushes has ps (push has p fl)

-- `if let Some(features) = …`: the processor may not know the question.
unfoldable pub if_known : Option (Feature → Bool) → List Push → Flags → Flags
unfolding pushes
if_known none ps fl = fl
if_known (some has) ps fl = pushes has ps fl

unfoldable pub flags : Option (Feature → Bool) → Option (Feature → Bool) → Flags
unfolding if_known
flags features extended =
    if_known extended extended_feature_info
      (if_known features feature_info (record { cflags = []; compile_time_cpuflags = [] }))

-- `gen_cpu_features`: names with their values.
unfoldable pub gen_cpu_features :
    Option (Feature → Bool) → Option (Feature → Bool) → List (List ℕ × Option (List ℕ))
unfolding flags join
gen_cpu_features features extended =
    let fl = flags features extended in
    map (λ s. (s, none)) fl.cflags
    ++ (codes "RTE_COMPILE_TIME_CPUFLAGS", some (join fl.compile_time_cpuflags)) ∷ []
