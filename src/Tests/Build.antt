-- ===== src/Tests/Build.antt =====
-- Runs of the build scripts.
use rust_dpdk.Prelude.{
  ℕ, ◌≡◌, ◌≢◌, List, [], ◌∷◌, ◌++◌, none, some, Bool, true, false, refl, filter, map, All,
}
use rust_dpdk.Text.{codes}
use rust_dpdk.Text.Join.{join}
use rust_dpdk.Text.Split.{split}
use rust_dpdk.Build.Cpu.{Feature, gen_cpu_features}
use rust_dpdk.Build.Cpu.Detected.{detected, named, cpuflags, IsNamed, gen_cpu_features-detected}
use rust_dpdk.Build.Libs.{contains, core_libs, pmd_libs, pmd, merge, core_libs-pmd_libs}

-- A processor with three of the features.
old_cpu : Feature → Bool
old_cpu Feature.sse = true
old_cpu Feature.avx = true
old_cpu Feature.rdrand = true
old_cpu _ = false

old_flags :
    cpuflags (detected (some old_cpu) none) ≡ codes "RTE_CPUFLAG_SSE" ∷ codes "RTE_CPUFLAG_AVX" ∷ []
unfolding cpuflags detected old_cpu named filter
old_flags = refl

old_any : cpuflags (detected (some old_cpu) none) ≢ []
old_any e = cc (old_flags, e)

gen_cpu_features-detected_example :
    (gen_cpu_features (some old_cpu) none
      ≡ map (λ p. (p.cflag, none)) (detected (some old_cpu) none)
        ++ (
          codes "RTE_COMPILE_TIME_CPUFLAGS",
          some (join (cpuflags (detected (some old_cpu) none))),
        )
          ∷ [])
    × (split 44 (join (cpuflags (detected (some old_cpu) none)))
        ≡ cpuflags (detected (some old_cpu) none))
    × All IsNamed (detected (some old_cpu) none)
gen_cpu_features-detected_example = gen_cpu_features-detected (some old_cpu) none old_any

abbrev libs : List (List ℕ)
libs = codes "rte_eal" ∷ codes "rte_pmd_ring" ∷ codes "rte_net" ∷ []

core_libs-pmd_libs_example :
    (merge (map (contains pmd) libs) (core_libs libs) (pmd_libs libs) ≡ libs)
    × All (λ l. contains pmd l ≡ false) (core_libs libs)
    × All (λ l. contains pmd l ≡ true) (pmd_libs libs)
core_libs-pmd_libs_example = core_libs-pmd_libs libs
