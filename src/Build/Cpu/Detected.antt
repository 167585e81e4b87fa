-- ===== src/Build/Cpu/Detected.antt =====
-- What the flags of the processor say of it.
use mathlib.Core.List.{map-append}
use rust_dpdk.Prelude.{
  ℕ, ◌≡◌, ◌≢◌, ◌⊎◌, inl, inr, refl, List, [], ◌∷◌, ◌++◌, Option, none, some, Bool, true, false,
  if◌then◌else◌, map, filter, drop, All, All-append, arith, append_assoc, append-nil, Option-cases,
  Bool-cases, ap,
}
use rust_dpdk.Text.{codes}
use rust_dpdk.Text.Join.{NoComma, join, split-join}
use rust_dpdk.Text.Split.{split}
use rust_dpdk.Build.Cpu.{
  Feature, Push, Flags, feature_info, extended_feature_info, push, pushes, if_known, flags,
  gen_cpu_features,
}

-- How DPDK spells a feature, and which features it lists at compile time.
unfoldable pub dpdk_name : Feature → List ℕ
dpdk_name Feature.sse = codes "SSE"
dpdk_name Feature.sse2 = codes "SSE2"
dpdk_name Feature.sse3 = codes "SSE3"
dpdk_name Feature.ssse3 = codes "SSSE3"
dpdk_name Feature.sse41 = codes "SSE4_1"
dpdk_name Feature.sse42 = codes "SSE4_2"
dpdk_name Feature.aesni = codes "AES"
dpdk_name Feature.pclmulqdq = codes "PCLMULQDQ"
dpdk_name Feature.avx = codes "AVX"
dpdk_name Feature.rdrand = codes "RDRAND"
dpdk_name Feature.f16c = codes "F16C"
dpdk_name Feature.fsgsbase = codes "FSGSBASE"
dpdk_name Feature.avx2 = codes "AVX2"
dpdk_name Feature.avx512f = codes "AVX512F"

unfoldable pub is_listed : Feature → Bool
is_listed Feature.rdrand = false
is_listed Feature.f16c = false
is_listed Feature.fsgsbase = false
is_listed f = true

-- What there is to push for a feature.
unfoldable pub named : Feature → Push
unfolding dpdk_name is_listed
named f = record {
  feature = f;
  cflag = codes "RTE_MACHINE_CPUFLAG_" ++ dpdk_name f;
  cpuflag = if is_listed f then some (codes "RTE_CPUFLAG_" ++ dpdk_name f) else none;
}

-- The features of the first and of the second question, in order.
abbrev pub basic : List Feature
basic =
    Feature.sse ∷ Feature.sse2 ∷ Feature.sse3 ∷ Feature.ssse3 ∷ Feature.sse41 ∷ Feature.sse42
    ∷ Feature.aesni ∷ Feature.pclmulqdq ∷ Feature.avx ∷ Feature.rdrand ∷ Feature.f16c ∷ []

abbrev pub extra : List Feature
extra = Feature.fsgsbase ∷ Feature.avx2 ∷ Feature.avx512f ∷ []

basic-named : feature_info ≡ map named basic
unfolding feature_info named
basic-named = refl

extra-named : extended_feature_info ≡ map named extra
unfolding extended_feature_info named
extra-named = refl

-- The features that are answered with yes, in the order in which they are asked for.
asked : Option (Feature → Bool) → List Push → List Push
asked none ps = []
asked (some has) ps = filter (λ p. has p.feature) ps

unfoldable pub detected : Option (Feature → Bool) → Option (Feature → Bool) → List Push
unfolding asked
detected features extended = asked features (map named basic) ++ asked extended (map named extra)

-- The compile-time flags among them.
unfoldable pub cpuflags : List Push → List (List ℕ)
cpuflags [] = []
cpuflags (p ∷ ps) = elim p.cpuflag [ none ↦ cpuflags ps | some t ↦ t ∷ cpuflags ps ]

-- The name of a compile-time flag is that of its macro without `MACHINE_`, and has no comma.
abbrev pub IsNamed : Push → Type 0
IsNamed p =
    (p.cpuflag ≡ none)
    ⊎ (p.cpuflag ≡ some (codes "RTE_CPUFLAG_" ++ drop 20 p.cflag)) × NoComma (drop 20 p.cflag)

-- The flags `fl` and behind them those of some questions.
beyond : Flags → List Push → Flags
beyond fl ps = record {
  cflags = fl.cflags ++ map (λ p. p.cflag) ps;
  compile_time_cpuflags = fl.compile_time_cpuflags ++ cpuflags ps;
}

pushes-beyond :
    (has : Feature → Bool) (ps : List Push) (fl : Flags)
    → pushes has ps fl ≡ beyond fl (filter (λ p. has p.feature) ps)
unfolding pushes beyond cpuflags push filter
pushes-beyond has [] fl = ground (arith, append-nil fl.cflags, append-nil fl.compile_time_cpuflags)
pushes-beyond has (p ∷ ps) fl =
    let rest = map (λ (q : Push). q.cflag) (filter (λ (q : Push). has q.feature) ps) in
    let behind = cpuflags (filter (λ (q : Push). has q.feature) ps) in
    let lines = append_assoc fl.cflags (p.cflag ∷ []) rest in
    elim (Option-cases p.cpuflag) [
      | inl bare ↦ ground (arith, pushes-beyond has ps (push has p fl), lines, bare)
      | inr (t, some_t) ↦ ground (
        arith,
        pushes-beyond has ps (push has p fl),
        lines,
        some_t,
        append_assoc fl.compile_time_cpuflags (t ∷ []) behind,
      )
    ]

if_known-beyond :
    (known : Option (Feature → Bool)) (ps : List Push) (fl : Flags)
    → if_known known ps fl ≡ beyond fl (asked known ps)
unfolding if_known asked beyond cpuflags
if_known-beyond none ps fl =
    ground (arith, append-nil fl.cflags, append-nil fl.compile_time_cpuflags)
if_known-beyond (some has) ps fl = pushes-beyond has ps fl

cpuflags-append : (ps qs : List Push) → cpuflags (ps ++ qs) ≡ cpuflags ps ++ cpuflags qs
unfolding cpuflags
cpuflags-append [] qs = refl
cpuflags-append (p ∷ ps) qs = ground (arith, cpuflags-append ps qs)

flags-detected :
    (features extended : Option (Feature → Bool))
    → flags features extended ≡ record {
      cflags = map (λ p. p.cflag) (detected features extended);
      compile_time_cpuflags = cpuflags (detected features extended);
    }
unfolding flags detected beyond
flags-detected features extended =
    let first = asked features (map named basic) in
    let second = asked extended (map named extra) in
    let start : Flags = record { cflags = []; compile_time_cpuflags = [] } in
    rw (basic-named, extra-named)
      (ground (
        arith,
        if_known-beyond features (map named basic) start,
        if_known-beyond extended (map named extra) (beyond start first),
        cpuflags-append first second,
        map-append (λ (p : Push). p.cflag) first second,
      ))

asked-IsNamed :
    (known : Option (Feature → Bool)) (ps : List Push)
    → All IsNamed ps
    → All IsNamed (asked known ps)
unfolding asked filter
asked-IsNamed none ps h = tt
asked-IsNamed (some has) [] h = tt
asked-IsNamed (some has) (p ∷ ps) (hp, hs) = elim (Bool-cases (has p.feature)) [
  | inl yes_p ↦ rw yes_p (hp, asked-IsNamed (some has) ps hs)
  | inr no_p ↦ rw no_p (asked-IsNamed (some has) ps hs)
]

tables-IsNamed : All IsNamed (map named basic) × All IsNamed (map named extra)
unfolding named
tables-IsNamed = (
  (
    inr (refl, omega arith),
    (
      inr (refl, omega arith),
      (
        inr (refl, omega arith),
        (
          inr (refl, omega arith),
          (
            inr (refl, omega arith),
            (
              inr (refl, omega arith),
              (
                inr (refl, omega arith),
                (inr (refl, omega arith), (inr (refl, omega arith), (inl refl, (inl refl, tt)))),
              ),
            ),
          ),
        ),
      ),
    ),
  ),
  (inl refl, (inr (refl, omega arith), (inr (refl, omega arith), tt))),
)

cpuflags-NoComma : (ps : List Push) → All IsNamed ps → All NoComma (cpuflags ps)
unfolding cpuflags
cpuflags-NoComma [] h = tt
cpuflags-NoComma (p ∷ ps) (inl bare, hs) = rw bare (cpuflags-NoComma ps hs)
cpuflags-NoComma (p ∷ ps) (inr (named, clean), hs) = rw named (
  All-append (λ c. c ≢ 44) (codes "RTE_CPUFLAG_") (drop 20 p.cflag) (omega arith) clean,
  cpuflags-NoComma ps hs,
)

detected-IsNamed :
    (features extended : Option (Feature → Bool)) → All IsNamed (detected features extended)
unfolding detected
detected-IsNamed features extended =
    let (first, more) = tables-IsNamed in
    All-append IsNamed (asked features (map named basic)) (asked extended (map named extra))
      (asked-IsNamed features (map named basic) first)
      (asked-IsNamed extended (map named extra) more)

macros :
    (ps : List Push)
    → ◌≡◌ {A = List (List ℕ × Option (List ℕ))}
        (map (λ s. (s, none)) (map (λ p. p.cflag) ps))
        (map (λ p. (p.cflag, none)) ps)
macros [] = refl
macros (p ∷ ps) = ap (λ (r : List (List ℕ × Option (List ℕ))). (p.cflag, none) ∷ r) (macros ps)

split-flags : (ts : List (List ℕ)) → ts ≢ [] → All NoComma ts → split 44 (join ts) ≡ ts
split-flags [] h c = absurd (h refl)
split-flags (t ∷ ts) h (ct, cs) = split-join t ts ct cs

-- The C compiler is given the macro of each feature that the processor has, which is named after the
-- feature, in the order of the questions, and one list besides; where the list is not empty it reads
-- back, split at its commas, as the compile-time flags of just these features, each named as its macro
-- without `MACHINE_`.
pub gen_cpu_features-detected :
    (features extended : Option (Feature → Bool))
    → let found = detected features extended in
      cpuflags found ≢ []
      → (gen_cpu_features features extended
          ≡ map (λ p. (p.cflag, none)) found
            ++ (codes "RTE_COMPILE_TIME_CPUFLAGS", some (join (cpuflags found))) ∷ [])
        × (split 44 (join (cpuflags found)) ≡ cpuflags found)
        × All IsNamed found
unfolding gen_cpu_features
gen_cpu_features-detected features extended h =
    let found = detected features extended in
    let names = detected-IsNamed features extended in
    (
      rw (flags-detected features extended) (rw (macros found)),
      split-flags (cpuflags found) h (cpuflags-NoComma found names),
      names,
    )
