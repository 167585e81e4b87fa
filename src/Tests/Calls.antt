-- ===== src/Tests/Calls.antt =====
-- Runs of the modules of rte/src/common.
use rust_dpdk.Prelude.{
  true, false, ◌%◌, ◌≡◌, ◌≢◌, [], ◌∷◌, none, negsuc, All, ltb, ◌^◌, if◌then◌else◌, refl, arith,
}
use rust_dpdk.Outcome.{done, halted, panicked}
use rust_dpdk.Dpdk
use rust_dpdk.Errors.{err, rte_error}
use rust_dpdk.Text.{codes}
use rust_dpdk.Cycles.{Duration, as_micros, delay, delay-exact, u32_result, subsec_micros}
use rust_dpdk.Devargs.{allowed, add, add-freed, freed_call}
use rust_dpdk.Tests.World.{working, broken}

-- An hour and twelve minutes.
abbrev long : Duration
long = record { secs = 4320; nanos = 7000 }

delay-exact_example : delay working false long [] ≡ (
    if ltb (as_micros long) (2 ^ 32)
    then (done tt, Dpdk.delay_us (as_micros long) ∷ [])
    else if false
    then (halted panicked, [])
    else (done tt, Dpdk.delay_us (as_micros long % 2 ^ 32) ∷ []))
delay-exact_example = delay-exact working false long [] (omega arith)

-- The wait of that time panics with overflow checks, and takes 25 seconds without.
long_panics : delay working true long [] ≡ (halted panicked, [])
unfolding delay
long_panics = refl

long_short : delay working false long [] ≡ (done tt, Dpdk.delay_us 25032711 ∷ [])
unfolding delay u32_result subsec_micros
long_short = refl

pci_clean : All (λ c. c ≢ 0) (codes "0:1")
pci_clean = (omega arith, (omega arith, (omega arith, tt)))

add-freed_example : add broken allowed (codes "0:1") [] [] ≡ (
  done (err (rte_error (negsuc 21)), none ∷ none ∷ []),
  freed_call allowed ∷ freed_call allowed ∷ [],
)
add-freed_example = add-freed broken allowed (codes "0:1") [] [] pci_clean
