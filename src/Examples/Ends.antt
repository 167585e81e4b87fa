-- ===== src/Examples/Ends.antt =====
-- Programs that never end with their work done: each run stops by a panic or an exit.
use rust_dpdk.Prelude.{◌≡◌, inl, inr, arith}
use rust_dpdk.Outcome.{Outcome, Outcome-cases, Halt, halted}
use rust_dpdk.Dpdk.{History, M, ◌>>=◌}

unfoldable pub IsHalted : {A : Type 0} → Outcome A → Type 0
IsHalted o = (x : Halt) × (o ≡ halted x)

-- A computation that never ends with a value.
unfoldable pub NeverEnds : {A : Type 0} → M A → Type 0
unfolding IsHalted
NeverEnds m = (h : History) → IsHalted (m h).0

module _ {A B : Type 0} where
  pub stops_first : (m : M A) (f : A → M B) → NeverEnds m → NeverEnds (m >>= f)
  unfolding NeverEnds IsHalted
  stops_first m f never h = let (x, e) = never h in (x, ground (arith, e))

  pub stops_then : (m : M A) (f : A → M B) → ((a : A) → NeverEnds (f a)) → NeverEnds (m >>= f)
  unfolding NeverEnds IsHalted
  stops_then m f never h = elim (Outcome-cases (m h).0) [
    | inl (a, e) ↦ let (x, e') = never a (m h).1 in (x, ground (arith, e, e'))
    | inr (x, e) ↦ (x, ground (arith, e))
  ]
