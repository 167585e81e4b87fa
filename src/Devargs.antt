-- ===== src/Devargs.antt =====
-- rte/src/common/devargs.rs: the list of devices that the user names.
use rust_dpdk.Prelude.{
  ℕ, ◌≡◌, ◌≢◌, List, [], ◌∷◌, ◌++◌, none, true, false, is_zero, ℤ, All, arith, inl, inr, Bool-cases,
  if◌then◌else◌,
}
use rust_dpdk.Outcome.{done}
use rust_dpdk.Dpdk
use rust_dpdk.Dpdk.{Dpdk, Call, History, M, pure, call, call_count, ◌>>=◌}
use rust_dpdk.Errors.{Result, ok, err, rte_error}
use rust_dpdk.Utils.Strings.{Heap, to_cptr, to_cptr_dangles, read_at}

pub data DevType : Type 0 where
  allowed blocked virtual : DevType

-- The constants `RTE_DEVTYPE_*`.
unfoldable pub devtype_number : DevType → ℕ
devtype_number allowed = 0
devtype_number blocked = 1
devtype_number virtual = 2

-- The call with a pointer to a string that is freed already.
abbrev pub freed_call : DevType → Call
freed_call devtype = Dpdk.devargs_add (devtype_number devtype) none

module _ (d : Dpdk) where
  -- The argument of `rte_check!` in `add`: the text becomes a pointer, or `try!` returns from `add`,
  -- and C code is called, with what the pointer points to then.
  unfoldable pub add_call : DevType → List ℕ → Heap → M (Result ℤ × Heap)
  unfolding devtype_number to_cptr read_at
  add_call devtype devargs heap =
      let (made, after) = to_cptr devargs heap in
      elim made [
        | err e ↦ pure (err e, after)
        | ok p ↦ (do
          ret ← call d (Dpdk.devargs_add (devtype_number devtype) (read_at after p))
          pure (ok ret, after))
      ]

  -- What the macro does with the code of the first call: its argument once more where that is not 0.
  unfoldable pub checked : DevType → List ℕ → Heap → ℤ → M (Result (Unit {0}) × Heap)
  unfolding add_call
  checked devtype devargs heap ret = elim (is_zero ret) [
    | true ↦ pure (ok tt, heap)
    | false ↦ (do
      again ← add_call devtype devargs heap
      elim again.0 [
        | err e ↦ pure (err e, again.1)
        | ok code ↦ pure (err (rte_error code), again.1)
      ])
  ]

  unfoldable pub add : DevType → List ℕ → Heap → M (Result (Unit {0}) × Heap)
  unfolding add_call checked
  add devtype devargs heap = do
    first ← add_call devtype devargs heap
    elim first.0 [ err e ↦ pure (err e, first.1) | ok ret ↦ checked devtype devargs first.1 ret ]

  unfoldable pub type_count : DevType → M ℕ
  unfolding devtype_number
  type_count devtype = call_count d (Dpdk.devargs_type_count (devtype_number devtype))

  pub add_call-freed :
      (devtype : DevType) (devargs : List ℕ) (heap : Heap) (h : History)
      → All (λ c. c ≢ 0) devargs
      → add_call devtype devargs heap h ≡ (
        done (ok (d.ret h (freed_call devtype)), heap ++ none ∷ []),
        h ++ freed_call devtype ∷ [],
      )
  unfolding add_call
  add_call-freed devtype devargs heap h clean =
      let (made, freed, whole, refused) = to_cptr_dangles devargs [] heap clean in
      ground (arith, made, freed)

  -- Of a text without a zero byte, C code gets a pointer to freed memory. Where it answers 0, that is
  -- the one call; else it is called a second time, with a second such pointer, and the error holds the
  -- code of the second call, whether or not that is 0.
  pub add-freed :
      (devtype : DevType) (devargs : List ℕ) (heap : Heap) (h : History)
      → All (λ c. c ≢ 0) devargs
      → let c = freed_call devtype in
        add devtype devargs heap h ≡ (
          if is_zero (d.ret h c) then (done (ok tt, heap ++ none ∷ []), h ++ c ∷ []) else (
            done (err (rte_error (d.ret (h ++ c ∷ []) c)), (heap ++ none ∷ []) ++ none ∷ []),
            (h ++ c ∷ []) ++ c ∷ [],
          ))
  unfolding add checked
  add-freed devtype devargs heap h clean =
      let c = freed_call devtype in
      let first = add_call-freed devtype devargs heap h clean in
      let again = add_call-freed devtype devargs (heap ++ none ∷ []) (h ++ c ∷ []) clean in
      elim (Bool-cases (is_zero (d.ret h c))) [
        | inl zero_code ↦ ground (arith, first, zero_code)
        | inr bad_code ↦ ground (arith, first, bad_code, again)
      ]
