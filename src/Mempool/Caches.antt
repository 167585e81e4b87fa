-- ===== src/Mempool/Caches.antt =====
-- The caches of rte/src/mempool.rs, the calls that take one, and the look-up of a pool by its name. A
-- pool and a cache are their addresses.
use rust_dpdk.Prelude.{
  ℕ, ◌≡◌, ◌≢◌, ◌%◌, ◌^◌, List, [], ◌∷◌, ◌++◌, Option, none, some, All, ℤ, refl, arith,
}
use rust_dpdk.Outcome.{done, halted, panicked}
use rust_dpdk.Dpdk
use rust_dpdk.Dpdk.{Dpdk, History, M, pure, lift, call, call_count, call_ptr, run, ◌>>=◌}
use rust_dpdk.Errors.{Result, ok, err, map_ok, as_result, ptr_as_result, rte_check_non_null}
use rust_dpdk.Utils.{from_ptr}
use rust_dpdk.Utils.Strings.{Heap, to_cptr, to_cptr_dangles, read_at}
use rust_dpdk.Lcore.{current, lcore_id_any}

module _ (d : Dpdk) where
  -- `Cache::create`: the size is cut to 32 bits, and a null pointer panics.
  unfoldable pub create : ℕ → ℤ → M ℕ
  unfolding from_ptr
  create size socket_id = do
    p ← call_ptr d (Dpdk.mempool_cache_create (size % 2 ^ 32) socket_id)
    lift (from_ptr p)

  unfoldable pub free : ℕ → M (Unit {0})
  free cache = run d (Dpdk.mempool_cache_free cache)

  unfoldable pub flush : ℕ → ℕ → M (Unit {0})
  flush pool cache = run d (Dpdk.mempool_cache_flush cache pool)

  unfoldable pub default_cache : ℕ → M (Option ℕ)
  unfolding current
  default_cache pool = do
    id ← call_count d Dpdk.lcore_id
    elim (current id) [
      | none ↦ pure none
      | some lcore ↦ call_ptr d (Dpdk.mempool_default_cache pool lcore)
    ]

  -- `generic_put` and `generic_get` of `n` objects: no cache is the null pointer.
  unfoldable pub generic_put : ℕ → ℕ → Option ℕ → M (Unit {0})
  generic_put pool n cache = run d (Dpdk.mempool_generic_put pool (n % 2 ^ 32) cache)

  unfoldable pub generic_get : ℕ → ℕ → Option ℕ → M (Result (Unit {0}))
  unfolding as_result
  generic_get pool n cache = do
    ret ← call d (Dpdk.mempool_generic_get pool (n % 2 ^ 32) cache)
    pure (map_ok (λ _. tt) (as_result ret))

  unfoldable pub get_contig_blocks : ℕ → ℕ → M (Result (Unit {0}))
  unfolding as_result
  get_contig_blocks pool n = do
    ret ← call d (Dpdk.mempool_get_contig_blocks pool (n % 2 ^ 32))
    pure (map_ok (λ _. tt) (as_result ret))

  -- The function `lookup`, whose name becomes a pointer by `to_cptr!`; `rte_errno` is read after the
  -- call.
  unfoldable pub lookup : List ℕ → Heap → M (Result ℕ × Heap)
  unfolding to_cptr read_at rte_check_non_null
  lookup name heap =
      let (made, after) = to_cptr name heap in
      elim made [
        | err e ↦ pure (err e, after)
        | ok at ↦ (do
          p ← call_ptr d (Dpdk.mempool_lookup_at (read_at after at))
          λ h. (done (rte_check_non_null p (d.errno h), after), h))
      ]

  -- The method `MemoryPool::lookup`, whose name is a `CString` that lives on during the call.
  unfoldable pub lookup_pool : List ℕ → M (Result ℕ)
  unfolding ptr_as_result
  lookup_pool name = do
    p ← call_ptr d (Dpdk.mempool_lookup name)
    λ h. (done (ptr_as_result p (d.errno h)), h)

  -- Where there is no memory for a cache `create` panics, though it could only report the error.
  pub create-panics :
      (size : ℕ) (socket_id : ℤ) (h : History)
      → d.ptr h (Dpdk.mempool_cache_create (size % 2 ^ 32) socket_id) ≡ none
      → (create size socket_id h).0 ≡ halted panicked
  unfolding create from_ptr
  create-panics size socket_id h e = ground (arith, e)

  -- A thread that is no core has no default cache, and none is asked for.
  pub default_cache-unknown :
      (pool : ℕ) (h : History)
      → d.count h Dpdk.lcore_id ≡ lcore_id_any
      → default_cache pool h ≡ (done none, h ++ Dpdk.lcore_id ∷ [])
  unfolding default_cache current
  default_cache-unknown pool h e = ground (arith, e)

  -- The function `lookup` lets DPDK read the name from freed memory; the method does not.
  pub lookup-freed :
      (name : List ℕ) (heap : Heap) (h : History)
      → All (λ c. c ≢ 0) name
      → ((lookup name heap h).1 ≡ h ++ Dpdk.mempool_lookup_at none ∷ [])
        × ((lookup_pool name h).1 ≡ h ++ Dpdk.mempool_lookup name ∷ [])
  unfolding lookup lookup_pool
  lookup-freed name heap h clean =
      let (made, freed, whole, refused) = to_cptr_dangles name [] heap clean in
      (ground (arith, made, freed), refl)
