-- ===== src/Mempool.antt =====
-- rte/src/mempool.rs: memory pools. The functions of the C library are parameters, over the memory `S` of
-- a pool; an object is its address.
pub mod Walk
pub mod Create
pub mod Caches
pub mod Drained
use rust_dpdk.Prelude.{
  ℕ, zero, suc, ◌+◌, ◌≡◌, ◌≤◌, List, [], ◌∷◌, Option, none, some, Bool, ◌==◌, ℤ, pos, negsuc,
  length,
}
use rust_dpdk.Outcome.{Outcome, done, halted, ◌>>=◌}
use rust_dpdk.Errors.{Result, ok, err, map_ok, as_result}
use rust_dpdk.Utils.{from_ptr}

-- `_rte_mempool_get` with its code and the pointer that it leaves in `obj`, which is null before;
-- `_rte_mempool_get_bulk` with the pointers that it writes; `_rte_mempool_put`, `_rte_mempool_put_bulk`,
-- `rte_mempool_avail_count`, and the field `size`.
pub record PoolFns (S : Type 0) : Type 0 where
  pub get_fn : S → ℤ × Option ℕ × S
  pub get_bulk_fn : ℕ → S → ℤ × List ℕ × S
  pub put_fn : ℕ → S → S
  pub put_bulk_fn : List ℕ → S → S
  pub avail_count_fn : S → ℕ
  pub size : S → ℕ

-- The object of a pointer where the code is no error: `From<*mut T>` refuses null by a panic.
object_of : Result ℤ → Option ℕ → Outcome (Result ℕ)
unfolding from_ptr
object_of (err e) obj = done (err e)
object_of (ok ret) obj = from_ptr obj >>= λ p. done (ok p)

module _ {S : Type 0} (fns : PoolFns S) where
  unfoldable pub avail_count : S → ℕ
  avail_count s = fns.avail_count_fn s

  unfoldable pub is_full : S → Bool
  unfolding avail_count
  is_full s = avail_count s == fns.size s

  unfoldable pub is_empty : S → Bool
  unfolding avail_count
  is_empty s = avail_count s == 0

  unfoldable pub put : ℕ → S → S
  put obj s = fns.put_fn obj s

  unfoldable pub put_bulk : List ℕ → S → S
  put_bulk objs s = fns.put_bulk_fn objs s

  unfoldable pub get : S → Outcome (Result ℕ) × S
  unfolding as_result object_of
  get s = let (ret, obj, s') = fns.get_fn s in (object_of (as_result ret) obj, s')

  -- `get_bulk` into `n` places, with what stands in them behind it.
  unfoldable pub get_bulk : ℕ → S → Result (Unit {0}) × List ℕ × S
  unfolding as_result
  get_bulk n s =
      let (ret, objs, s') = fns.get_bulk_fn n s in (map_ok (λ _. tt) (as_result ret), objs, s')

-- What the manual of the C library says of `rte_mempool_get`: from the objects that the calling core can
-- reach, which are those of its own cache and of the common pool, it takes one and returns 0, and where
-- there are none it returns -ENOENT and leaves the pointer as it is. The objects in the caches of other
-- cores, which `rte_mempool_avail_count` counts too, cannot be reached.
pub record GetLaws {S : Type 0} (fns : PoolFns S) : Type 0 where
  pub reachable : S → ℕ
  pub reachable_avail : (s : S) → reachable s ≤ fns.avail_count_fn s
  pub object : S → ℕ
  pub get_some :
      (s : S) (n : ℕ)
      → reachable s ≡ suc n
      → (s' : S) × (fns.get_fn s ≡ (pos 0, some (object s), s')) × (reachable s' ≡ n)
  pub get_none : (s : S) → reachable s ≡ 0 → fns.get_fn s ≡ (negsuc 1, none, s)
