-- ===== src/Mempool/Drained.antt =====
-- Taking objects out of a pool of rte/src/mempool.rs until the calling core reaches none.
use rust_dpdk.Prelude.{ℕ, zero, suc, ◌<◌, ◌≡◌, List, [], ◌∷◌, some, pos, length, arith, refl}
use rust_dpdk.Outcome.{Outcome, done, halted, panicked}
use rust_dpdk.Errors.{Result, ok, err, as_result, Error}
use rust_dpdk.Utils.{from_ptr, from_raw}
use rust_dpdk.Mempool.{PoolFns, GetLaws, get, object_of}

-- What taking several objects leads to: the objects, an error, or a panic.
pub data Taken : Type 0 where
  objects : List ℕ → Taken
  refused : Error → Taken
  panics : Taken

with_object : ℕ → Taken → Taken
with_object p (objects ps) = objects (p ∷ ps)
with_object p (refused e) = refused e
with_object p panics = panics

module _ {S : Type 0} (fns : PoolFns S) where
  take_next : Outcome (Result ℕ) → Taken → Taken
  unfolding with_object
  take_next (halted x) rest = panics
  take_next (done (err e)) rest = refused e
  take_next (done (ok p)) rest = with_object p rest

  -- `n` calls of `get`, up to the first that does not give an object.
  unfoldable pub take_objects : ℕ → S → Taken
  unfolding get take_next
  take_objects zero s = objects []
  take_objects (suc n) s =
      let (r, s') = get fns s in let rest = take_objects n s' in take_next r rest

  module _ (laws : GetLaws fns) where
    get-some :
        (s s' : S) {p : ℕ} → fns.get_fn s ≡ (pos 0, some p, s') → get fns s ≡ (done (ok p), s')
    unfolding get object_of as_result from_ptr from_raw
    get-some s s' e = ground (arith, e)

    get-none : (s : S) → laws.reachable s ≡ 0 → (get fns s).0 ≡ halted panicked
    unfolding get object_of as_result from_ptr from_raw
    get-none s e = ground (arith, laws.get_none s e)

    -- A pool of which the calling core can reach `n` objects gives an object to each of the first `n`
    -- calls of `get`; the call that finds none panics instead of returning the error, though other cores
    -- may have objects in their caches.
    pub get_drained :
        (n m : ℕ) (s : S)
        → laws.reachable s ≡ n
        → n < m
        → ((ps : List ℕ) × (take_objects n s ≡ objects ps) × (length ps ≡ n))
          × (take_objects m s ≡ panics)
    unfolding take_objects with_object take_next
    get_drained n zero s e h = absurd (omega (arith, h))
    get_drained zero (suc m) s e h = (([], refl, refl), ground (arith, get-none s e))
    get_drained (suc n) (suc m) s e h =
        let (s', took, left) = laws.get_some s n e in
        let ((ps, took_rest, all), dry) = get_drained n m s' left (omega (arith, h)) in
        let one = get-some s s' {p = laws.object s} took in
        (
          (laws.object s ∷ ps, grind (arith, one, took_rest), omega (arith, all)),
          grind (arith, one, dry),
        )
