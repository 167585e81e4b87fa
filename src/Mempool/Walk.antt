-- ===== src/Mempool/Walk.antt =====
-- The callbacks of rte/src/mempool.rs: the stubs that C code calls for each object, for each chunk of
-- memory, for each pool, or once for a new pool.
use rust_dpdk.Prelude.{ℕ, ◌≡◌, List, [], ◌∷◌, ◌++◌, Option, none, some}
use rust_dpdk.Utils.Callbacks.{
  CallbackContext, Contexts, stub, handed, handed-one, handed-more, handed-none,
}

module _ {T R : Type 0} where
  -- `obj_cb_stub`; the code passes the pool, the object and its index.
  unfoldable pub obj_cb_stub :
      ℕ
      → ℕ × ℕ × ℕ
      → Contexts (ℕ → Option T → ℕ → ℕ → R) (Option T)
      → Option (R × Contexts (ℕ → Option T → ℕ → ℕ → R) (Option T))
  unfolding stub
  obj_cb_stub = stub (λ callback arg x. callback x.0 arg x.1 x.2)

  -- `mem_cb_stub`, with the pool, the chunk and its index.
  unfoldable pub mem_cb_stub :
      ℕ
      → ℕ × ℕ × ℕ
      → Contexts (ℕ → Option T → ℕ → ℕ → R) (Option T)
      → Option (R × Contexts (ℕ → Option T → ℕ → ℕ → R) (Option T))
  unfolding stub
  mem_cb_stub = stub (λ callback arg x. callback x.0 arg x.1 x.2)

  -- `pool_walk_stub` and `mp_init_stub`, with the pool.
  unfoldable pub pool_walk_stub :
      ℕ
      → ℕ
      → Contexts (ℕ → Option T → R) (Option T)
      → Option (R × Contexts (ℕ → Option T → R) (Option T))
  unfolding stub
  pool_walk_stub = stub (λ callback arg mp. callback mp arg)

  unfoldable pub mp_init_stub :
      ℕ
      → ℕ
      → Contexts (ℕ → Option T → R) (Option T)
      → Option (R × Contexts (ℕ → Option T → R) (Option T))
  unfolding stub
  mp_init_stub = stub (λ callback arg mp. callback mp arg)

  -- `MemoryPool::walk` over the objects of a pool, and `walk` over all pools.
  unfoldable pub walk_objects :
      (ℕ → Option T → ℕ → ℕ → R)
      → Option T
      → List (ℕ × ℕ × ℕ)
      → Contexts (ℕ → Option T → ℕ → ℕ → R) (Option T)
      → Option (List R × Contexts (ℕ → Option T → ℕ → ℕ → R) (Option T))
  unfolding obj_cb_stub handed
  walk_objects callback arg objs boxes =
      handed obj_cb_stub (record { callback = callback; arg = arg }) objs boxes

  unfoldable pub walk_pools :
      (ℕ → Option T → R)
      → Option T
      → List ℕ
      → Contexts (ℕ → Option T → R) (Option T)
      → Option (List R × Contexts (ℕ → Option T → R) (Option T))
  unfolding pool_walk_stub handed
  walk_pools callback arg pools boxes =
      handed pool_walk_stub (record { callback = callback; arg = arg }) pools boxes

  -- A walk over a single object calls the callback and frees its context; a walk over no object never
  -- frees it; and a walk over two or more objects, or over two or more pools, uses the context at the
  -- second one after the first has freed it.
  pub walks_free :
      (callback : ℕ → Option T → ℕ → ℕ → R) (pool_callback : ℕ → Option T → R) (arg : Option T)
      (x y : ℕ × ℕ × ℕ) (xs : List (ℕ × ℕ × ℕ)) (p q : ℕ) (ps : List ℕ)
      (boxes : Contexts (ℕ → Option T → ℕ → ℕ → R) (Option T))
      (pool_boxes : Contexts (ℕ → Option T → R) (Option T))
      → (walk_objects callback arg (x ∷ []) boxes
          ≡ some (callback x.0 arg x.1 x.2 ∷ [], boxes ++ none ∷ []))
        × (walk_objects callback arg (x ∷ y ∷ xs) boxes ≡ none)
        × (walk_objects callback arg [] boxes
            ≡ some ([], boxes ++ some (record { callback = callback; arg = arg }) ∷ []))
        × (walk_pools pool_callback arg (p ∷ q ∷ ps) pool_boxes ≡ none)
  unfolding walk_objects walk_pools obj_cb_stub pool_walk_stub
  walks_free callback pool_callback arg x y xs p q ps boxes pool_boxes =
      let c : CallbackContext (ℕ → Option T → ℕ → ℕ → R) (Option T) = record {
        callback = callback;
        arg = arg;
      } in
      let over_pool : CallbackContext (ℕ → Option T → R) (Option T) = record {
        callback = pool_callback;
        arg = arg;
      } in
      (
        handed-one (λ f a z. f z.0 a z.1 z.2) c x boxes,
        handed-more (λ f a z. f z.0 a z.1 z.2) c x y xs boxes,
        handed-none (λ f a (z : ℕ × ℕ × ℕ). f z.0 a z.1 z.2) c boxes,
        handed-more (λ f a mp. f mp a) over_pool p q ps pool_boxes,
      )
