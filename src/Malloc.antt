-- ===== src/Malloc.antt =====
-- rte/src/common/malloc.rs: memory of the huge pages. A pointer is its address, and null is `none`. The
-- tags are string literals of Rust, which have no zero byte behind them: what C code reads at their
-- pointer is `none` where it runs past the end.
use rust_dpdk.Prelude.{
  ℕ, ◌≡◌, ◌≢◌, List, [], ◌∷◌, ◌++◌, Option, none, some, true, false, All, ℤ, is_zero, refl, arith,
}
use rust_dpdk.Outcome.{done}
use rust_dpdk.Dpdk
use rust_dpdk.Dpdk.{Dpdk, History, M, pure, call, call_ptr, run, ◌>>=◌}
use rust_dpdk.Utils.Strings.{c_text}

abbrev cache_line_size : ℕ
cache_line_size = 64

module _ (d : Dpdk) where
  unfoldable pub malloc : List ℕ → ℕ → ℕ → M (Option ℕ)
  unfolding c_text
  malloc tag size align = call_ptr d (Dpdk.rte_malloc (c_text tag) size align)

  unfoldable pub zmalloc : List ℕ → ℕ → ℕ → M (Option ℕ)
  unfolding c_text
  zmalloc tag size align = call_ptr d (Dpdk.rte_zmalloc (c_text tag) size align)

  unfoldable pub calloc : List ℕ → ℕ → ℕ → ℕ → M (Option ℕ)
  unfolding c_text
  calloc tag num size align = call_ptr d (Dpdk.rte_calloc (c_text tag) num size align)

  unfoldable pub realloc : ℕ → ℕ → ℕ → M (Option ℕ)
  realloc p size align = call_ptr d (Dpdk.rte_realloc p size align)

  unfoldable pub malloc_socket : List ℕ → ℕ → ℕ → ℤ → M (Option ℕ)
  unfolding c_text
  malloc_socket tag size align socket_id =
      call_ptr d (Dpdk.rte_malloc_socket (c_text tag) size align socket_id)

  unfoldable pub zmalloc_socket : List ℕ → ℕ → ℕ → ℤ → M (Option ℕ)
  unfolding c_text
  zmalloc_socket tag size align socket_id =
      call_ptr d (Dpdk.rte_zmalloc_socket (c_text tag) size align socket_id)

  unfoldable pub calloc_socket : List ℕ → ℕ → ℕ → ℕ → ℤ → M (Option ℕ)
  unfolding c_text
  calloc_socket tag num size align socket_id =
      call_ptr d (Dpdk.rte_calloc_socket (c_text tag) num size align socket_id)

  unfoldable pub free : ℕ → M (Unit {0})
  free p = run d (Dpdk.free_ptr p)

  -- `rte_new!` of a type with its name and its size.
  unfoldable pub rte_new : List ℕ → ℕ → M (Option ℕ)
  unfolding zmalloc
  rte_new name size = zmalloc name size cache_line_size

  -- `rte_new_array!`: a slice of `num` places at the pointer, which is not tested.
  unfoldable pub rte_new_array : List ℕ → ℕ → ℕ → M (Option ℕ × ℕ)
  unfolding calloc
  rte_new_array name size num = do p ← calloc name num size cache_line_size; pure (p, num)

  module _ {A : Type 0} (written : History → ℤ → A) where
    -- `get_socket_stats`; `written` is what the call writes through its pointer.
    unfoldable pub get_socket_stats : ℤ → M (Option A)
    get_socket_stats socket_id h =
        (do
          ret ← call d (Dpdk.malloc_get_socket_stats socket_id)
          elim (is_zero ret) [ true ↦ pure (some (written h socket_id)) | false ↦ pure none ])
          h

-- A tag without a zero byte has no end for C code.
pub tag-overread : (tag : List ℕ) → All (λ c. c ≢ 0) tag → c_text tag ≡ none
unfolding c_text
tag-overread [] h = refl
tag-overread (c ∷ tag) (hc, rest) = ground (arith, tag-overread tag rest)

-- An allocation with a tag without a zero byte gives C code a text that has no end, and an array that DPDK has no memory for is a slice at the null pointer.
pub allocations-overread :
    (d : Dpdk) (tag : List ℕ) (size align num : ℕ) (socket_id : ℤ) (h : History)
    → All (λ c. c ≢ 0) tag
    → ((malloc d tag size align h).1 ≡ h ++ Dpdk.rte_malloc none size align ∷ [])
      × ((zmalloc_socket d tag size align socket_id h).1
          ≡ h ++ Dpdk.rte_zmalloc_socket none size align socket_id ∷ [])
      × (rte_new_array d tag size num h ≡ (
        done (d.ptr h (Dpdk.rte_calloc none num size 64), num),
        h ++ Dpdk.rte_calloc none num size 64 ∷ [],
      ))
unfolding malloc zmalloc_socket rte_new_array calloc
allocations-overread d tag size align num socket_id h clean =
    let past = tag-overread tag clean in
    (ground (arith, past), ground (arith, past), ground (arith, past))
