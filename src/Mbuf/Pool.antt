-- ===== src/Mbuf/Pool.antt =====
-- `MBufPool`, `pool_create`, and the methods of `MBuf` in rte/src/mbuf.rs that check what a function of
-- the C library returns. Lengths are cut to 16 bits, as the casts do.
use rust_dpdk.Prelude.{ℕ, ◌+◌, ◌≡◌, refl, arith, ◌%◌, ◌^◌, List, ◌∷◌, [], ◌++◌, ℤ}
use rust_dpdk.Outcome.{done}
use rust_dpdk.Dpdk
use rust_dpdk.Dpdk.{Dpdk, Call, M, pure, call, ◌>>=◌}
use rust_dpdk.Errors.{Result, map_ok, as_result, ptr_as_result}

module _ (d : Dpdk) where
  -- A call whose pointer is checked, and one whose code is.
  checked_ptr : Call → M (Result ℕ)
  unfolding ptr_as_result
  checked_ptr c h =
      let after = h ++ c ∷ [] in (done (ptr_as_result (d.ptr h c) (d.errno after)), after)

  checked : Call → M (Result (Unit {0}))
  unfolding as_result
  checked c = do ret ← call d c; pure (map_ok (λ _. tt) (as_result ret))

  unfoldable pub pool_create : List ℕ → ℕ → ℕ → ℕ → ℕ → ℤ → M (Result ℕ)
  unfolding checked_ptr
  pool_create name n cache_size priv_size data_room_size socket_id =
      checked_ptr (Dpdk.pktmbuf_pool_create name n cache_size priv_size data_room_size socket_id)

  unfoldable pub alloc : ℕ → M (Result ℕ)
  unfolding checked_ptr
  alloc pool = checked_ptr (Dpdk.pktmbuf_alloc pool)

  unfoldable pub alloc_bulk : ℕ → ℕ → M (Result (Unit {0}))
  unfolding checked
  alloc_bulk pool len = checked (Dpdk.pktmbuf_alloc_bulk pool (len % 2 ^ 32))

  unfoldable pub clone_into : ℕ → ℕ → M (Result ℕ)
  unfolding checked_ptr
  clone_into pool mbuf = checked_ptr (Dpdk.pktmbuf_clone mbuf pool)

  unfoldable pub prepend : ℕ → ℕ → M (Result ℕ)
  unfolding checked_ptr
  prepend m len = checked_ptr (Dpdk.pktmbuf_prepend m (len % 2 ^ 16))

  unfoldable pub append : ℕ → ℕ → M (Result ℕ)
  unfolding checked_ptr
  append m len = checked_ptr (Dpdk.pktmbuf_append m (len % 2 ^ 16))

  unfoldable pub adj : ℕ → ℕ → M (Result ℕ)
  unfolding checked_ptr
  adj m len = checked_ptr (Dpdk.pktmbuf_adj m (len % 2 ^ 16))

  unfoldable pub trim : ℕ → ℕ → M (Result (Unit {0}))
  unfolding checked
  trim m len = checked (Dpdk.pktmbuf_trim m (len % 2 ^ 16))

  unfoldable pub chain : ℕ → ℕ → M (Result (Unit {0}))
  unfolding checked
  chain m tail = checked (Dpdk.pktmbuf_chain m tail)

  unfoldable pub validate_tx_offload : ℕ → M (Result (Unit {0}))
  unfolding checked
  validate_tx_offload m = checked (Dpdk.validate_tx_offload m)

  unfoldable pub linearize : ℕ → M (Result (Unit {0}))
  unfolding checked
  linearize m = checked (Dpdk.pktmbuf_linearize m)

-- A length is cut to 16 bits before the C library sees it: a request for 65536 more bytes than another
-- is made, logged and answered as that other one, by each of the four functions that take a length.
pub lengths_cut :
    (d : Dpdk) (m len : ℕ)
    → (prepend d m (len + 2 ^ 16) ≡ prepend d m len)
      × (append d m (len + 2 ^ 16) ≡ append d m len)
      × (adj d m (len + 2 ^ 16) ≡ adj d m len)
      × (trim d m (len + 2 ^ 16) ≡ trim d m len)
unfolding prepend append adj trim
lengths_cut d m len =
    let cut : (len + 2 ^ 16) % 2 ^ 16 ≡ len % 2 ^ 16 = omega arith in
    (rw cut refl, rw cut refl, rw cut refl, rw cut refl)
