-- ===== src/Mbuf/Plain.antt =====
-- The methods of `MBuf`, `ExtSharedInfo` and `MBufPool` in rte/src/mbuf.rs that make one call of the C
-- library and check no code. A buffer is its address, and a null pointer is `none`.
use rust_dpdk.Prelude.{
  ℕ, ◌≡◌, ◌+◌, ◌%◌, ◌^◌, List, [], ◌∷◌, ◌++◌, Option, none, some, Bool, not, ℤ, is_zero, refl,
  arith,
}
use rust_dpdk.Outcome.{done, unwrap}
use rust_dpdk.Dpdk
use rust_dpdk.Dpdk.{Dpdk, Call, History, M, pure, lift, call, call_count, call_ptr, run, ◌>>=◌}
use rust_dpdk.Errors.{Result, ptr_as_result}
use rust_dpdk.Utils.{bool_value}
use rust_dpdk.Mbuf.{RawMbuf}

-- `pkt_len` and `data_len` of the fields.
unfoldable pub pkt_len : RawMbuf → ℕ
pkt_len m = m.pkt_len

unfoldable pub data_len : RawMbuf → ℕ
data_len m = m.data_len

module _ (d : Dpdk) where
  -- A pointer that must not be null.
  not_null : Call → M ℕ
  not_null c = do p ← call_ptr d c; lift (unwrap p)

  unfoldable pub buf_addr : ℕ → M ℕ
  unfolding not_null
  buf_addr m = not_null (Dpdk.mbuf_to_baddr m)

  unfoldable pub priv_addr : ℕ → M ℕ
  unfolding not_null
  priv_addr m = not_null (Dpdk.mbuf_to_priv m)

  unfoldable pub prefetch_part1 : ℕ → M (Unit {0})
  prefetch_part1 m = run d (Dpdk.mbuf_prefetch_part1 m)

  unfoldable pub prefetch_part2 : ℕ → M (Unit {0})
  prefetch_part2 m = run d (Dpdk.mbuf_prefetch_part2 m)

  unfoldable pub free : ℕ → M (Unit {0})
  free m = run d (Dpdk.pktmbuf_free m)

  unfoldable pub free_seg : ℕ → M (Unit {0})
  free_seg m = run d (Dpdk.pktmbuf_free_seg m)

  unfoldable pub refcnt_read : ℕ → M ℕ
  refcnt_read m = call_count d (Dpdk.mbuf_refcnt_read m)

  unfoldable pub refcnt_set : ℕ → ℕ → M (Unit {0})
  refcnt_set m new = run d (Dpdk.mbuf_refcnt_set m new)

  unfoldable pub refcnt_update : ℕ → ℤ → M ℕ
  refcnt_update m new = call_count d (Dpdk.mbuf_refcnt_update m new)

  unfoldable pub sanity_check : ℕ → Bool → M (Unit {0})
  unfolding bool_value
  sanity_check m is_header = run d (Dpdk.mbuf_sanity_check m (bool_value is_header))

  unfoldable pub reset_headroom : ℕ → M (Unit {0})
  reset_headroom m = run d (Dpdk.pktmbuf_reset_headroom m)

  unfoldable pub reset : ℕ → M (Unit {0})
  reset m = run d (Dpdk.pktmbuf_reset m)

  unfoldable pub headroom : ℕ → M ℕ
  headroom m = call_count d (Dpdk.pktmbuf_headroom m)

  unfoldable pub tailroom : ℕ → M ℕ
  tailroom m = call_count d (Dpdk.pktmbuf_tailroom m)

  unfoldable pub is_contiguous : ℕ → M Bool
  is_contiguous m = do ret ← call d (Dpdk.pktmbuf_is_contiguous m); pure (not (is_zero ret))

  -- `read` into a buffer of `len` bytes: the slice at the pointer that the call gives, with its length.
  unfoldable pub read : ℕ → ℕ → ℕ → M (Option (ℕ × ℕ))
  read m off len = do
    p ← call_ptr d (Dpdk.pktmbuf_read m (off % 2 ^ 32) (len % 2 ^ 32))
    pure (elim p [ none ↦ none | some at ↦ some (at, len) ])

  unfoldable pub attach : ℕ → ℕ → M (Unit {0})
  attach m other = run d (Dpdk.pktmbuf_attach m other)

  unfoldable pub detach : ℕ → M (Unit {0})
  detach m = run d (Dpdk.pktmbuf_detach m)

  unfoldable pub detach_extbuf : ℕ → M (Unit {0})
  unfolding detach
  detach_extbuf m = detach m

  unfoldable pub ext_refcnt_read : ℕ → M ℕ
  ext_refcnt_read shinfo = call_count d (Dpdk.mbuf_ext_refcnt_read shinfo)

  unfoldable pub ext_refcnt_set : ℕ → ℕ → M (Unit {0})
  ext_refcnt_set shinfo new = run d (Dpdk.mbuf_ext_refcnt_set shinfo new)

  unfoldable pub ext_refcnt_update : ℕ → ℤ → M ℕ
  ext_refcnt_update shinfo new = call_count d (Dpdk.mbuf_ext_refcnt_update shinfo new)

  unfoldable pub data_room_size : ℕ → M ℕ
  data_room_size pool = call_count d (Dpdk.pktmbuf_data_room_size pool)

  unfoldable pub priv_size : ℕ → M ℕ
  priv_size pool = call_count d (Dpdk.pktmbuf_priv_size pool)

  unfoldable pub pool_create_by_ops : List ℕ → ℕ → ℕ → ℕ → ℕ → ℤ → List ℕ → M (Result ℕ)
  unfolding ptr_as_result
  pool_create_by_ops name n cache_size priv_size data_room_size socket_id ops_name = do
    p ← call_ptr d (
        Dpdk.pktmbuf_pool_create_by_ops name n cache_size priv_size data_room_size socket_id
          ops_name)
    λ h. (done (ptr_as_result p (d.errno h)), h)

  -- The offset is cut to 32 bits, so that an offset beyond 4 GiB reads at the one 4 GiB below.
  pub read-wraps : (m off len : ℕ) (h : History) → read m (off + 2 ^ 32) len h ≡ read m off len h
  unfolding read
  read-wraps m off len h =
      let same : (off + 2 ^ 32) % 2 ^ 32 ≡ off % 2 ^ 32 = omega arith in rw same refl

  -- The length that C code is given is cut to 32 bits, and the length of the slice is not: of a buffer
  -- of 4 GiB and more, C code is asked for the rest alone, and the slice has the whole length.
  pub read-overlong :
      (m off len p : ℕ) (h : History)
      → d.ptr h (Dpdk.pktmbuf_read m (off % 2 ^ 32) len) ≡ some p
      → len % 2 ^ 32 ≡ len
      → read m off (len + 2 ^ 32) h
        ≡ (done (some (p, len + 2 ^ 32)), h ++ Dpdk.pktmbuf_read m (off % 2 ^ 32) len ∷ [])
  unfolding read
  read-overlong m off len p h e small =
      let same : (len + 2 ^ 32) % 2 ^ 32 ≡ len = omega (arith, small) in rw same (ground (arith, e))
