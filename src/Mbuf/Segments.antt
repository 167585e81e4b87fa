-- ===== src/Mbuf/Segments.antt =====
-- The methods of `MBuf` in rte/src/mbuf.rs that give up a handle or make one: `into_raw` of `raw!`, which
-- takes the wrapper and ends its life, and `prefree_seg`.
use rust_dpdk.Prelude.{◌+◌, ◌%◌, ◌^◌, ◌≡◌, ◌≢◌, Bool, true, false}
use rust_dpdk.Mbuf.Sharing.{Buffer, MbufFns, drop_mbuf}

-- `_rte_pktmbuf_prefree_seg`: whether it returns the buffer, and the buffer behind it.
abbrev pub PrefreeFn : Type 0
PrefreeFn = Buffer → Bool × Buffer

-- What the manual says of it: it returns the buffer for the last reference, and else takes one off the
-- count.
pub record PrefreeLaws (prefree_fn : PrefreeFn) : Type 0 where
  pub last : (m : Buffer) → m.refcnt ≡ 1 → prefree_fn m ≡ (true, m)
  pub shared :
      (m : Buffer)
      → m.refcnt ≢ 1
      → prefree_fn m ≡ (false, record m { refcnt = (m.refcnt + 65535) % 2 ^ 16 })

module _ (fns : MbufFns) where
  -- `IntoRaw::into_raw` of `MBuf`, which drops the wrapper when it has read the pointer.
  unfoldable pub into_raw : Buffer → Buffer
  unfolding drop_mbuf
  into_raw m = drop_mbuf fns m

  -- `prefree_seg`: whether there is a new handle, and the buffer.
  unfoldable pub prefree_seg : PrefreeFn → Buffer → Bool × Buffer
  unfolding into_raw
  prefree_seg prefree_fn m = prefree_fn (into_raw m)
