-- ===== src/Mbuf.antt =====
-- rte/src/mbuf.rs: packet buffers.
pub mod Flags
pub mod Pool
pub mod Plain
pub mod Sharing
pub mod Segments
pub mod ExtBuf
use rust_dpdk.Prelude.{ℕ, ◌+◌, ◌%◌, ◌^◌, Option, none, some, ltb, if◌then◌else◌}
use rust_dpdk.Outcome.{Outcome, unwrap}

-- The fields of `rte_mbuf` that the address functions read. A pointer and an IO address have 64 bits.
pub record RawMbuf : Type 0 where
  pub buf_addr : ℕ
  pub buf_iova : ℕ
  pub data_off : ℕ
  pub pkt_len : ℕ
  pub data_len : ℕ

-- `NonNull::new`.
non_null : ℕ → Option ℕ
non_null p = if ltb 0 p then some p else none

unfoldable pub mtod_offset : RawMbuf → ℕ → Outcome ℕ
unfolding non_null
mtod_offset m off = unwrap (non_null ((m.buf_addr + (m.data_off + off)) % 2 ^ 64))

unfoldable pub mtod : RawMbuf → Outcome ℕ
unfolding mtod_offset
mtod m = mtod_offset m 0

-- The sums are those of a release build, which wrap around.
unfoldable pub data_iova : RawMbuf → ℕ
data_iova m = (m.buf_iova + m.data_off) % 2 ^ 64

-- `RTE_PKTMBUF_HEADROOM` is 128.
unfoldable pub data_iova_default : RawMbuf → ℕ
data_iova_default m = (m.buf_iova + 128) % 2 ^ 64

unfoldable pub iova_offset : RawMbuf → ℕ → ℕ
unfolding data_iova
iova_offset m off = (data_iova m + off) % 2 ^ 64

unfoldable pub iova : RawMbuf → ℕ
unfolding iova_offset
iova m = iova_offset m 0
