-- ===== src/Bitmap.antt =====
-- rte/src/common/bitmap.rs: bitmaps. The functions of the C library are parameters, over the memory `S`
-- of a bitmap.
use rust_dpdk.Prelude.{ℕ, Bool, not, Option, none, some, ◌==◌, if◌then◌else◌, ℤ}
use rust_dpdk.Errors.{Result, ptr_as_result}

-- `_rte_bitmap_get`, `_rte_bitmap_set`, `_rte_bitmap_clear`, `_rte_bitmap_reset`,
-- `_rte_bitmap_set_slab`, `_rte_bitmap_scan` with the position and the slab that it writes, and
-- `_rte_bitmap_init`, with null as `none`.
pub record BitmapFns (S : Type 0) : Type 0 where
  pub get_fn : S → ℕ → ℕ
  pub set_fn : ℕ → S → S
  pub clear_fn : ℕ → S → S
  pub reset_fn : S → S
  pub set_slab_fn : ℕ → ℕ → S → S
  pub scan_fn : S → ℕ × ℕ × ℕ × S
  pub init_fn : ℕ → ℕ → ℕ → Option S
  pub footprint_fn : ℕ → ℕ

module _ {S : Type 0} (fns : BitmapFns S) where
  unfoldable pub memory_footprint : ℕ → ℕ
  memory_footprint bits = fns.footprint_fn bits

  unfoldable pub init : ℕ → ℕ → ℕ → ℤ → Result S
  unfolding ptr_as_result
  init bits mem mem_size errno = ptr_as_result (fns.init_fn bits mem mem_size) errno

  unfoldable pub get : ℕ → S → Bool
  get p s = not (fns.get_fn s p == 0)

  unfoldable pub set : ℕ → S → S
  set p s = fns.set_fn p s

  unfoldable pub clear : ℕ → S → S
  clear p s = fns.clear_fn p s

  unfoldable pub reset : S → S
  reset s = fns.reset_fn s

  unfoldable pub set_slab : ℕ → ℕ → S → S
  set_slab p slab s = fns.set_slab_fn p slab s

  unfoldable pub scan : S → Option (ℕ × ℕ) × S
  scan s = let (ret, p, slab, s') = fns.scan_fn s in (if ret == 0 then none else some (p, slab), s')
