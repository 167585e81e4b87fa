-- ===== src/Mbuf/Sharing.antt =====
-- `Clone` and `Drop` of `MBuf` in rte/src/mbuf.rs: the handles of one buffer and its reference count. The
-- functions of the C library are parameters.
use rust_dpdk.Prelude.{
  ℕ, zero, suc, ◌+◌, ◌%◌, ◌^◌, ◌<◌, ◌≡◌, ◌≢◌, ◌==◌, Bool, true, false, ℤ, pos, negsuc,
  if◌then◌else◌, arith,
}

-- What matters of a buffer: its count, a `u16`, and whether it is back in its pool.
pub record Buffer : Type 0 where
  pub refcnt : ℕ
  pub in_pool : Bool

-- `_rte_mbuf_refcnt_update`, which returns the new count, and `_rte_pktmbuf_free`.
pub record MbufFns : Type 0 where
  pub refcnt_update_fn : Buffer → ℤ → ℕ × Buffer
  pub free_fn : Buffer → Buffer

module _ (fns : MbufFns) where
  unfoldable pub refcnt_update : Buffer → ℤ → ℕ × Buffer
  refcnt_update m value = fns.refcnt_update_fn m value

  unfoldable pub free : Buffer → Buffer
  free m = fns.free_fn m

  -- `Clone for MBuf`.
  unfoldable pub clone : Buffer → Buffer
  unfolding refcnt_update
  clone m = (refcnt_update m (pos 1)).1

  -- `Drop for MBuf`.
  unfoldable pub drop_mbuf : Buffer → Buffer
  unfolding refcnt_update free
  drop_mbuf m =
      let (count, after) = refcnt_update m (negsuc 0) in if count == 0 then free after else after

  -- The handles that the program holds, and the buffer behind them.
  pub record Shared : Type 0 where
    pub handles : ℕ
    pub buffer : Buffer

  -- A program may clone a handle, up to 65535 of them, and drop one.
  pub data Step : Shared → Shared → Type 0 where
    clones :
        (n : ℕ) (m : Buffer)
        → suc (suc n) < 2 ^ 16
        → Step
            (record { handles = suc n; buffer = m })
            (record { handles = suc (suc n); buffer = clone m })
    drops :
        (n : ℕ) (m : Buffer)
        → Step
            (record { handles = suc n; buffer = m })
            (record { handles = n; buffer = drop_mbuf m })

  pub data Reach (s : Shared) : Shared → Type 0 where
    here : Reach s s
    next : {t u : Shared} → Reach s t → Step t u → Reach s u

-- What the manual of the C library says: `refcnt_update` adds to the count, in 16 bits, and returns the
-- new count; `free` takes one off the count and puts the buffer back in its pool if that leaves 0.
pub record MbufLaws (fns : MbufFns) : Type 0 where
  pub update_adds :
      (m : Buffer)
      → fns.refcnt_update_fn m (pos 1)
        ≡ ((m.refcnt + 1) % 2 ^ 16, record m { refcnt = (m.refcnt + 1) % 2 ^ 16 })
  pub update_takes :
      (m : Buffer)
      → fns.refcnt_update_fn m (negsuc 0)
        ≡ ((m.refcnt + 65535) % 2 ^ 16, record m { refcnt = (m.refcnt + 65535) % 2 ^ 16 })
  pub free_last : (m : Buffer) → m.refcnt ≡ 1 → (fns.free_fn m).in_pool ≡ true
  pub free_shared :
      (m : Buffer)
      → m.refcnt ≢ 1
      → fns.free_fn m ≡ record m { refcnt = (m.refcnt + 65535) % 2 ^ 16 }

module _ (fns : MbufFns) (laws : MbufLaws fns) where
  -- The count of a buffer that is held is the number of its handles, and it is out of its pool.
  CountsHandles : Shared fns → Type 0
  CountsHandles s =
      (s.buffer.in_pool ≡ false)
      × (s.buffer.refcnt ≡ elim s.handles [ zero ↦ 65535 | suc n ↦ suc n ])
      × (s.handles < 2 ^ 16)

  Step-CountsHandles : {s t : Shared fns} → Step fns s t → CountsHandles s → CountsHandles t
  unfolding CountsHandles clone drop_mbuf refcnt_update free
  Step-CountsHandles (clones n m h) (out, counts, few) =
      let adds = laws.update_adds m in (grind (arith, adds, out), grind (arith, adds, counts, h), h)
  Step-CountsHandles (drops zero m) (out, counts, few) =
      let takes = laws.update_takes m in
      let last = laws.free_shared (record m { refcnt = 0 }) (λ e. omega (arith, e)) in
      let gone : (m.refcnt + 65535) % 2 ^ 16 ≡ 0 = omega (arith, counts) in
      (grind (arith, takes, last, gone, out), grind (arith, takes, last, gone), omega arith)
  Step-CountsHandles (drops (suc n) m) (out, counts, few) =
      let takes = laws.update_takes m in
      let left : (m.refcnt + 65535) % 2 ^ 16 ≡ suc n = omega (arith, counts, few) in
      (grind (arith, takes, left, out), grind (arith, takes, left), omega (arith, few))

  Reach-CountsHandles : {s t : Shared fns} → CountsHandles s → Reach fns s t → CountsHandles t
  Reach-CountsHandles h here = h
  Reach-CountsHandles h (next r st) = Step-CountsHandles st (Reach-CountsHandles h r)

  -- From a fresh buffer, after any clones and drops, the count is the number of the handles while there
  -- are any, and the buffer never gets back into its pool: the last drop takes the count to 0 before it
  -- calls `free`, which takes it on to 65535.
  pub buffer_leaks :
      (m : Buffer) {t : Shared fns}
      → m.refcnt ≡ 1
      → m.in_pool ≡ false
      → Reach fns (record { handles = 1; buffer = m }) t
      → (t.buffer.in_pool ≡ false)
        × (t.buffer.refcnt ≡ elim t.handles [ zero ↦ 65535 | suc n ↦ suc n ])
  unfolding CountsHandles
  buffer_leaks m {t} one out r =
      let (kept, counts, few) = Reach-CountsHandles (out, one, omega arith) r in (kept, counts)
