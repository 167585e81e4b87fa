-- ===== src/Mbuf/ExtBuf.antt =====
-- Buffers outside of a pool in rte/src/mbuf.rs: `ExtSharedInfo` and `attach_extbuf`. A slice is its length
-- and lengths are cut to 16 bits, as the casts do.
use rust_dpdk.Prelude.{
  ℕ, ◌+◌, ◌*◌, ◌%◌, ◌^◌, ◌<◌, ◌≡◌, inl, inr, Option, none, some, ℤ, leb, if◌then◌else◌,
  Option-cases, sym, ap, ◌∙◌, arith,
}
use rust_dpdk.Outcome.{Outcome, done, halted, panicked}
use rust_dpdk.Errors.{Result, ok, err, ptr_as_result}
use rust_dpdk.Utils.Callbacks.{Contexts, new_context, into_raw, stub}

-- `_rte_pktmbuf_ext_shinfo_init_helper`, of the room that it is told of: the address of the shared data,
-- null if there is no room, and the room that is left.
abbrev pub InitHelper : Type 0
InitHelper = ℕ → Option ℕ × ℕ

-- What the manual says of the helper: it puts the shared data into the room it is told of, of which what
-- is before them is left.
pub record HelperLaws (helper : InitHelper) : Type 0 where
  pub reduces : (len p : ℕ) → (helper len).0 ≡ some p → (helper len).1 < len

-- `&mut buf[..n]`.
sliced : ℕ → ℕ → Outcome ℕ
sliced n len = if leb n len then done n else halted panicked

-- `ExtSharedInfo::new`: the shared data with the slice in front of them. `errno` is read for a null.
unfoldable pub new : InitHelper → ℤ → ℕ → Outcome (Result (ℕ × ℕ))
unfolding ptr_as_result sliced
new helper errno len =
    let (info, left) = helper (len % 2 ^ 16) in
    elim (ptr_as_result info errno) [
      | err e ↦ done (err e)
      | ok p ↦ elim (sliced left len) [ halted x ↦ halted x | done n ↦ done (ok (p, n)) ]
    ]

-- The length that `attach_extbuf` passes on.
unfoldable pub attached_len : ℕ → ℕ
attached_len len = len % 2 ^ 16

module _ {T R : Type 0} where
  -- The context that `new` boxes for the callback, if there is one.
  unfoldable pub boxed :
      Option (ℕ → Option T → R)
      → Option T
      → Contexts (ℕ → Option T → R) (Option T)
      → Option ℕ × Contexts (ℕ → Option T → R) (Option T)
  unfolding into_raw new_context
  boxed none arg boxes = (none, boxes)
  boxed (some callback) arg boxes =
      let (p, after) = into_raw (new_context callback arg) boxes in (some p, after)

  -- `ext_buf_free_callback_stub`.
  unfoldable pub ext_buf_free_callback_stub :
      ℕ
      → ℕ
      → Contexts (ℕ → Option T → R) (Option T)
      → Option (R × Contexts (ℕ → Option T → R) (Option T))
  unfolding stub
  ext_buf_free_callback_stub = stub (λ callback arg addr. callback addr arg)

-- An error, or a slice that is shorter than a buffer of that length and than 64 KiB, and that
-- `attach_extbuf` passes on whole; no panic.
abbrev pub IsSlice : ℕ → Outcome (Result (ℕ × ℕ)) → Type 0
unfolding attached_len
IsSlice len (done (ok (p, n))) = (n < len) × (n < 2 ^ 16) × (attached_len n ≡ n)
IsSlice len (done (err e)) = Unit {0}
IsSlice len (halted x) = ⊥

-- What `new` makes of the answer of the helper.
answer : Option ℕ × ℕ → ℤ → Outcome (Result (ℕ × ℕ))
unfolding ptr_as_result
answer (none, left) errno = done (ptr_as_result none errno)
answer (some p, left) errno = done (ok (p, left))

module _ (helper : InitHelper) (laws : HelperLaws helper) (errno : ℤ) where
  new-answer : (len : ℕ) → new helper errno len ≡ answer (helper (len % 2 ^ 16)) errno
  unfolding new answer
  new-answer len = elim (Option-cases (helper (len % 2 ^ 16)).0) [
    | inl null ↦ ground (arith, null)
    | inr (p, info) ↦ ground (arith, info, laws.reduces (len % 2 ^ 16) p info)
  ]

  answer-IsSlice : (len : ℕ) → IsSlice len (answer (helper (len % 2 ^ 16)) errno)
  unfolding answer attached_len
  answer-IsSlice len = elim (Option-cases (helper (len % 2 ^ 16)).0) [
    | inl null ↦ ground (arith, null)
    | inr (p, info) ↦ ground (arith, info, laws.reduces (len % 2 ^ 16) p info)
  ]

-- `new` never panics: it gives an error, or a slice that is shorter than the buffer and than 64 KiB and
-- that `attach_extbuf` passes on whole. Of a buffer of 64 KiB or more only the length above a multiple of
-- 64 KiB is used, so for two buffers whose lengths differ by such a multiple it comes to the same.
pub new-IsSlice :
    (helper : InitHelper) (laws : HelperLaws helper) (errno : ℤ) (len k : ℕ)
    → IsSlice len (new helper errno len)
      × (new helper errno (len + k * 2 ^ 16) ≡ new helper errno len)
new-IsSlice helper laws errno len k =
    let room : (len + k * 2 ^ 16) % 2 ^ 16 ≡ len % 2 ^ 16 = omega arith in
    (
      rw (new-answer helper laws errno len) (answer-IsSlice helper laws errno len),
      new-answer helper laws errno (len + k * 2 ^ 16)
          ∙ ap (λ (r : ℕ). answer (helper r) errno) room
          ∙ sym (new-answer helper laws errno len),
    )
