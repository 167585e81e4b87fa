-- ===== src/Errors.antt =====
-- rte/src/errors.rs: return codes of C and null pointers as results.
pub mod Codes
use rust_dpdk.Prelude.{ℕ, ℤ, is_zero, is_minus_one, true, false, Option, none, some, if◌then◌else◌}
use rust_dpdk.Dpdk.{M, pure, halt, ◌>>=◌}
use rust_dpdk.Outcome.{panicked}

-- `ErrorKind`.
pub data ErrorKind : Type 0 where
  invalid_log_type invalid_log_level : ℕ → ErrorKind
  cmdline_parse_error os_error : ℤ → ErrorKind

-- What `anyhow::Error` holds: a `RteError`, which `downcast_ref` finds, the text of an `ErrorKind`, or
-- the `NulError` of a name with a zero byte.
pub data Error : Type 0 where
  rte_error : ℤ → Error
  message : ErrorKind → Error
  nul_error : Error

pub data Result {ℓ} (A : Type ℓ) : Type ℓ where
  ok : A → Result A
  err : Error → Result A

module _ {ℓ κ} {A : Type ℓ} {B : Type κ} where
  -- `Result::map`.
  abbrev pub map_ok : (A → B) → Result A → Result B
  map_ok f (ok a) = ok (f a)
  map_ok f (err e) = err e

  -- `Result::and_then`.
  abbrev pub and_then : Result A → (A → Result B) → Result B
  and_then (ok a) f = f a
  and_then (err e) f = err e

-- `AsResult for c_int`.
unfoldable pub as_result : ℤ → Result ℤ
as_result ret = if is_minus_one ret then err (rte_error ret) else ok ret

unfoldable pub ok_or : ℤ → ErrorKind → Result ℤ
ok_or ret e = if is_minus_one ret then err (message e) else ok ret

module _ {ℓ} {A : Type ℓ} where
  -- `AsResult for *mut T`: a null pointer is `none`, and `errno` is `rte_errno` at that time.
  unfoldable pub ptr_as_result : Option A → ℤ → Result A
  ptr_as_result none errno = err (rte_error errno)
  ptr_as_result (some p) errno = ok p

  unfoldable pub ptr_ok_or : Option A → ErrorKind → Result A
  ptr_ok_or none e = err (message e)
  ptr_ok_or (some p) e = ok p

  -- `rte_check!(ret; ok => { v })` where `ret` is a variable.
  unfoldable pub rte_check_value : ℤ → A → Result A
  rte_check_value ret v = if is_zero ret then ok v else err (rte_error ret)

  -- The macro pastes its argument into the test and into the error. Where the argument is a call, a
  -- failing call is made a second time, and the error holds what the second call returned.
  unfoldable pub rte_check : M ℤ → A → M (Result A)
  rte_check action v = do
    ret ← action
    elim (is_zero ret) [
      | true ↦ pure (ok v)
      | false ↦ (do again ← action; pure (err (rte_error again)))
    ]

  -- `rte_check!(p, NonNull; ok => { v })`, whose pointer is a variable at every use.
  unfoldable pub rte_check_non_null : Option A → ℤ → Result A
  rte_check_non_null none errno = err (rte_error errno)
  rte_check_non_null (some p) errno = ok p

  -- `Result::expect` and `Result::unwrap`.
  abbrev pub expect : Result A → M A
  expect (ok a) = pure a
  expect (err e) = halt panicked
