-- ===== src/Memory.antt =====
-- rte/src/common/memory.rs: pointers as optional references. A pointer is its address, with null as
-- `none`; a reference is an address, and one at null is no value of Rust.
use rust_dpdk.Prelude.{◌≡◌, ◌≢◌, ℕ, Option, none, some, refl, arith}
use rust_dpdk.Errors.{Result, ok, err}

-- `AsRef for *const T`, and `AsMutRef for *mut T`, which differ in mutability alone.
unfoldable pub as_ref : Option ℕ → Option (Option ℕ)
as_ref none = none
as_ref (some p) = some (some p)

-- `AsRef for Option<*const T>`, which does not test the pointer.
unfoldable pub as_ref_option : Option (Option ℕ) → Option (Option ℕ)
as_ref_option none = none
as_ref_option (some p) = some p

-- `AsRef for Result<*const T, E>`, which drops the error.
unfoldable pub as_ref_result : Result (Option ℕ) → Option (Option ℕ)
as_ref_result (ok p) = some p
as_ref_result (err e) = none

-- A pointer never becomes a null reference, but a null pointer in an option or in a result does.
pub as_ref-null :
    (p : Option ℕ)
    → (as_ref p ≢ some none)
      × (as_ref_option (some none) ≡ some none)
      × (as_ref_result (ok none) ≡ some none)
unfolding as_ref as_ref_option as_ref_result
as_ref-null none = (λ e. ground (arith, e), refl, refl)
as_ref-null (some p) = (λ e. ground (arith, e), refl, refl)
