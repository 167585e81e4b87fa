-- ===== src/Utils.antt =====
-- rte/src/utils.rs and rte/src/macros.rs: pointers as wrappers. A pointer is its address, and the null
-- pointer is `none`.
pub mod Strings
pub mod Callbacks
use rust_dpdk.Prelude.{ℕ, Option, none, some, Bool, if◌then◌else◌}
use rust_dpdk.Outcome.{Outcome, unwrap}

-- `AsRaw for Option<T>`: the null pointer where there is no wrapper.
unfoldable pub as_raw : Option ℕ → Option ℕ
as_raw none = none
as_raw (some p) = some p

-- `FromRaw::from_raw` of `raw!`.
unfoldable pub from_raw : Option ℕ → Option ℕ
from_raw none = none
from_raw (some p) = some p

-- `From<*mut T>` of `raw!`, which panics on a null pointer.
unfoldable pub from_ptr : Option ℕ → Outcome ℕ
unfolding from_raw
from_ptr p = unwrap (from_raw p)

-- `bool_value!`.
unfoldable pub bool_value : Bool → ℕ
bool_value b = if b then 1 else 0
