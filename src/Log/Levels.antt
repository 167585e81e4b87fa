-- ===== src/Log/Levels.antt =====
-- Which levels and types the log functions can give back.
use rust_dpdk.Prelude.{ℕ, ◌≡◌, ◌≢◌, ◌<◌, none, some, pos, negsuc, refl, arith, get_elem?-beyond}
use rust_dpdk.Outcome.{done}
use rust_dpdk.Dpdk
use rust_dpdk.Dpdk.{Dpdk, History}
use rust_dpdk.Errors.{ok, err, message, ok_or, invalid_log_type}
use rust_dpdk.Log.{
  LogType, Level, types, levels, type_number, level_number, level_from, type_from, transmuted,
  get_level,
}

-- A level and a type are read back from their numbers.
pub level_from-level_number : (l : Level) → level_from (level_number l) ≡ some l
unfolding level_from level_number
level_from-level_number Level.emerge = refl
level_from-level_number Level.alert = refl
level_from-level_number Level.critical = refl
level_from-level_number Level.error = refl
level_from-level_number Level.warn = refl
level_from-level_number Level.notice = refl
level_from-level_number Level.info = refl
level_from-level_number Level.debug = refl

pub type_from-type_number : (t : LogType) → type_from (type_number t) ≡ some t
unfolding type_from type_number
type_from-type_number LogType.eal = refl
type_from-type_number LogType.malloc = refl
type_from-type_number LogType.ring = refl
type_from-type_number LogType.mem_pool = refl
type_from-type_number LogType.timer = refl
type_from-type_number LogType.pmd = refl
type_from-type_number LogType.hash = refl
type_from-type_number LogType.lpm = refl
type_from-type_number LogType.kni = refl
type_from-type_number LogType.acl = refl
type_from-type_number LogType.power = refl
type_from-type_number LogType.meter = refl
type_from-type_number LogType.port_scheduler = refl
type_from-type_number LogType.port = refl
type_from-type_number LogType.table = refl
type_from-type_number LogType.pipeline = refl
type_from-type_number LogType.m_buf = refl
type_from-type_number LogType.crypto_dev = refl
type_from-type_number LogType.efd = refl
type_from-type_number LogType.event_dev = refl
type_from-type_number LogType.gso = refl
type_from-type_number LogType.user1 = refl
type_from-type_number LogType.user2 = refl
type_from-type_number LogType.user3 = refl
type_from-type_number LogType.user4 = refl
type_from-type_number LogType.user5 = refl
type_from-type_number LogType.user6 = refl
type_from-type_number LogType.user7 = refl
type_from-type_number LogType.user8 = refl
type_from-type_number LogType.first_ext = refl

-- Of a number beyond the tables no value is made.
type_from-beyond : (n : ℕ) → 32 < n → type_from n ≡ none
unfolding type_from
type_from-beyond n h = ground (arith, get_elem?-beyond types n h)

level_from-beyond : (n : ℕ) → 8 < n → level_from n ≡ none
unfolding level_from
level_from-beyond n h = ground (arith, get_elem?-beyond levels n h)

-- The number of a type that was registered at run time, after the first one, belongs to no value of
-- `Type`: `register` drops the number, and neither `set_level` nor `log` can name it.
pub dynamic_type_unnamed :
    (n : ℕ) → 32 < n → (type_from n ≡ none) × ((t : LogType) → type_number t ≢ n)
dynamic_type_unnamed n h =
    (type_from-beyond n h, λ t e. cc (type_from-beyond n h, type_from-type_number t, e))

-- A level that DPDK gives for a type is the result of `get_level`.
pub get_level-known :
    (d : Dpdk) (ty : LogType) (l : Level) (h : History)
    → d.ret h (Dpdk.log_get_level (type_number ty)) ≡ pos (level_number l)
    → (get_level d ty h).0 ≡ done (ok (some l))
unfolding get_level transmuted ok_or
get_level-known d ty l h e = ground (arith, e, level_from-level_number l)

-- Of a type that is switched off, whose level is 0, `get_level` makes no value of `Level`.
pub get_level-off :
    (d : Dpdk) (ty : LogType) (h : History)
    → d.ret h (Dpdk.log_get_level (type_number ty)) ≡ pos 0
    → (get_level d ty h).0 ≡ done (ok none)
unfolding get_level transmuted ok_or level_from
get_level-off d ty h e = ground (arith, e)

-- A type that DPDK does not know is refused with its number.
pub get_level-refused :
    (d : Dpdk) (ty : LogType) (h : History)
    → d.ret h (Dpdk.log_get_level (type_number ty)) ≡ negsuc 0
    → (get_level d ty h).0 ≡ done (err (message (invalid_log_type (type_number ty))))
unfolding get_level ok_or
get_level-refused d ty h e = ground (arith, e)
