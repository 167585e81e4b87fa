-- ===== src/Log.antt =====
-- rte/src/common/log.rs: the types and levels of log messages, and the calls of the log of DPDK. The
-- numbers are those of the constants of rte-sys/src/raw.rs.
pub mod Levels
use rust_dpdk.Prelude.{
  ℕ, ◌≡◌, ◌≢◌, ◌<◌, ◌+◌, List, [], ◌∷◌, ◌++◌, Option, none, some, ℤ, pos, negsuc, refl, arith,
  get_elem?,
}
use rust_dpdk.Outcome.{done}
use rust_dpdk.Dpdk
use rust_dpdk.Dpdk.{Dpdk, History, M, pure, call, call_count, run, ◌>>=◌}
use rust_dpdk.Errors.{
  Result, ok, err, message, map_ok, as_result, ok_or, invalid_log_type, invalid_log_level,
}

pub data LogType : Type 0 where
  eal malloc ring mem_pool timer pmd hash lpm kni acl power meter port_scheduler port table :
      LogType
  pipeline m_buf crypto_dev efd event_dev gso user1 user2 user3 user4 user5 user6 user7 user8 :
      LogType
  first_ext : LogType

pub data Level : Type 0 where
  emerge alert critical error warn notice info debug : Level

-- `ty as u32` and `level as u32`.
unfoldable pub type_number : LogType → ℕ
type_number eal = 0
type_number malloc = 1
type_number ring = 2
type_number mem_pool = 3
type_number timer = 4
type_number pmd = 5
type_number hash = 6
type_number lpm = 7
type_number kni = 8
type_number acl = 9
type_number power = 10
type_number meter = 11
type_number port_scheduler = 12
type_number port = 13
type_number table = 14
type_number pipeline = 15
type_number m_buf = 16
type_number crypto_dev = 17
type_number efd = 18
type_number event_dev = 19
type_number gso = 20
type_number user1 = 24
type_number user2 = 25
type_number user3 = 26
type_number user4 = 27
type_number user5 = 28
type_number user6 = 29
type_number user7 = 30
type_number user8 = 31
type_number first_ext = 32

unfoldable pub level_number : Level → ℕ
level_number emerge = 1
level_number alert = 2
level_number critical = 3
level_number error = 4
level_number warn = 5
level_number notice = 6
level_number info = 7
level_number debug = 8

-- The values of `Level` at their numbers.
abbrev pub levels : List (Option Level)
levels =
    none
    ∷ some emerge
    ∷ some alert
    ∷ some critical
    ∷ some error
    ∷ some warn
    ∷ some notice
    ∷ some info
    ∷ some debug
    ∷ []

-- What `mem::transmute` makes of a number: `none` is a value that the Rust type does not have.
unfoldable pub level_from : ℕ → Option Level
level_from n = elim (get_elem? levels n) [ none ↦ none | some l ↦ l ]

-- The values of `LogType` at their numbers.
abbrev pub types : List (Option LogType)
types =
    some eal
    ∷ some malloc
    ∷ some ring
    ∷ some mem_pool
    ∷ some timer
    ∷ some pmd
    ∷ some hash
    ∷ some lpm
    ∷ some kni
    ∷ some acl
    ∷ some power
    ∷ some meter
    ∷ some port_scheduler
    ∷ some port
    ∷ some table
    ∷ some pipeline
    ∷ some m_buf
    ∷ some crypto_dev
    ∷ some efd
    ∷ some event_dev
    ∷ some gso
    ∷ none
    ∷ none
    ∷ none
    ∷ some user1
    ∷ some user2
    ∷ some user3
    ∷ some user4
    ∷ some user5
    ∷ some user6
    ∷ some user7
    ∷ some user8
    ∷ some first_ext
    ∷ []

unfoldable pub type_from : ℕ → Option LogType
type_from n = elim (get_elem? types n) [ none ↦ none | some t ↦ t ]

-- The same of a C `int`, whose negative numbers no value has.
unfoldable pub transmuted {ℓ} : {A : Type ℓ} → (ℕ → Option A) → ℤ → Option A
transmuted from (pos n) = from n
transmuted from (negsuc n) = none

module _ (d : Dpdk) where
  -- `openlog_stream`, after `fdopen` has given the stream.
  unfoldable pub openlog_stream : ℕ → M (Result ℕ)
  unfolding as_result
  openlog_stream f = do ret ← call d (Dpdk.openlog_stream f); pure (map_ok (λ _. f) (as_result ret))

  unfoldable pub set_global_level : Level → M (Unit {0})
  unfolding level_number
  set_global_level level = run d (Dpdk.log_set_global_level (level_number level))

  unfoldable pub get_global_level : M (Option Level)
  unfolding level_from
  get_global_level = do level ← call_count d Dpdk.log_get_global_level; pure (level_from level)

  unfoldable pub get_level : LogType → M (Result (Option Level))
  unfolding type_number ok_or transmuted level_from
  get_level ty = do
    level ← call d (Dpdk.log_get_level (type_number ty))
    pure (
        map_ok (λ _. transmuted level_from level) (ok_or level (invalid_log_type (type_number ty))))

  unfoldable pub set_level : LogType → Level → M (Result (Unit {0}))
  unfolding type_number level_number ok_or
  set_level ty level = do
    ret ← call d (Dpdk.log_set_level (type_number ty) (level_number level))
    pure (map_ok (λ _. tt) (ok_or ret (invalid_log_level (level_number level))))

  unfoldable pub cur_msg_loglevel : M (Option Level)
  unfolding transmuted level_from
  cur_msg_loglevel = do level ← call d Dpdk.log_cur_msg_loglevel; pure (transmuted level_from level)

  unfoldable pub cur_msg_logtype : M (Option LogType)
  unfolding transmuted type_from
  cur_msg_logtype = do ty ← call d Dpdk.log_cur_msg_logtype; pure (transmuted type_from ty)

  -- `register`, which drops the number of the new type.
  unfoldable pub register : List ℕ → M (Result (Unit {0}))
  unfolding as_result
  register name = do ret ← call d (Dpdk.log_register name); pure (map_ok (λ _. tt) (as_result ret))

  -- `log`, whose message is the format of the C function, with no argument behind it.
  unfoldable pub log : Level → LogType → List ℕ → M (Result (Unit {0}))
  unfolding type_number level_number as_result
  log level ty msg = do
    ret ← call d (Dpdk.log_message (level_number level) (type_number ty) msg)
    pure (map_ok (λ _. tt) (as_result ret))
