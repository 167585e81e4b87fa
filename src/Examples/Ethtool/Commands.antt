-- ===== src/Examples/Ethtool/Commands.antt =====
-- The commands of rte/examples/ethtool/ethapp.rs over one port, and `lock_port` of
-- rte/examples/ethtool/ethtool.rs. What a command prints is its answer.
use rust_dpdk.Prelude.{
  ℕ, ◌≡◌, ◌≢◌, List, [], ◌∷◌, none, some, Bool, true, false, pos, set, get_elem?, arith,
  get_elem?-set_other, length, length-set, sym, ◌∙◌, ap, Bool-cases, Option-cases, inl, inr, ◌⊎◌,
  ◌++◌, is_zero, append_assoc,
}
use rust_dpdk.Outcome.{Outcome-cases, done}
use rust_dpdk.Dpdk
use rust_dpdk.Dpdk.{Dpdk, History, RawStats, M, pure, ◌>>=◌, ◌>>◌}
use rust_dpdk.Errors.{Result, ok, err, Error, expect}
use rust_dpdk.Ethdev.{
  link, is_valid, is_up, start, stop, set_mac_addr, mac_addr, mtu, set_mtu, set_vlan_filter,
  set_vlan_offload, stats,
}
use rust_dpdk.Examples.Ethtool.{TxQueuePort}

-- `AppPort`; the pool is left out.
pub record AppPort : Type 0 where
  pub mac_addr : List ℕ
  pub txq : TxQueuePort
  pub port_id : ℕ
  pub port_active : Bool
  pub port_dirty : Bool

-- A `Mutex<AppPort>`: it is poisoned if a thread has panicked while it held the lock.
pub record Mutex : Type 0 where
  pub app_port : AppPort
  pub poisoned : Bool

-- Why a command does not do what it is for.
pub data Refusal : Type 0 where
  no_such_port invalid_port poisoned_lock already_stopped bad_mode : Refusal
  failed : Error → Refusal

pub data Answer (A : Type 0) : Type 0 where
  answered : A → Answer A
  refused : Refusal → Answer A

-- The text of a VLAN command: `add`, `del`, or another.
pub data VlanMode : Type 0 where
  add_mode del_mode other_mode : VlanMode

-- What the match on a result prints.
unfoldable pub answer_of : {A : Type 0} → Result A → Answer (Unit {0})
answer_of (ok a) = answered tt
answer_of (err e) = refused (failed e)

module _ (d : Dpdk) where
  -- The part of `lock_port` behind the test of the port.
  lock_mutex :
      List Mutex
      → ℕ
      → Mutex
      → (AppPort → ℕ → M (Answer (Unit {0}) × AppPort))
      → M (Answer (Unit {0}) × List Mutex)
  lock_mutex ports port m callback = elim m.poisoned [
    | true ↦ pure (refused poisoned_lock, ports)
    | false ↦ (do
      r ← callback m.app_port port
      pure (r.0, set ports port (record { app_port = r.1; poisoned = false })))
  ]

  unfoldable pub lock_port :
      List Mutex
      → ℕ
      → (AppPort → ℕ → M (Answer (Unit {0}) × AppPort))
      → M (Answer (Unit {0}) × List Mutex)
  unfolding is_valid lock_mutex
  lock_port ports port callback = elim (get_elem? ports port) [
    | none ↦ pure (refused no_such_port, ports)
    | some m ↦ (do
      valid ← is_valid d port
      elim valid [
        | true ↦ lock_mutex ports port m callback
        | false ↦ pure (refused invalid_port, ports)
      ])
  ]

  -- What a started port is.
  started : AppPort → Result ℕ → Answer (Unit {0}) × AppPort
  started p (ok dev) = (answered tt, record p { port_active = true })
  started p (err e) = (refused (failed e), p)

  -- The closures of `open` and `stop`.
  unfoldable pub open_locked : AppPort → ℕ → M (Answer (Unit {0}) × AppPort)
  unfolding stop start started
  open_locked p dev = do stop d dev; r ← start d dev; pure (started p r)

  unfoldable pub stop_locked : AppPort → ℕ → M (Answer (Unit {0}) × AppPort)
  unfolding is_up stop
  stop_locked p dev = do
    up ← is_up d dev
    elim up [
      | false ↦ pure (refused already_stopped, p)
      | true ↦ (do stop d dev; pure (answered tt, record p { port_active = false }))
    ]

  unfoldable pub open_command : List Mutex → ℕ → M (Answer (Unit {0}) × List Mutex)
  unfolding lock_port open_locked
  open_command ports port = lock_port ports port open_locked

  unfoldable pub stop_command : List Mutex → ℕ → M (Answer (Unit {0}) × List Mutex)
  unfolding lock_port stop_locked
  stop_command ports port = lock_port ports port stop_locked

  -- What a port with a new address is.
  readdressed : AppPort → Result ℕ → Answer (Unit {0}) × AppPort
  readdressed p (ok dev) = (answered tt, record p { port_dirty = true })
  readdressed p (err e) = (refused (failed e), p)

  -- The closure of `set`, for an address.
  unfoldable pub set_mac_locked : List ℕ → AppPort → ℕ → M (Answer (Unit {0}) × AppPort)
  unfolding set_mac_addr readdressed
  set_mac_locked mac p dev = do r ← set_mac_addr d dev mac; pure (readdressed p r)

  unfoldable pub mac_set_command : List Mutex → ℕ → List ℕ → M (Answer (Unit {0}) × List Mutex)
  unfolding lock_port set_mac_locked
  mac_set_command ports port mac = lock_port ports port (set_mac_locked mac)

  -- The commands that ask whether the port is valid and go on without a lock.
  if_valid : {A : Type 0} → ℕ → M (Answer A) → M (Answer A)
  unfolding is_valid
  if_valid port command = do
    valid ← is_valid d port
    elim valid [ true ↦ command | false ↦ pure (refused invalid_port) ]

  -- `ETH_VLAN_FILTER_MASK` is 2.
  unfoldable pub rxmode_command : ℕ → M (Answer (Unit {0}))
  unfolding if_valid set_vlan_offload answer_of
  rxmode_command port = if_valid port (do r ← set_vlan_offload d port (pos 2); pure (answer_of r))

  -- The counters that are printed; the sum of the errors is a `u64`.
  stats_answer : Result RawStats → Answer RawStats
  stats_answer (ok s) = answered s
  stats_answer (err e) = refused (failed e)

  unfoldable pub portstats_command : ℕ → M (Answer RawStats)
  unfolding if_valid stats stats_answer
  portstats_command port = if_valid port (do r ← stats d port; pure (stats_answer r))

  unfoldable pub mtu_get_command : ℕ → M (Answer ℕ)
  unfolding if_valid mtu
  mtu_get_command port = if_valid port (do r ← mtu d port; m ← expect r; pure (answered m))

  -- This command asks for no validity.
  unfoldable pub mtu_set_command : ℕ → ℕ → M (Answer (Unit {0}))
  unfolding set_mtu answer_of
  mtu_set_command port m = do r ← set_mtu d port m; pure (answer_of r)

  unfoldable pub mac_get_command : ℕ → M (Answer (List ℕ))
  unfolding if_valid mac_addr
  mac_get_command port = if_valid port (do mac ← mac_addr d port; pure (answered mac))

  -- The match on the mode.
  change_vlan : ℕ → ℕ → VlanMode → M (Answer (Unit {0}))
  unfolding set_vlan_filter answer_of
  change_vlan port vlan_id add_mode = do r ← set_vlan_filter d port vlan_id true; pure (answer_of r)
  change_vlan port vlan_id del_mode = do
    r ← set_vlan_filter d port vlan_id false
    pure (answer_of r)
  change_vlan port vlan_id other_mode = pure (refused bad_mode)

  unfoldable pub vlan_change_command : ℕ → ℕ → VlanMode → M (Answer (Unit {0}))
  unfolding if_valid change_vlan
  vlan_change_command port vlan_id m = if_valid port (change_vlan port vlan_id m)

  lock_mutex-shape :
      (ports : List Mutex) (port : ℕ) (m : Mutex)
      (callback : AppPort → ℕ → M (Answer (Unit {0}) × AppPort)) (h : History)
      {r : Answer (Unit {0})} {ports' : List Mutex}
      → (lock_mutex ports port m callback h).0 ≡ done (r, ports')
      → (ports ≡ ports') ⊎ ((m' : Mutex) × (set ports port m' ≡ ports'))
  unfolding lock_mutex
  lock_mutex-shape ports port m callback h e = elim (Bool-cases m.poisoned) [
    | inl bad ↦ inl (ground (arith, e, bad))
    | inr fine ↦ elim (Outcome-cases (callback m.app_port port h).0) [
      | inl (r, ends) ↦
          inr (record { app_port = r.1; poisoned = false }, ground (arith, e, fine, ends))
      | inr (x, stops) ↦ absurd (ground (arith, e, fine, stops))
    ]
  ]

  -- A command that locks a port leaves every other port as it is, and the number of ports, whatever it
  -- does to its own port and whether it succeeds or not.
  pub lock_port_local :
      (ports : List Mutex) (port q : ℕ) (callback : AppPort → ℕ → M (Answer (Unit {0}) × AppPort))
      (h : History) {r : Answer (Unit {0})} {ports' : List Mutex}
      → port ≢ q
      → (lock_port ports port callback h).0 ≡ done (r, ports')
      → (get_elem? ports' q ≡ get_elem? ports q) × (length ports' ≡ length ports)
  unfolding lock_port is_valid
  lock_port_local ports port q callback h {r} {ports'} other e =
      elim (Option-cases (get_elem? ports port)) [
        | inl missing ↦ ground (arith, e, missing)
        | inr (m, here) ↦ elim (Bool-cases (is_zero (d.ret h (Dpdk.eth_dev_is_valid_port port)))) [
          | inl bad ↦ ground (arith, e, here, bad)
          | inr fine ↦
              elim (lock_mutex-shape ports port m callback
                (h ++ Dpdk.eth_dev_is_valid_port port ∷ []) {r = r} {ports' = ports'}
                (ground (arith, e, here, fine))) [
                  | inl same ↦ ground (arith, same)
                  | inr (m', changed) ↦ (
                    ap (λ (l : List Mutex). get_elem? l q) (sym changed)
                        ∙ get_elem?-set_other ports port m' q other,
                    ap (λ (l : List Mutex). length l) (sym changed) ∙ length-set ports port m',
                  )
                ]
        ]
      ]

  -- A port of which DPDK says that it is valid and up, and whose lock is not poisoned, is stopped by the
  -- command, and is inactive from then on.
  pub stop_command_deactivates :
      (ports : List Mutex) (port : ℕ) (m : Mutex) (h : History)
      → get_elem? ports port ≡ some m
      → m.poisoned ≡ false
      → is_zero (d.ret h (Dpdk.eth_dev_is_valid_port port)) ≡ false
      → (d.link (h ++ Dpdk.eth_dev_is_valid_port port ∷ []) port).link_status ≡ 1
      → stop_command ports port h ≡ (
        done (
          answered tt,
          set ports port
              (record { app_port = record (m.app_port) { port_active = false }; poisoned = false }),
        ),
        h
            ++ Dpdk.eth_dev_is_valid_port port ∷ []
            ++ Dpdk.eth_link_get port ∷ []
            ++ Dpdk.eth_dev_stop port ∷ [],
      )
  unfolding stop_command lock_mutex lock_port is_valid is_up link stop
  stop_command_deactivates ports port m h here fine valid up = grind (arith, append_assoc)
