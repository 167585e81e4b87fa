-- ===== src/Examples/Ethtool/Ports.antt =====
-- The ports of rte/examples/ethtool/main.rs: `setup_ports`, and the passes of `slave_main` over all ports.
use rust_dpdk.Prelude.{
  ℕ, zero, suc, ◌+◌, ◌≡◌, List, [], ◌∷◌, ◌++◌, some, Bool, true, false, ◌||◌, pos, get_elem?, ltb,
  if◌then◌else◌, arith, refl, ap, ◌∙◌, Bool-cases, inl, inr,
}
use rust_dpdk.Outcome.{panicked}
use rust_dpdk.Dpdk
use rust_dpdk.Dpdk.{Dpdk, M, pure, halt, call_count, ◌>>=◌, ◌>>◌}
use rust_dpdk.Errors.{expect}
use rust_dpdk.Text.{codes}
use rust_dpdk.Text.Decimal.{decimal}
use rust_dpdk.Ethdev.{
  configure, rx_queue_setup, tx_queue_setup, start, promiscuous_enable, mac_addr, default_conf,
}
use rust_dpdk.Mbuf.Pool.{pool_create}
use rust_dpdk.Examples.Ethtool.{Burst, round}
use rust_dpdk.Examples.Ethtool.Commands.{AppPort, Mutex}

-- What `dev.info()` says of the numbers of descriptors: `rx_desc_lim.nb_max` and `tx_desc_lim.nb_max`.
pub record DescLims : Type 0 where
  pub rx_nb_max : ℕ
  pub tx_nb_max : ℕ

module _ (d : Dpdk) (info : ℕ → DescLims) where
  -- What is done with a port of which the pool has its size.
  setup_with_pool : ℕ → ℕ → AppPort → M AppPort
  unfolding pool_create configure rx_queue_setup tx_queue_setup start promiscuous_enable mac_addr
  setup_with_pool size port p = do
    socket ← call_count d Dpdk.socket_id
    pool ← pool_create d (codes "pkt_pool_" ++ decimal port) size 32 0 2176 (pos socket)
    expect pool
    mac ← mac_addr d port
    configured ← configure d port 1 1 default_conf
    expect configured
    rx ← rx_queue_setup d port 0 128
    expect rx
    tx ← tx_queue_setup d port 0 256
    expect tx
    started ← start d port
    expect started
    promiscuous_enable d port
    pure (record p { mac_addr = mac; port_active = true; port_id = port })

  -- One port of `setup_ports`. The size of the pool is a sum in `u16`, whose overflow panics.
  unfoldable pub setup_port : ℕ → AppPort → M AppPort
  unfolding setup_with_pool
  setup_port port p =
      let size = (info port).rx_nb_max + (info port).tx_nb_max + 512 in
      if ltb size 65536 then setup_with_pool size port p else halt panicked

  -- `setup_ports` from the port `i` on; a poisoned lock is passed over.
  unfoldable pub setup_ports : ℕ → List Mutex → M (List Mutex)
  unfolding setup_port
  setup_ports i [] = pure []
  setup_ports i (m ∷ ms) = elim m.poisoned [
    | true ↦ (do rest ← setup_ports (i + 1) ms; pure (m ∷ rest))
    | false ↦ (do
      p ← setup_port i m.app_port
      rest ← setup_ports (i + 1) ms
      pure (record { app_port = p; poisoned = false } ∷ rest))
  ]

-- What `slave_main` meets at a port: whether a command holds the lock, the address that DPDK gives, and
-- the frames.
pub record Visit : Type 0 where
  pub busy : Bool
  pub mac : List ℕ
  pub burst : Burst

-- A changed address is read again.
refreshed : Visit → AppPort → AppPort
refreshed v p = if p.port_dirty then record p { mac_addr = v.mac; port_dirty = false } else p

-- The body of the loop for one port, past `try_lock`, which fails on a poisoned lock too.
visit_app : Visit → AppPort → AppPort
unfolding refreshed round
visit_app v p = elim p.port_active [
  | false ↦ p
  | true ↦ record (refreshed v p) { txq = (round v.burst p.txq).0 }
]

unfoldable pub visit_port : Visit → Mutex → Mutex
unfolding visit_app
visit_port v m = elim (v.busy || m.poisoned) [
  | true ↦ m
  | false ↦ record { app_port = visit_app v m.app_port; poisoned = false }
]

-- The `for` loop over all ports.
unfoldable pub slave_pass : List Visit → List Mutex → List Mutex
unfolding visit_port
slave_pass [] ms = ms
slave_pass (v ∷ vs) [] = []
slave_pass (v ∷ vs) (m ∷ ms) = visit_port v m ∷ slave_pass vs ms

-- The `while` loop, as many rounds as there are until the program exits.
unfoldable pub slave_passes : List (List Visit) → List Mutex → List Mutex
unfolding slave_pass
slave_passes [] ms = ms
slave_passes (vs ∷ vss) ms = slave_passes vss (slave_pass vs ms)

visit_port-inactive : (v : Visit) (m : Mutex) → m.app_port.port_active ≡ false → visit_port v m ≡ m
unfolding visit_port visit_app
visit_port-inactive v m idle = elim (Bool-cases m.poisoned) [
  | inl bad ↦ ground (arith, idle, bad)
  | inr fine ↦ ground (arith, idle, fine)
]

slave_pass-inactive :
    (vs : List Visit) (ms : List Mutex) (i : ℕ) (m : Mutex)
    → get_elem? ms i ≡ some m
    → m.app_port.port_active ≡ false
    → get_elem? (slave_pass vs ms) i ≡ some m
unfolding slave_pass
slave_pass-inactive [] ms i m here idle = here
slave_pass-inactive (v ∷ vs) [] i m here idle = here
slave_pass-inactive (v ∷ vs) (x ∷ ms) zero m here idle =
    let same : x ≡ m = ground (arith, here) in
    ap (λ (y : Mutex). some (visit_port v y)) same
    ∙ ap (λ (y : Mutex). some y) (visit_port-inactive v m idle)
slave_pass-inactive (v ∷ vs) (x ∷ ms) (suc i) m here idle = slave_pass-inactive vs ms i m here idle

-- A port that is not active, as the stop command leaves one, is left as it is by any number of passes of
-- `slave_main`, whatever is received and sent on the others: its frames and its address do not change.
pub stopped_port_idle :
    (vss : List (List Visit)) (ms : List Mutex) (i : ℕ) (m : Mutex)
    → get_elem? ms i ≡ some m
    → m.app_port.port_active ≡ false
    → get_elem? (slave_passes vss ms) i ≡ some m
unfolding slave_passes
stopped_port_idle [] ms i m here idle = here
stopped_port_idle (vs ∷ vss) ms i m here idle =
    stopped_port_idle vss (slave_pass vs ms) i m (slave_pass-inactive vs ms i m here idle) idle

-- Where a port reports 65535 for both numbers of descriptors, the set-up panics before it makes a call.
pub setup_port_overflows :
    (d : Dpdk) (info : ℕ → DescLims) (port : ℕ) (p : AppPort)
    → (info port).rx_nb_max ≡ 65535
    → (info port).tx_nb_max ≡ 65535
    → setup_port d info port p ≡ halt panicked
unfolding setup_port
setup_port_overflows d info port p rx tx = rw rx (rw tx refl)
