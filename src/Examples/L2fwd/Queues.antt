-- ===== src/Examples/L2fwd/Queues.antt =====
-- The assignment of ports to logical cores in `main` of rte/examples/l2fwd/main.rs, and
-- `l2fwd_launch_one_lcore`, which reads it.
pub mod Received
use rust_dpdk.Prelude.{
  ℕ, zero, suc, ◌+◌, ◌%◌, ◌<◌, ◌≤◌, List, [], ◌∷◌, Option, none, some, Bool, true, false, ◌==◌, ltb,
  if◌then◌else◌, ◌≡◌, ◌≢◌, refl, sym, ◌∙◌, ap, length, set, get_elem?, take, replicate, All, arith,
  length-set, ℤ, pos, negsuc,
}
use rust_dpdk.Outcome.{Outcome, done, halted, panicked, out_of_fuel, read, write, ◌>>=◌}
use rust_dpdk.Lcore.{rte_max_lcore, Search, found, exhausted, overflowed, running, next}
use rust_dpdk.Examples.L2fwd.Options.{max_rx_queue_per_lcore}

pub record LcoreQueueConf : Type 0 where
  pub n_rx_port : ℕ
  pub rx_port_list : List ℕ

pub record Conf : Type 0 where
  pub nb_rxd : ℕ
  pub nb_txd : ℕ
  pub queue_conf : List LcoreQueueConf

abbrev pub no_ports : LcoreQueueConf
no_ports = record { n_rx_port = 0; rx_port_list = replicate max_rx_queue_per_lcore 0 }

-- `Conf::default`.
unfoldable pub default_conf : Conf
default_conf = record { nb_rxd = 128; nb_txd = 512; queue_conf = replicate rte_max_lcore no_ports }

-- The variables of the loop.
pub record Assignment : Type 0 where
  pub rx_lcore_id : ℕ
  pub queue_conf : List LcoreQueueConf

-- What is counted into the queues: the ports behind `n_rx_port` are not looked at.
unfoldable pub times : ℕ → List ℕ → ℕ
times p [] = 0
times p (x ∷ xs) = (if p == x then 1 else 0) + times p xs

unfoldable pub times_on_lcore : ℕ → LcoreQueueConf → ℕ
unfolding times
times_on_lcore p c = times p (take c.n_rx_port c.rx_port_list)

-- How often a port is received, over the enabled cores among those from `i` on; what is queued for
-- another core is not received.
unfoldable pub times_received : (ℕ → Bool) → ℕ → ℕ → List LcoreQueueConf → ℕ
unfolding times_on_lcore
times_received is_enabled i p [] = 0
times_received is_enabled i p (c ∷ cs) =
    (if is_enabled i then times_on_lcore p c else 0) + times_received is_enabled (i + 1) p cs

-- How many ports the first core has.
unfoldable pub first_count : List LcoreQueueConf → ℕ
first_count [] = 0
first_count (c ∷ cs) = c.n_rx_port

unfoldable pub add_port : ℕ → ℕ → List LcoreQueueConf → Outcome Assignment
unfolding read write
add_port port lcore conf = do
  c ← read conf lcore
  ports ← write c.rx_port_list c.n_rx_port port
  done (record {
    rx_lcore_id = lcore;
    queue_conf = set conf lcore (record { n_rx_port = c.n_rx_port + 1; rx_port_list = ports });
  })

module _ (is_enabled : ℕ → Bool) (main : ℕ) where
  -- `if let Some(id) = rx_lcore_id.next() { … }`, in a `loop` that is left in its first round.
  unfoldable pub choose_lcore : ℕ → Assignment → Outcome ℕ
  unfolding next read
  choose_lcore rx_queue_per_lcore a = elim (next is_enabled main rte_max_lcore a.rx_lcore_id) [
    | found id ↦ (do
      c ← read a.queue_conf a.rx_lcore_id
      done (if c.n_rx_port == rx_queue_per_lcore then id else a.rx_lcore_id))
    | exhausted ↦ done a.rx_lcore_id
    | overflowed ↦ halted panicked
    | running ↦ halted out_of_fuel
  ]

  unfoldable pub assign_port : ℕ → ℕ → Assignment → Outcome Assignment
  unfolding choose_lcore add_port
  assign_port rx_queue_per_lcore port a = do
    lcore ← choose_lcore rx_queue_per_lcore a
    add_port port lcore a.queue_conf

  unfoldable pub assign_loop : ℕ → List ℕ → Assignment → Outcome Assignment
  unfolding assign_port
  assign_loop rx_queue_per_lcore [] a = done a
  assign_loop rx_queue_per_lcore (p ∷ ps) a = do
    a' ← assign_port rx_queue_per_lcore p a
    assign_loop rx_queue_per_lcore ps a'

  unfoldable pub assign_ports : ℕ → List ℕ → Outcome Assignment
  unfolding assign_loop default_conf
  assign_ports rx_queue_per_lcore ports =
      assign_loop rx_queue_per_lcore ports
        (record { rx_lcore_id = 0; queue_conf = default_conf.queue_conf })

-- What a core does: return -1, or enter `l2fwd_main_loop` (C code) with its ports and their number.
pub data Launch : Type 0 where
  nothing_to_do : Launch
  main_loop : List ℕ → ℕ → Launch

enter_main_loop : LcoreQueueConf → Outcome Launch
enter_main_loop qconf =
    if qconf.n_rx_port == 0
    then done nothing_to_do
    else if ltb (length qconf.rx_port_list) qconf.n_rx_port
    then halted panicked
    else done (main_loop qconf.rx_port_list qconf.n_rx_port)

-- `l2fwd_launch_one_lcore` on the core `lcore`; the slice `[..n_rx_port]` that it prints is checked.
unfoldable pub l2fwd_launch_one_lcore : Option ℕ → Option Conf → Outcome Launch
unfolding read enter_main_loop
l2fwd_launch_one_lcore none conf = halted panicked
l2fwd_launch_one_lcore (some lcore) none = halted panicked
l2fwd_launch_one_lcore (some lcore) (some conf) = do
  qconf ← read conf.queue_conf lcore
  enter_main_loop qconf
