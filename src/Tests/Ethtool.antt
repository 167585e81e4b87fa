-- ===== src/Tests/Ethtool.antt =====
-- Runs of the example ethtool.
use rust_dpdk.Prelude.{
  Option, ℕ, ◌≤◌, ◌≡◌, ◌-◌, List, [], ◌∷◌, none, true, false, length, replicate, set, get_elem?,
  pos, refl, arith,
}
use rust_dpdk.Examples.Ethtool.{TxQueuePort, Burst, receive, rounds}
use rust_dpdk.Dpdk.{Dpdk, M, pure}
use rust_dpdk.Outcome.{done}
use rust_dpdk.Tests.World.{obedient}
use rust_dpdk.Examples.Ethtool.Commands.{AppPort, Mutex, Answer, answered, lock_port}
use rust_dpdk.Prelude.{some}
use rust_dpdk.Examples.Ethtool.Ports.{Visit, slave_passes}
use rust_dpdk.Text.{codes}
use rust_dpdk.Cmdline.Lines.{Instruction}
use rust_dpdk.Examples.Ethtool.Prompt.{Handler, pcmd_stop_port}
use rust_dpdk.Cmdline.{owned}
use rust_dpdk.Examples.Ethtool.Session.{
  Values, handle, word, run_line, run_line_local, stop_line_idle,
}
use rust_dpdk.Examples.Ethtool.Queue.{rounds_never_drain}

abbrev empty_queue : TxQueuePort
empty_queue = record { cnt_unsent = 0; buf_frames = replicate 32 none }

-- Two frames come and are sent, and then one more comes.
abbrev bursts : List Burst
bursts =
    record { received = 5 ∷ 6 ∷ []; cnt_sent = 2 } ∷ record { received = 7 ∷ []; cnt_sent = 0 } ∷ []

rounds_never_drain_example :
    (empty_queue.cnt_unsent ≤ (rounds bursts empty_queue).cnt_unsent)
    × ((rounds bursts empty_queue).cnt_unsent ≤ length empty_queue.buf_frames)
    × (length (rounds bursts empty_queue).buf_frames ≡ length empty_queue.buf_frames)
rounds_never_drain_example = rounds_never_drain bursts empty_queue (omega arith)

two_received : (receive (record { received = 5 ∷ 6 ∷ []; cnt_sent = 0 }) empty_queue).cnt_unsent ≡ 2
unfolding receive
two_received = refl

abbrev port_up : AppPort
port_up = record {
  mac_addr = replicate 6 0;
  txq = empty_queue;
  port_id = 0;
  port_active = true;
  port_dirty = false;
}

abbrev two_ports : List Mutex
two_ports =
    record { app_port = port_up; poisoned = false }
    ∷ record { app_port = port_up; poisoned = false }
    ∷ []

-- DPDK answers 1 to every call, so a port is valid.
abbrev answers_one : Dpdk
answers_one = record obedient { ret = λ h c. pos 1 }

-- A callback that clears the port's flag.
abbrev clear_active : AppPort → ℕ → M (Answer (Unit {0}) × AppPort)
clear_active p dev = pure (answered tt, record p { port_active = false })

cleared :
    (lock_port answers_one two_ports 1 clear_active []).0
    ≡ done (
      answered tt,
      set two_ports 1
          (record { app_port = record port_up { port_active = false }; poisoned = false }),
    )
unfolding lock_port
cleared = refl

abbrev port_down : Mutex
port_down = record { app_port = record port_up { port_active = false }; poisoned = false }

abbrev visit : Visit
visit = record {
  busy = false;
  mac = replicate 6 1;
  burst = record { received = 5 ∷ []; cnt_sent = 1 };
}

-- A number of one digit.
abbrev values : Values
values = record { num = λ w. elim w [ [] ↦ 0 | c ∷ rest ↦ c - 48 ]; mac = λ w. replicate 6 1 }

abbrev stop_line : List (List ℕ)
stop_line = codes "stop" ∷ codes "1" ∷ []

-- A parser that finds `stop`.
abbrev by_name : List (Instruction Handler) → List (List ℕ) → Option (Instruction Handler)
by_name is line = some pcmd_stop_port

stop_handled :
    (run_line answers_one values (owned 8) by_name stop_line two_ports []).0
    ≡ done (set two_ports 1 port_down)
unfolding run_line
stop_handled = refl

run_line_local_example :
    (get_elem? (set two_ports 1 port_down) 0 ≡ get_elem? two_ports 0)
    × (length (set two_ports 1 port_down) ≡ length two_ports)
unfolding word
run_line_local_example =
    run_line_local answers_one values (owned 8) by_name stop_line two_ports 0 [] (omega arith)
      stop_handled

stop_line_idle_example :
    (ports' : List Mutex) × ((handle answers_one values
        (owned 8)
        Handler.stop_port
        stop_line
        two_ports
        []).0
      ≡ done ports')
    × (get_elem? (slave_passes ((visit ∷ visit ∷ []) ∷ []) ports') 1 ≡ some port_down)
unfolding word
stop_line_idle_example =
    stop_line_idle answers_one values (owned 8) stop_line two_ports
      (record { app_port = port_up; poisoned = false }) ((visit ∷ visit ∷ []) ∷ []) [] refl refl
      refl refl
