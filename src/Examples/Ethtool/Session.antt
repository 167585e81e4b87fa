-- ===== src/Examples/Ethtool/Session.antt =====
-- What a line at the prompt of the example ethtool does: the handlers, over the ports of the configuration. What is printed is left out, and so is `drvinfo`, which only
-- prints.
use rust_dpdk.Prelude.{
  ℕ, zero, suc, ◌≡◌, ◌≢◌, List, [], ◌∷◌, ◌++◌, false, some, length, get_elem?, set, if◌then◌else◌,
  is_zero, inl, inr, ap, sym, get_elem?-set_self, arith, refl, Option, none, Option-cases,
}
use rust_dpdk.Text.{codes}
use rust_dpdk.Text.Equal.{equal}
use rust_dpdk.Outcome.{done, Outcome-cases}
use rust_dpdk.Dpdk
use rust_dpdk.Dpdk.{Dpdk, History, M, pure, ◌>>=◌, ◌>>◌}
use rust_dpdk.Cmdline
use rust_dpdk.Cmdline.{CmdLine}
use rust_dpdk.Cmdline.Lines.{Instruction}
use rust_dpdk.Examples.Ethtool.Commands.{
  AppPort, Mutex, Answer, lock_port, lock_port_local, VlanMode, add_mode, del_mode, other_mode,
  open_locked, stop_locked, set_mac_locked, open_command, stop_command, mac_set_command,
  rxmode_command, portstats_command, mtu_get_command, mtu_set_command, mac_get_command,
  vlan_change_command, stop_command_deactivates,
}
use rust_dpdk.Examples.Ethtool.Listings.{link_command, mtu_list_command, mac_list_command}
use rust_dpdk.Examples.Ethtool.Ports.{Visit, slave_passes, stopped_port_idle}
use rust_dpdk.Examples.Ethtool.Prompt.{Handler, commands}

-- What the words of a line are parsed into.
pub record Values : Type 0 where
  pub num : List ℕ → ℕ
  pub mac : List ℕ → List ℕ

-- The word at a place of a line.
unfoldable pub word : ℕ → List (List ℕ) → List ℕ
word n [] = []
word zero (w ∷ line) = w
word (suc n) (w ∷ line) = word n line

-- The match of `change` on the mode.
unfoldable pub vlan_mode : List ℕ → VlanMode
unfolding equal
vlan_mode s =
    if equal s (codes "add")
    then add_mode
    else if equal s (codes "del")
    then del_mode
    else other_mode

-- What a computation behind which the ports are as they were ends with, and one that returns them.
keeps :
    {A : Type 0} (m : M A) (ports : List Mutex) (h : History) {ports' : List Mutex}
    → ((m >>= λ a. pure ports) h).0 ≡ done ports'
    → ports ≡ ports'
keeps m ports h e = elim (Outcome-cases (m h).0) [
  | inl (a, went) ↦ ground (arith, e, went)
  | inr (x, stopped) ↦ ground (arith, e, stopped)
]

returns :
    (m : M (Answer (Unit {0}) × List Mutex)) (h : History) {ports' : List Mutex}
    → ((m >>= λ r. pure r.1) h).0 ≡ done ports'
    → (r : Answer (Unit {0})) × ((m h).0 ≡ done (r, ports'))
returns m h e = elim (Outcome-cases (m h).0) [
  | inl (a, went) ↦ (a.0, ground (arith, e, went))
  | inr (x, stopped) ↦ absurd (ground (arith, e, stopped))
]

-- The lists of ports that agree with `ports` but at one port.
abbrev SameAt : ℕ → List Mutex → List Mutex → Type 0
SameAt q ports ports' = (get_elem? ports' q ≡ get_elem? ports q) × (length ports' ≡ length ports)

same : (q : ℕ) (ports : List Mutex) {ports' : List Mutex} → ports ≡ ports' → SameAt q ports ports'
same q ports e =
    (ap (λ (l : List Mutex). get_elem? l q) (sym e), ap (λ (l : List Mutex). length l) (sym e))

module _ (d : Dpdk) (v : Values) (cl : CmdLine) where
  -- The handlers. `validate` and `drvinfo` change nothing.
  unfoldable pub handle : Handler → List (List ℕ) → List Mutex → M (List Mutex)
  unfolding word vlan_mode Cmdline.quit link_command mtu_list_command mac_list_command open_command
      stop_command mac_set_command rxmode_command portstats_command mtu_get_command mtu_set_command
      mac_get_command vlan_change_command
  handle Handler.quit line ports = do Cmdline.quit d cl; pure ports
  handle Handler.drvinfo line ports = pure ports
  handle Handler.link line ports = do link_command d; pure ports
  handle Handler.open_port line ports = do r ← open_command d ports (v.num (word 1 line)); pure r.1
  handle Handler.stop_port line ports = do r ← stop_command d ports (v.num (word 1 line)); pure r.1
  handle Handler.rxmode line ports = do rxmode_command d (v.num (word 1 line)); pure ports
  handle Handler.portstats line ports = do portstats_command d (v.num (word 1 line)); pure ports
  handle Handler.mtu_list line ports = do mtu_list_command d ports; pure ports
  handle Handler.mtu_get line ports = do mtu_get_command d (v.num (word 1 line)); pure ports
  handle Handler.mtu_set line ports = do
    mtu_set_command d (v.num (word 1 line)) (v.num (word 2 line))
    pure ports
  handle Handler.mac_list line ports = do mac_list_command d ports; pure ports
  handle Handler.mac_get line ports = do mac_get_command d (v.num (word 1 line)); pure ports
  handle Handler.mac_set line ports = do
    r ← mac_set_command d ports (v.num (word 1 line)) (v.mac (word 2 line))
    pure r.1
  handle Handler.mac_validate line ports = pure ports
  handle Handler.vlan_change line ports = do
    vlan_change_command d (v.num (word 1 line)) (v.num (word 3 line)) (vlan_mode (word 2 line))
    pure ports

  -- A line of the prompt: `matched` is the instruction that the C library finds for it among those of the
  -- command line, and a line without one does nothing.
  unfoldable pub run_line :
      (List (Instruction Handler) → List (List ℕ) → Option (Instruction Handler))
      → List (List ℕ)
      → List Mutex
      → M (List Mutex)
  unfolding handle commands
  run_line matched line ports = elim (matched commands line) [
    | none ↦ pure ports
    | some i ↦ handle i.handler line ports
  ]

  locked_local :
      (ports : List Mutex) (p q : ℕ) (callback : AppPort → ℕ → M (Answer (Unit {0}) × AppPort))
      (h : History) {ports' : List Mutex}
      → p ≢ q
      → ((lock_port d ports p callback >>= λ r. pure r.1) h).0 ≡ done ports'
      → SameAt q ports ports'
  locked_local ports p q callback h {ports'} other e =
      let (r, ends) = returns (lock_port d ports p callback) h e in
      lock_port_local d ports p q callback h {r = r} {ports' = ports'} other ends

  handle_local :
      (i : Handler) (line : List (List ℕ)) (ports : List Mutex) (q : ℕ) (h : History)
      {ports' : List Mutex}
      → v.num (word 1 line) ≢ q
      → (handle i line ports h).0 ≡ done ports'
      → SameAt q ports ports'
  unfolding handle open_command stop_command mac_set_command
  handle_local Handler.quit line ports q h other e =
      same q ports (keeps (Cmdline.quit d cl) ports h e)
  handle_local Handler.drvinfo line ports q h other e = same q ports (ground (arith, e))
  handle_local Handler.link line ports q h other e = same q ports (keeps (link_command d) ports h e)
  handle_local Handler.open_port line ports q h other e =
      locked_local ports (v.num (word 1 line)) q (open_locked d) h other e
  handle_local Handler.stop_port line ports q h other e =
      locked_local ports (v.num (word 1 line)) q (stop_locked d) h other e
  handle_local Handler.rxmode line ports q h other e =
      same q ports (keeps (rxmode_command d (v.num (word 1 line))) ports h e)
  handle_local Handler.portstats line ports q h other e =
      same q ports (keeps (portstats_command d (v.num (word 1 line))) ports h e)
  handle_local Handler.mtu_list line ports q h other e =
      same q ports (keeps (mtu_list_command d ports) ports h e)
  handle_local Handler.mtu_get line ports q h other e =
      same q ports (keeps (mtu_get_command d (v.num (word 1 line))) ports h e)
  handle_local Handler.mtu_set line ports q h other e =
      same q ports (keeps (mtu_set_command d (v.num (word 1 line)) (v.num (word 2 line))) ports h e)
  handle_local Handler.mac_list line ports q h other e =
      same q ports (keeps (mac_list_command d ports) ports h e)
  handle_local Handler.mac_get line ports q h other e =
      same q ports (keeps (mac_get_command d (v.num (word 1 line))) ports h e)
  handle_local Handler.mac_set line ports q h other e =
      locked_local ports (v.num (word 1 line)) q (set_mac_locked d (v.mac (word 2 line))) h other e
  handle_local Handler.mac_validate line ports q h other e = same q ports (ground (arith, e))
  handle_local Handler.vlan_change line ports q h other e = same q ports (
      keeps
        (vlan_change_command d (v.num (word 1 line)) (v.num (word 3 line))
          (vlan_mode (word 2 line)))
        ports h e)

  -- Whatever is entered at the prompt, whichever instruction the C library finds for it, and whatever
  -- DPDK answers, a line that is handled to its end leaves every port but the one that its second word
  -- names as it is, and the number of ports.
  pub run_line_local :
      (matched : List (Instruction Handler) → List (List ℕ) → Option (Instruction Handler))
      (line : List (List ℕ)) (ports : List Mutex) (q : ℕ) (h : History) {ports' : List Mutex}
      → v.num (word 1 line) ≢ q
      → (run_line matched line ports h).0 ≡ done ports'
      → (get_elem? ports' q ≡ get_elem? ports q) × (length ports' ≡ length ports)
  unfolding run_line
  run_line_local matched line ports q h {ports'} other e =
      elim (Option-cases (matched commands line)) [
        | inl missing ↦ same q ports (ground (arith, e, missing))
        | inr (i, found) ↦
            handle_local i.handler line ports q h {ports' = ports'} other (ground (arith, e, found))
      ]

  -- The handler of `stop`, for a port that is valid, up and whose lock no thread has poisoned by a panic,
  -- runs to its end, and the passes of `slave_main` that follow it without a command in between leave
  -- the port inactive and otherwise as it was, whatever is received and sent elsewhere.
  pub stop_line_idle :
      (line : List (List ℕ)) (ports : List Mutex) (m : Mutex) (vss : List (List Visit))
      (h : History)
      → get_elem? ports (v.num (word 1 line)) ≡ some m
      → m.poisoned ≡ false
      → is_zero (d.ret h (Dpdk.eth_dev_is_valid_port (v.num (word 1 line)))) ≡ false
      → (d.link
          (h ++ Dpdk.eth_dev_is_valid_port (v.num (word 1 line)) ∷ [])
          (v.num (word 1 line))).link_status
        ≡ 1
      → (ports' : List Mutex) × ((handle Handler.stop_port line ports h).0 ≡ done ports')
        × (get_elem? (slave_passes vss ports') (v.num (word 1 line))
            ≡ some (record {
              app_port = record (m.app_port) { port_active = false };
              poisoned = false;
            }))
  unfolding handle
  stop_line_idle line ports m vss h here fine valid up =
      let p = v.num (word 1 line) in
      let stopped : Mutex = record {
        app_port = record (m.app_port) { port_active = false };
        poisoned = false;
      } in
      (
        set ports p stopped,
        ground (arith, stop_command_deactivates d ports p m h here fine valid up),
        stopped_port_idle vss (set ports p stopped) p stopped
            (get_elem?-set_self ports p stopped here) refl,
      )
