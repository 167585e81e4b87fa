-- ===== src/Examples/Ports.antt =====
-- What rte/examples/l2fwd/main.rs, rte/examples/kni/main.rs and rte/examples/bond/main.rs share: the
-- ports of a mask, and the wait for their links.
use Prim.Native.Nat.{bit_and}
use rust_dpdk.Prelude.{
  ℕ, zero, suc, ◌*◌, ◌^◌, List, [], ◌∷◌, Bool, true, false, not, leb, ◌==◌, if◌then◌else◌,
}
use rust_dpdk.Outcome.{Outcome, done, halted, panicked}
use rust_dpdk.Dpdk
use rust_dpdk.Dpdk.{Dpdk, History, M, pure, lift, run, ◌>>=◌, ◌>>◌}
use rust_dpdk.Ethdev.{EthLink, link, link_nowait, devices}

-- `(1 << portid) & mask != 0` on `u32`; a shift by 32 or more is an overflow.
unfoldable pub in_mask : ℕ → ℕ → Outcome Bool
in_mask mask port =
    if leb 32 port then halted panicked else done (not (bit_and (2 ^ port) mask == 0))

-- `.filter(…).collect()`.
unfoldable pub filter_ports : ℕ → List ℕ → Outcome (List ℕ)
unfolding in_mask
filter_ports mask [] = done []
filter_ports mask (p ∷ ps) = elim (in_mask mask p) [
  | halted x ↦ halted x
  | done keep ↦ elim (filter_ports mask ps) [
    | halted x ↦ halted x
    | done kept ↦ done (if keep then p ∷ kept else kept)
  ]
]

abbrev pub check_interval : ℕ
check_interval = 100

abbrev pub max_check_time : ℕ
max_check_time = 90

-- `force_quit` is whether the signal handler has set the flag by then.
module _ (d : Dpdk) (force_quit : History → Bool) where
  -- `enabled_devices` of `main`.
  unfoldable pub enabled_devices : ℕ → M (List ℕ)
  unfolding devices filter_ports
  enabled_devices mask = do all ← devices d; lift (filter_ports mask all)

  -- `iter().all(|dev| dev.link_nowait().up)`, which stops at the first link that is down.
  unfoldable pub all_up : List ℕ → M Bool
  unfolding link_nowait
  all_up [] = pure true
  all_up (p ∷ ps) = do l ← link_nowait d p; elim l.up [ true ↦ all_up ps | false ↦ pure false ]

  -- The rounds that are left of the loop; `delay_ms(ms)` waits for `ms * 1000` microseconds.
  unfoldable pub wait_links : ℕ → List ℕ → M (Unit {0})
  wait_links zero ports h = (done tt, h)
  wait_links (suc rounds) ports h = elim (force_quit h) [
    | true ↦ (done tt, h)
    | false ↦
        (do
          up ← all_up ports
          elim up [
            | true ↦ pure tt
            | false ↦ (do run d (Dpdk.delay_us (check_interval * 1000)); wait_links rounds ports)
          ])
          h
  ]

  unfoldable pub ask_links : List ℕ → M (List EthLink)
  unfolding link
  ask_links [] = pure []
  ask_links (p ∷ ps) = do l ← link d p; ls ← ask_links ps; pure (l ∷ ls)

  -- `check_all_ports_link_status`, with the links that it prints as its value.
  unfoldable pub check_all_ports_link_status : List ℕ → M (List EthLink)
  unfolding wait_links ask_links
  check_all_ports_link_status ports = do wait_links max_check_time ports; ask_links ports
