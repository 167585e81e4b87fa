-- ===== src/Examples/L2fwd/Queues/Received.antt =====
-- The assignment of rte/examples/l2fwd/main.rs gives every port to one core.
use rust_dpdk.Prelude.{
  ℕ, zero, suc, ◌+◌, ◌%◌, ◌<◌, ◌≤◌, List, [], ◌∷◌, some, Bool, true, false, ◌==◌, if◌then◌else◌,
  ◌≡◌, refl, ◌∙◌, sym, subst, length, set, get_elem?, take, replicate, All, arith, length-set, ◌⊎◌,
  inl, inr, Bool-cases, min, ==_iff,
}
use rust_dpdk.Outcome.{Outcome, done, read, write}
use rust_dpdk.Lcore.{rte_max_lcore, next, is_eligible}
use rust_dpdk.Lcore.Next.{next_id-wrap}
use rust_dpdk.Examples.L2fwd.Options.{max_rx_queue_per_lcore}
use rust_dpdk.Examples.L2fwd.Queues.{
  LcoreQueueConf, Assignment, no_ports, default_conf, times, times_on_lcore, times_received,
  first_count, choose_lcore, add_port, assign_port, assign_loop, assign_ports,
}

-- A queue configuration after `k` ports.
record WellFormed (k : ℕ) (c : LcoreQueueConf) : Type 0 where
  length_list : length c.rx_port_list ≡ max_rx_queue_per_lcore
  bounded : c.n_rx_port ≤ k

times-take-set :
    (p v : ℕ) (xs : List ℕ) (n : ℕ)
    → n < length xs
    → times p (take (n + 1) (set xs n v)) ≡ times p (take n xs) + (if p == v then 1 else 0)
unfolding times
times-take-set p v [] n h = absurd (omega arith)
times-take-set p v (x ∷ xs) zero h = ground arith
times-take-set p v (x ∷ xs) (suc n) h = ground (arith, times-take-set p v xs n)

times_received-set :
    (on : ℕ → Bool) (j p : ℕ) (cs : List LcoreQueueConf) (i : ℕ) (c c' : LcoreQueueConf)
    → on (j + i) ≡ true
    → get_elem? cs i ≡ some c
    → times_received on j p (set cs i c') + times_on_lcore p c
      ≡ times_received on j p cs + times_on_lcore p c'
unfolding times_received
times_received-set on j p [] i c c' e h = absurd (ground arith)
times_received-set on j p (x ∷ cs) zero c c' e h =
    let here : on j ≡ true = subst (λ n. on n ≡ true) (omega arith) e in ground (arith, h, here)
times_received-set on j p (x ∷ cs) (suc i) c c' e h =
    let next : on (j + 1 + i) ≡ true = subst (λ n. on n ≡ true) (omega arith) e in
    omega (arith, times_received-set on (j + 1) p cs i c c' next h)

first_count-set :
    (cs : List LcoreQueueConf) (i : ℕ) (c c' : LcoreQueueConf)
    → get_elem? cs i ≡ some c
    → c'.n_rx_port ≡ c.n_rx_port + 1
    → first_count (set cs i c') ≡ first_count cs + (if i == 0 then 1 else 0)
unfolding first_count
first_count-set [] i c c' h e = absurd (ground (arith, h))
first_count-set (x ∷ cs) zero c c' h e = ground (arith, h, e)
first_count-set (x ∷ cs) (suc i) c c' h e = grind arith

first_count-entry :
    (cs : List LcoreQueueConf) (c : LcoreQueueConf)
    → get_elem? cs 0 ≡ some c
    → first_count cs ≡ c.n_rx_port
unfolding first_count
first_count-entry [] c h = absurd (ground (arith, h))
first_count-entry (x ∷ cs) c h = ground (arith, h)

entry :
    {k : ℕ} (cs : List LcoreQueueConf) (i : ℕ)
    → i < length cs
    → All (WellFormed k) cs
    → (c : LcoreQueueConf) × (get_elem? cs i ≡ some c) × WellFormed k c
entry [] i h wf = absurd (omega arith)
entry (c ∷ cs) zero h wf = (c, refl, wf.0)
entry (c ∷ cs) (suc i) h wf = entry cs i (omega arith) wf.1

weaken : (k : ℕ) (cs : List LcoreQueueConf) → All (WellFormed k) cs → All (WellFormed (k + 1)) cs
weaken k [] wf = tt
weaken k (c ∷ cs) wf = (
  record { length_list = wf.0.length_list; bounded = omega (arith, wf.0.bounded) },
  weaken k cs wf.1,
)

All-set :
    (k : ℕ) (cs : List LcoreQueueConf) (i : ℕ) (c : LcoreQueueConf)
    → All (WellFormed k) cs
    → WellFormed (k + 1) c
    → All (WellFormed (k + 1)) (set cs i c)
All-set k [] i v wf new = tt
All-set k (c ∷ cs) zero v wf new = (new, weaken k cs wf.1)
All-set k (c ∷ cs) (suc i) v wf new = ((weaken k (c ∷ []) (wf.0, tt)).0, All-set k cs i v wf.1 new)

-- The state after `k` ports, with `on` for the enabled cores and `q` for the queues of a core: the first
-- core has all of them, or `q` at least.
record Inv (on : ℕ → Bool) (q k : ℕ) (a : Assignment) : Type 0 where
  length_conf : length a.queue_conf ≡ rte_max_lcore
  lcore_below : a.rx_lcore_id < rte_max_lcore
  lcore_on : on a.rx_lcore_id ≡ true
  well_formed : All (WellFormed k) a.queue_conf
  fills : ((a.rx_lcore_id ≡ 0) × (first_count a.queue_conf ≡ k)) ⊎ (q ≤ first_count a.queue_conf)

-- One port more, for the core `lcore`: it is received once more, and no other port is.
Step : (ℕ → Bool) → ℕ → ℕ → ℕ → List LcoreQueueConf → Outcome Assignment → Type 0
Step on k port lcore before result =
    (a' : Assignment) × (result ≡ done a')
    × (length a'.queue_conf ≡ rte_max_lcore)
    × (a'.rx_lcore_id ≡ lcore)
    × All (WellFormed (k + 1)) a'.queue_conf
    × (first_count a'.queue_conf ≡ first_count before + (if lcore == 0 then 1 else 0))
    × ((p : ℕ)
        → times_received on 0 p a'.queue_conf
          ≡ times_received on 0 p before + (if p == port then 1 else 0))

add_port-entry :
    (on : ℕ → Bool) (k port lcore : ℕ) (cs : List LcoreQueueConf) (c : LcoreQueueConf)
    → k < max_rx_queue_per_lcore
    → on lcore ≡ true
    → length cs ≡ rte_max_lcore
    → All (WellFormed k) cs
    → get_elem? cs lcore ≡ some c
    → WellFormed k c
    → Step on k port lcore cs (add_port port lcore cs)
unfolding add_port Step times_on_lcore read write
add_port-entry on k port lcore cs c small enabled len wf here okay =
    let c' : LcoreQueueConf = record {
      n_rx_port = c.n_rx_port + 1;
      rx_port_list = set c.rx_port_list c.n_rx_port port;
    } in
    let room : c.n_rx_port < length c.rx_port_list =
      omega (arith, small, okay.length_list, okay.bounded) in
    let new : WellFormed (k + 1) c' = record {
      length_list = length-set c.rx_port_list c.n_rx_port port ∙ okay.length_list;
      bounded = omega (arith, okay.bounded);
    } in
    (
      record { rx_lcore_id = lcore; queue_conf = set cs lcore c' },
      ground (arith, here, room),
      length-set cs lcore c' ∙ len,
      refl,
      All-set k cs lcore c' wf new,
      first_count-set cs lcore c c' here refl,
      λ p. ground (
        arith,
        times_received-set on 0 p cs lcore c c' (subst (λ n. on n ≡ true) (omega arith) enabled)
            here,
        times-take-set p port c.rx_port_list c.n_rx_port room,
      ),
    )

eligible-on : (on : ℕ → Bool) (main id : ℕ) → is_eligible on main false id ≡ true → on id ≡ true
unfolding is_eligible
eligible-on on main id h = elim (Bool-cases (on id)) [
  | inl up ↦ up
  | inr down ↦ ground (arith, h, down)
]

-- What a core has is counted by one more or not at all.
grows : (l n n' : ℕ) → n' ≡ n + (if l == 0 then 1 else 0) → n ≤ n'
grows l n n' h = grind (arith, h)

module _ (is_enabled : ℕ → Bool) (main e : ℕ) (below : e < rte_max_lcore) (on : is_enabled e ≡ true)
    (q : ℕ) where
  -- The core that is chosen is the last one, or another that is enabled where the last one has `q` ports.
  choose_lcore-below :
      (k : ℕ) (a : Assignment)
      → Inv is_enabled q k a
      → (l : ℕ) × (c : LcoreQueueConf) × (choose_lcore is_enabled main q a ≡ done l)
        × (l < rte_max_lcore)
        × (is_enabled l ≡ true)
        × (get_elem? a.queue_conf a.rx_lcore_id ≡ some c)
        × ((l ≡ a.rx_lcore_id) ⊎ (c.n_rx_port ≡ q))
  unfolding choose_lcore next is_eligible read
  choose_lcore-below k a inv =
      let (j, _, hit, eligible, _) =
        next_id-wrap is_enabled main false a.rx_lcore_id (omega (arith, inv.lcore_below))
          rte_max_lcore e (omega arith) below (ground (arith, on)) in
      let (c, here, _) =
        entry a.queue_conf a.rx_lcore_id (omega (arith, inv.lcore_below, inv.length_conf))
          inv.well_formed in
      let id = (a.rx_lcore_id + 1 + j) % rte_max_lcore in
      elim (Bool-cases (c.n_rx_port == q)) [
        | inl full ↦ (
          id,
          c,
          ground (arith, hit, here, full),
          omega arith,
          eligible-on is_enabled main id eligible,
          here,
          inr ((==_iff c.n_rx_port q).0 full),
        )
        | inr free ↦ (
          a.rx_lcore_id,
          c,
          ground (arith, hit, here, free),
          inv.lcore_below,
          inv.lcore_on,
          here,
          inl refl,
        )
      ]

  -- The first core behind a step.
  fills-step :
      (k l n n' : ℕ) (a : Assignment) (c : LcoreQueueConf)
      → Inv is_enabled q k a
      → get_elem? a.queue_conf a.rx_lcore_id ≡ some c
      → (l ≡ a.rx_lcore_id) ⊎ (c.n_rx_port ≡ q)
      → first_count a.queue_conf ≡ n
      → n' ≡ n + (if l == 0 then 1 else 0)
      → ((l ≡ 0) × (n' ≡ k + 1)) ⊎ (q ≤ n')
  fills-step k l n n' a c inv here chosen count count' =
      let more = grows l n n' count' in
      elim inv.fills [
        | inr enough ↦ inr (omega (arith, enough, count, more))
        | inl (first, all) ↦ elim chosen [
          | inl same ↦
              let zeroth : l ≡ 0 = omega (arith, same, first) in
              inl (zeroth, ground (arith, zeroth, all, count, count'))
          | inr full ↦
              let held =
                first_count-entry a.queue_conf c
                  (subst (λ r. get_elem? a.queue_conf r ≡ some c) first here) in
              inr (omega (arith, full, held, count, more))
        ]
      ]

  assign_port-Step :
      (k port : ℕ) (a : Assignment)
      → k < max_rx_queue_per_lcore
      → Inv is_enabled q k a
      → (a' : Assignment) × (assign_port is_enabled main q port a ≡ done a')
        × Inv is_enabled q (k + 1) a'
        × ((p : ℕ)
            → times_received is_enabled 0 p a'.queue_conf
              ≡ times_received is_enabled 0 p a.queue_conf + (if p == port then 1 else 0))
  unfolding assign_port Step
  assign_port-Step k port a small inv =
      let (l, last, chosen, l_below, l_on, at_last, which) = choose_lcore-below k a inv in
      let (c, here, okay) =
        entry a.queue_conf l (omega (arith, l_below, inv.length_conf)) inv.well_formed in
      let (a', added, len, moved, wf, count, once) =
        add_port-entry is_enabled k port l a.queue_conf c small l_on inv.length_conf inv.well_formed
          here okay in
      (
        a',
        ground (arith, chosen, added),
        record {
          length_conf = len;
          lcore_below = omega (arith, moved, l_below);
          lcore_on = subst (λ n. is_enabled n ≡ true) (sym moved) l_on;
          well_formed = wf;
          fills =
              subst
                (λ n.
                  ((n ≡ 0) × (first_count a'.queue_conf ≡ k + 1)) ⊎ (q ≤ first_count a'.queue_conf))
                (sym moved)
                (fills-step k l (first_count a.queue_conf) (first_count a'.queue_conf) a last inv
                  at_last which refl count);
        },
        once,
      )

  assign_loop-received :
      (ports : List ℕ) (k : ℕ) (a : Assignment)
      → k + length ports ≤ max_rx_queue_per_lcore
      → Inv is_enabled q k a
      → (a' : Assignment) × (assign_loop is_enabled main q ports a ≡ done a')
        × Inv is_enabled q (k + length ports) a'
        × ((p : ℕ)
            → times_received is_enabled 0 p a'.queue_conf
              ≡ times_received is_enabled 0 p a.queue_conf + times p ports)
  unfolding assign_loop times
  assign_loop-received [] k a room inv =
      (a, refl, subst (λ n. Inv is_enabled q n a) (omega arith) inv, λ p. omega arith)
  assign_loop-received (port ∷ ports) k a room inv =
      let (a1, first, inv1, once) = assign_port-Step k port a (omega (arith, room)) inv in
      let (a2, rest, inv2, more) =
        assign_loop-received ports (k + 1) a1 (omega (arith, room)) inv1 in
      (
        a2,
        ground (arith, first, rest),
        subst (λ n. Inv is_enabled q n a2) (omega arith) inv2,
        λ p. ground (arith, once p, more p),
      )

no_ports-WellFormed : (n : ℕ) → All (WellFormed 0) (replicate n no_ports)
no_ports-WellFormed zero = tt
no_ports-WellFormed (suc n) =
    (record { length_list = refl; bounded = omega arith }, no_ports-WellFormed n)

none_received : (on : ℕ → Bool) (i p n : ℕ) → times_received on i p (replicate n no_ports) ≡ 0
unfolding times_received times_on_lcore times
none_received on i p zero = refl
none_received on i p (suc n) = ground (arith, none_received on (i + 1) p n)

-- With core 0 enabled, and for at most 16 ports, the assignment ends without a panic, and every port is
-- received by the enabled cores as often as it stands among the enabled ports, whatever the number of
-- queues per core. Core 0 gets at least that number of ports, or all of them where there are fewer.
pub assign_ports-received :
    (is_enabled : ℕ → Bool) (main : ℕ)
    → is_enabled 0 ≡ true
    → (rx_queue_per_lcore : ℕ) (ports : List ℕ) → length ports ≤ max_rx_queue_per_lcore
    → (a : Assignment) × (assign_ports is_enabled main rx_queue_per_lcore ports ≡ done a)
      × ((p : ℕ) → times_received is_enabled 0 p a.queue_conf ≡ times p ports)
      × (min rx_queue_per_lcore (length ports) ≤ first_count a.queue_conf)
unfolding assign_ports default_conf first_count
assign_ports-received is_enabled main on q ports room =
    let start : Assignment = record { rx_lcore_id = 0; queue_conf = default_conf.queue_conf } in
    let inv : Inv is_enabled q 0 start = record {
      length_conf = refl;
      lcore_below = omega arith;
      lcore_on = on;
      well_formed = no_ports-WellFormed rte_max_lcore;
      fills = inl (refl, refl);
    } in
    let (a, ends, left, same) =
      assign_loop-received is_enabled main 0 (omega arith) on q ports 0 start (omega (arith, room))
        inv in
    (
      a,
      ends,
      λ p. omega (arith, same p, none_received is_enabled 0 p rte_max_lcore),
      elim left.fills [
        | inl (first, all) ↦ omega (arith, all)
        | inr enough ↦ omega (arith, enough)
      ],
    )
