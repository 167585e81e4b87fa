-- ===== src/Examples/Kni/Ports/Allocated.antt =====
-- What `kni_alloc` of rte/examples/kni/main.rs leaves in the parameters of a port.
use native.Mathlib.Decide.{dec_lt}
use rust_dpdk.Prelude.{
  ℕ, zero, suc, ◌+◌, ◌≤◌, ◌<◌, ◌≡◌, ◌≢◌, ◌⊎◌, List, [], ◌∷◌, ◌++◌, Option, some, ◌==◌, length, set,
  get_elem?, max, arith, refl, sym, ap, ◌∙◌, append_assoc, append-nil, none, Option-cases,
  Bool-cases, is_zero, inl, inr, length-set, get_elem?-set_same, get_elem?-set_other,
}
use rust_dpdk.Outcome.{Outcome, Halt, done, halted, write}
use rust_dpdk.Dpdk
use rust_dpdk.Dpdk.{Dpdk, History, Call, RawKniConf}
use rust_dpdk.Errors.{rte_check_non_null, rte_check}
use rust_dpdk.Kni.{alloc, raw_kni_conf, into_raw, drop_device, release}
use rust_dpdk.Examples.Kni.Config.{Conf, KniPortParams}
use rust_dpdk.Examples.Kni.Ports.Alloc.{
  alloc_loop, device_conf, kni_alloc, alloc_param, with_devices, with_param,
}

-- From `i` on, `n` places hold devices; the places in front are as before.
record Filled (i n : ℕ) (kni kni' : List (Option ℕ)) : Type 0 where
  same_length : length kni' ≡ length kni
  front : (j : ℕ) → j < i → get_elem? kni' j ≡ get_elem? kni j
  devices : (j : ℕ) → i ≤ j → j < i + n → (dev : ℕ) × (get_elem? kni' j ≡ some (some dev))

Filled-step :
    {kni' : List (Option ℕ)} (i n : ℕ) (kni : List (Option ℕ)) (dev : ℕ)
    → i < length kni
    → Filled (i + 1) n (set kni i (some dev)) kni'
    → Filled i (suc n) kni kni'
Filled-step i n kni dev room rest = record {
  same_length = rest.same_length ∙ length-set kni i (some dev);
  front = λ j below.
      rest.front j (omega (arith, below))
      ∙ get_elem?-set_other kni i (some dev) j (omega (arith, below));
  devices = λ j lo hi. elim (dec_lt i j) [
    | yes later ↦ rest.devices j (omega (arith, later)) (omega (arith, hi))
    | no here ↦
        (let at : j ≡ i = omega (arith, lo, here) in
          (
            dev,
            ap (get_elem? _) at
                ∙ rest.front i (omega arith)
                ∙ get_elem?-set_same kni i (some dev) room,
          ))
  ];
}

-- The call that makes the device of a round, and the release of a device, if there is one.
abbrev alloc_call : ℕ → ℕ → ℕ → Call
alloc_call nb port i = Dpdk.kni_alloc (raw_kni_conf (device_conf nb port i)) (i == 0)

released_at : Option (Option ℕ) → History
released_at none = []
released_at (some none) = []
released_at (some (some dev)) = Dpdk.kni_release dev ∷ []

-- `n` rounds from `i` on: each makes a device and releases the one that `kni` holds for the round.
unfoldable pub rounds : ℕ → ℕ → ℕ → ℕ → List (Option ℕ) → History
unfolding released_at
rounds zero i nb port kni = []
rounds (suc n) i nb port kni =
    alloc_call nb port i ∷ released_at (get_elem? kni i) ++ rounds n (i + 1) nb port kni

module _ (d : Dpdk) {kni' : List (Option ℕ)} where
  -- A round that is not the last: its device, which is released in it, and the rounds behind it.
  alloc_loop-round :
      (n i nb port : ℕ) (kni : List (Option ℕ)) (h : History)
      → (alloc_loop d (suc n) i nb port kni h).0 ≡ done kni'
      → (dev : ℕ) × (i < length kni)
        × (alloc_loop d (suc n) i nb port kni h
            ≡ alloc_loop d n
                (i + 1)
                nb
                port
                (set kni i (some dev))
                ((h ++ alloc_call nb port i ∷ []) ++ Dpdk.kni_release dev ∷ []))
  unfolding alloc_loop alloc write rte_check_non_null into_raw drop_device release rte_check
  alloc_loop-round n i nb port kni h e =
      let c = alloc_call nb port i in
      elim (Option-cases (d.ptr h c)) [
        | inl null_device ↦ absurd (ground (arith, e, null_device))
        | inr (dev, given) ↦
            elim (Bool-cases (is_zero (d.ret (h ++ c ∷ []) (Dpdk.kni_release dev)))) [
              | inr failed ↦ absurd (ground (arith, e, given, failed))
              | inl gone ↦ elim (dec_lt i (length kni)) [
                | no beyond ↦ absurd (ground (arith, e, given, gone, beyond))
                | yes room ↦ (dev, room, ground (arith, given, gone, room))
              ]
            ]
      ]

  alloc_loop-Filled :
      (n i nb port : ℕ) (kni : List (Option ℕ)) (h : History)
      → (alloc_loop d n i nb port kni h).0 ≡ done kni'
      → Filled i n kni kni' × ((alloc_loop d n i nb port kni h).1 ≡ h ++ rounds n i nb port kni')
  unfolding alloc_loop rounds released_at
  alloc_loop-Filled zero i nb port kni h e =
      let same : kni ≡ kni' = ground (arith, e) in
      (
        record {
          same_length = ground (arith, same);
          front = λ j below. ground (arith, same);
          devices = λ j lo hi. absurd (omega (arith, lo, hi));
        },
        sym (append-nil h),
      )
  alloc_loop-Filled (suc n) i nb port kni h e =
      let (dev, room, round) = alloc_loop-round n i nb port kni h e in
      let h1 : History = h ++ alloc_call nb port i ∷ [] in
      let (rest, calls) =
        alloc_loop-Filled n (i + 1) nb port (set kni i (some dev)) (h1 ++ Dpdk.kni_release dev ∷ [])
          (cc (round, e)) in
      let held : get_elem? kni' i ≡ some (some dev) =
        rest.front i (omega arith) ∙ get_elem?-set_same kni i (some dev) room in
      (Filled-step i n kni dev room rest, grind (arith, round, calls, held, append_assoc))

outcome_cases :
    {A : Type 0} (o : Outcome A) → ((a : A) × (o ≡ done a)) ⊎ ((x : Halt) × (o ≡ halted x))
outcome_cases (done a) = inl (a, refl)
outcome_cases (halted x) = inr (x, refl)

within : {A : Type 0} (xs : List A) (i : ℕ) {a : A} → get_elem? xs i ≡ some a → i < length xs
within [] i h = absurd (ground (arith, h))
within (x ∷ xs) zero h = omega arith
within (x ∷ xs) (suc i) h = omega (arith, within xs i h)

-- Where `kni_alloc` ends for a port that is configured, the port has as many devices as it has kernel
-- threads, at least one; each of their places holds a device that is not null; and the parameters of
-- the other ports are as before. The calls are, for each of these devices in its order, the one that
-- makes it and the one that releases it: what the port holds are devices that are released already.
pub kni_alloc-devices :
    (d : Dpdk) (conf : Conf) (port : ℕ) (p : KniPortParams) (h : History) {conf' : Conf}
    → get_elem? conf.port_params port ≡ some (some p)
    → (kni_alloc d conf port h).0 ≡ done conf'
    → (p' : KniPortParams) × (get_elem? conf'.port_params port ≡ some (some p'))
      × (p'.nb_kni ≡ max p.nb_lcore_k 1)
      × ((j : ℕ) → j < p'.nb_kni → (dev : ℕ) × (get_elem? p'.kni j ≡ some (some dev)))
      × ((q : ℕ) → port ≢ q → get_elem? conf'.port_params q ≡ get_elem? conf.port_params q)
      × ((kni_alloc d conf port h).1 ≡ h ++ rounds p'.nb_kni 0 p.nb_lcore_k port p'.kni)
unfolding kni_alloc alloc_param with_devices with_param
kni_alloc-devices d conf port p h {conf'} here e =
    let n = max p.nb_lcore_k 1 in
    elim (outcome_cases (alloc_loop d n 0 p.nb_lcore_k port p.kni h).0) [
      | inr (x, stopped) ↦ absurd (ground (arith, here, e, stopped))
      | inl (kni, filled) ↦
          (let p' = with_devices p n kni in
            let same : with_param conf port p' ≡ conf' = ground (arith, here, e, filled) in
            let (all, calls) = alloc_loop-Filled d n 0 p.nb_lcore_k port p.kni h filled in
            (
              p',
              ap (λ (c : Conf). get_elem? c.port_params port) (sym same)
                  ∙ get_elem?-set_same conf.port_params port (some p')
                      (within conf.port_params port here),
              refl,
              λ j below. all.devices j (omega arith) (omega (arith, below)),
              λ q other.
                  ap (λ (c : Conf). get_elem? c.port_params q) (sym same)
                  ∙ get_elem?-set_other conf.port_params port (some p') q other,
              ground (arith, here, filled, calls),
            ))
    ]
