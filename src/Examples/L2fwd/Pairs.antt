-- ===== src/Examples/L2fwd/Pairs.antt =====
-- The pairing of the ports in `main` of rte/examples/l2fwd/main.rs: `l2fwd_dst_ports`.
use rust_dpdk.Prelude.{
  ℕ, zero, suc, ◌+◌, ◌%◌, ◌<◌, List, [], ◌∷◌, Option, none, some, ◌==◌, if◌then◌else◌, ◌≡◌, ◌≢◌,
  refl, sym, ◌∙◌, length, set, get_elem?, All, NoDup, arith, length-set,
}
use rust_dpdk.Outcome.{Outcome, done, write, ◌>>=◌}

-- The variables of the loop.
pub record Pairing : Type 0 where
  pub dst_ports : List ℕ
  pub last_port : ℕ
  pub nb_ports_in_mask : ℕ

-- One round of the loop.
unfoldable pub pair_port : ℕ → Pairing → Outcome Pairing
unfolding write
pair_port port s =
    if s.nb_ports_in_mask % 2 == 0
    then done (record {
      dst_ports = s.dst_ports;
      last_port = port;
      nb_ports_in_mask = s.nb_ports_in_mask + 1;
    })
    else (do
      dst ← write s.dst_ports port s.last_port
      dst ← write dst s.last_port port
      done (record {
        dst_ports = dst;
        last_port = s.last_port;
        nb_ports_in_mask = s.nb_ports_in_mask + 1;
      }))

unfoldable pub pair_loop : List ℕ → Pairing → Outcome Pairing
unfolding pair_port
pair_loop [] s = done s
pair_loop (p ∷ ps) s = do s' ← pair_port p s; pair_loop ps s'

-- What stands behind the loop: an odd port is paired with itself.
unfoldable pub pair_odd : Pairing → Outcome (List ℕ)
unfolding write
pair_odd s =
    if s.nb_ports_in_mask % 2 == 0
    then done s.dst_ports
    else write s.dst_ports s.last_port s.last_port

unfoldable pub pair_ports : List ℕ → List ℕ → Outcome (List ℕ)
unfolding pair_loop pair_odd
pair_ports ports dst = do
  s ← pair_loop ports (record { dst_ports = dst; last_port = 0; nb_ports_in_mask = 0 })
  pair_odd s

-- The pairs as one would draw them up: neighbours in the list of ports, the last one alone.
unfoldable pub partner : List ℕ → ℕ → Option ℕ
partner [] q = none
partner (p ∷ []) q = if q == p then some p else none
partner (p ∷ r ∷ ports) q = if q == p then some r else if q == r then some p else partner ports q

-- `Option::or`.
unfoldable pub or_else : Option ℕ → Option ℕ → Option ℕ
or_else (some a) b = some a
or_else none b = b

-- From an even number of ports on.
pair_from : List ℕ → Pairing → Outcome (List ℕ)
unfolding pair_loop pair_odd
pair_from ports s = do s ← pair_loop ports s; pair_odd s

Implements : List ℕ → List ℕ → Outcome (List ℕ) → Type 0
Implements ports dst result =
    (dst' : List ℕ) × (result ≡ done dst')
    × (length dst' ≡ length dst)
    × ((q : ℕ) → get_elem? dst' q ≡ or_else (partner ports q) (get_elem? dst q))

pair_from-two :
    (p r : ℕ) (ports : List ℕ) (s : Pairing)
    → s.nb_ports_in_mask % 2 ≡ 0
    → p < length s.dst_ports
    → r < length s.dst_ports
    → pair_from (p ∷ r ∷ ports) s
      ≡ pair_from ports (record {
        dst_ports = set (set s.dst_ports r p) p r;
        last_port = p;
        nb_ports_in_mask = s.nb_ports_in_mask + 1 + 1;
      })
unfolding pair_from pair_loop pair_port write
pair_from-two p r ports s even ph rh = ground (arith, even, ph, rh, length-set s.dst_ports r p)

partner-absent : (ports : List ℕ) (q : ℕ) → All (λ y. q ≢ y) ports → partner ports q ≡ none
unfolding partner
partner-absent [] q h = refl
partner-absent (p ∷ []) q h = ground (arith, h.0)
partner-absent (p ∷ r ∷ ports) q h = ground (arith, h.0, h.1.0, partner-absent ports q h.1.1)

get_elem?-set :
    (xs : List ℕ) (i v q : ℕ)
    → i < length xs
    → get_elem? (set xs i v) q ≡ (if q == i then some v else get_elem? xs q)
get_elem?-set [] i v q h = absurd (omega arith)
get_elem?-set (x ∷ xs) zero v zero h = refl
get_elem?-set (x ∷ xs) zero v (suc q) h = ground arith
get_elem?-set (x ∷ xs) (suc i) v zero h = ground arith
get_elem?-set (x ∷ xs) (suc i) v (suc q) h = ground (arith, get_elem?-set xs i v q)

All-longer : {n m : ℕ} (ports : List ℕ) → n ≡ m → All (λ p. p < n) ports → All (λ p. p < m) ports
All-longer [] e h = tt
All-longer (p ∷ ports) e h = (omega (arith, h.0), All-longer ports e h.1)

pair_from-Implements :
    (ports : List ℕ) (s : Pairing)
    → s.nb_ports_in_mask % 2 ≡ 0
    → NoDup ports
    → All (λ p. p < length s.dst_ports) ports
    → Implements ports s.dst_ports (pair_from ports s)
unfolding pair_from pair_loop pair_odd pair_port write partner or_else Implements
pair_from-Implements [] s even nodup small = (s.dst_ports, ground (arith, even), refl, λ q. refl)
pair_from-Implements (p ∷ []) s even nodup small = (
  set s.dst_ports p p,
  ground (arith, even, small.0),
  length-set s.dst_ports p p,
  λ q. ground (arith, get_elem?-set s.dst_ports p p q, small.0),
)
pair_from-Implements (p ∷ r ∷ ports) s even nodup small =
    let once = set s.dst_ports r p in
    let twice = set once p r in
    let longer = length-set once p r ∙ length-set s.dst_ports r p in
    let next : Pairing = record {
      dst_ports = twice;
      last_port = p;
      nb_ports_in_mask = s.nb_ports_in_mask + 1 + 1;
    } in
    let rest =
      pair_from-Implements ports next (omega (arith, even)) nodup.1.1
        (All-longer ports (sym longer) small.1.1) in
    (
      rest.0,
      pair_from-two p r ports s even small.0 small.1.0 ∙ rest.1,
      rest.2 ∙ longer,
      λ q. ground (
        arith,
        rest.3 q,
        get_elem?-set once p r q,
        get_elem?-set s.dst_ports r p q,
        length-set s.dst_ports r p,
        small.0,
        small.1.0,
        partner-absent ports p nodup.0.1,
        partner-absent ports r nodup.1.0,
      ),
    )

-- For ports without repetition that index the array of destinations, the loop ends with an array of
-- the same length in which each enabled port has its partner, and every other entry is as it was.
pub pair_ports-partner :
    (ports dst : List ℕ)
    → NoDup ports
    → All (λ p. p < length dst) ports
    → (dst' : List ℕ) × (pair_ports ports dst ≡ done dst')
      × (length dst' ≡ length dst)
      × ((q : ℕ) → get_elem? dst' q ≡ or_else (partner ports q) (get_elem? dst q))
unfolding pair_ports pair_from Implements
pair_ports-partner ports dst nodup small =
    pair_from-Implements ports (record { dst_ports = dst; last_port = 0; nb_ports_in_mask = 0 })
      (omega arith) nodup small

-- The partner of a partner is the port itself, where no port stands twice.
pub partner_involutive :
    (ports : List ℕ) (p q : ℕ) → NoDup ports → partner ports p ≡ some q → partner ports q ≡ some p
unfolding partner
partner_involutive [] p q nodup h = absurd (ground arith)
partner_involutive (a ∷ []) p q nodup h = ground arith
partner_involutive (a ∷ b ∷ ports) p q nodup h = ground (
  arith,
  partner_involutive ports p q nodup.1.1,
  partner-absent ports a nodup.0.1,
  partner-absent ports b nodup.1.0,
)

-- In the array that the loop ends with, an enabled port and its destination are each other's: the
-- destination of `p`'s destination is `p`.
pub pair_ports_mutual :
    (ports dst : List ℕ) (p q : ℕ)
    → NoDup ports
    → All (λ x. x < length dst) ports
    → partner ports p ≡ some q
    → (dst' : List ℕ) × (pair_ports ports dst ≡ done dst')
      × (get_elem? dst' p ≡ some q)
      × (get_elem? dst' q ≡ some p)
unfolding or_else
pair_ports_mutual ports dst p q nodup small h =
    let (dst', ends, _, entries) = pair_ports-partner ports dst nodup small in
    let back = partner_involutive ports p q nodup h in
    (dst', ends, ground (arith, entries p, h), ground (arith, entries q, back))
