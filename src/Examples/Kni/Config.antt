-- ===== src/Examples/Kni/Config.antt =====
-- `Conf::parse_config` and `parse_args` of rte/examples/kni/main.rs, and the choice of a core's role in
-- its `main_loop`.
use rust_dpdk.Prelude.{
  ℕ, ◌+◌, ◌%◌, ◌^◌, List, [], ◌∷◌, ◌++◌, Option, none, some, Bool, false, ◌||◌, ltb, leb, ◌==◌,
  if◌then◌else◌, length, set, get_elem?, drop, take, replicate, ◌*◌, negsuc, max,
}
use rust_dpdk.Text.Radix.{from_str_radix, u32_max}
use rust_dpdk.Text.Split.{split}
use rust_dpdk.Outcome.{Outcome, done, halted, panicked, exited, ◌>>=◌}
use rust_dpdk.Lcore.{rte_max_lcore}

abbrev pub rte_max_ethports : ℕ
rte_max_ethports = 32

abbrev pub kni_max_kthread : ℕ
kni_max_kthread = 32

-- How many cores there is room for from `lcore_k` to the end of `kni_port_params`: the 32 places, the
-- padding, and two for each of the 32 pointers.
abbrev pub lcore_room : ℕ
lcore_room = kni_max_kthread + 1 + 2 * kni_max_kthread

-- `kni_port_params`; a null device is `none`.
pub record KniPortParams : Type 0 where
  pub port_id : ℕ
  pub lcore_rx : ℕ
  pub lcore_tx : ℕ
  pub nb_lcore_k : ℕ
  pub nb_kni : ℕ
  pub lcore_k : List ℕ
  pub kni : List (Option ℕ)

pub record Conf : Type 0 where
  pub enabled_port_mask : ℕ
  pub promiscuous_on : Bool
  pub port_params : List (Option KniPortParams)

-- `Conf::new`.
unfoldable pub new : Conf
new = record {
  enabled_port_mask = 0;
  promiscuous_on = false;
  port_params = replicate rte_max_ethports none;
}

-- The errors of `parse_config`, whose texts are for people.
pub data ConfigError : Type 0 where
  missed_port_id port_too_big already_configured missed_lcore_rx missed_lcore_tx lcore_too_big :
      ConfigError

-- What `parse_config` comes to: the changed configuration, an error, or a panic. `overflow` is the copy of
-- more cores than the memory from `lcore_k` to the end of the structure holds, which writes to the stack
-- behind it.
pub data Parsed (A : Type 0) : Type 0 where
  parsed : A → Parsed A
  refused : ConfigError → Parsed A
  panic overflow : Parsed A

-- The iterator's items: a field that is no number panics when it is reached.
unfoldable pub read_field : List ℕ → Option ℕ
read_field field = from_str_radix 10 u32_max field

unfoldable pub read_fields : List (List ℕ) → Option (List ℕ)
unfolding read_field
read_fields [] = some []
read_fields (f ∷ fs) = elim (read_field f) [
  | none ↦ none
  | some n ↦ elim (read_fields fs) [ none ↦ none | some ns ↦ some (n ∷ ns) ]
]

-- `fields.next()`, which goes on with the number and the fields that are left.
unfoldable pub next_field :
    {A : Type 0} → ConfigError → List (List ℕ) → (ℕ → List (List ℕ) → Parsed A) → Parsed A
unfolding read_field
next_field missed [] k = refused missed
next_field missed (f ∷ fs) k = elim (read_field f) [ none ↦ panic | some n ↦ k n fs ]

-- The pointer of two numbers of 32 bits that lie in its memory, on a little-endian processor.
unfoldable pub raw_pointer : ℕ → ℕ → Option ℕ
raw_pointer lo hi = if lo + hi == 0 then none else some (lo + hi * 2 ^ 32)

-- Numbers that are copied over an array of null pointers.
unfoldable pub spill : List ℕ → List (Option ℕ) → List (Option ℕ)
unfolding raw_pointer
spill [] kni = kni
spill (lo ∷ lcores) [] = []
spill (lo ∷ []) (k ∷ kni) = raw_pointer lo 0 ∷ kni
spill (lo ∷ hi ∷ lcores) (k ∷ kni) = raw_pointer lo hi ∷ spill lcores kni

-- The parameters that are stored for a port. The copy is not bounded by the 32 places of `lcore_k`: the
-- next core goes to the four bytes of padding behind the array, and the others over the pointers of
-- `kni`.
unfoldable pub port_params : ℕ → ℕ → ℕ → List ℕ → KniPortParams
unfolding spill
port_params port rx tx lcores = record {
  port_id = port % 2 ^ 8;
  lcore_rx = rx;
  lcore_tx = tx;
  nb_lcore_k = length lcores;
  nb_kni = 0;
  lcore_k = take kni_max_kthread lcores ++ drop (length lcores) (replicate kni_max_kthread 0);
  kni = spill (drop (kni_max_kthread + 1) lcores) (replicate kni_max_kthread none);
}

unfoldable pub store_params : Conf → ℕ → KniPortParams → Conf
store_params conf port p = record {
  enabled_port_mask = conf.enabled_port_mask;
  promiscuous_on = conf.promiscuous_on;
  port_params = set conf.port_params port (some p);
}

-- The cores behind the first three fields.
unfoldable pub collect_lcores : Conf → ℕ → ℕ → ℕ → Option (List ℕ) → Parsed Conf
unfolding port_params store_params
collect_lcores conf port rx tx none = panic
collect_lcores conf port rx tx (some lcores) =
    if ltb lcore_room (length lcores)
    then overflow
    else parsed (store_params conf port (port_params port rx tx lcores))

unfoldable pub parse_lcores : Conf → ℕ → List (List ℕ) → Parsed Conf
unfolding next_field read_fields collect_lcores
parse_lcores conf port fields = next_field missed_lcore_rx fields (λ rx fields.
    next_field missed_lcore_tx fields (λ tx fields.
      if leb rte_max_lcore rx || leb rte_max_lcore tx
      then refused lcore_too_big
      else collect_lcores conf port rx tx (read_fields fields)))

-- `port_params[port_id as usize]` is out of bounds for the port 32, which the guard lets through.
unfoldable pub parse_port : Conf → ℕ → List (List ℕ) → Parsed Conf
unfolding parse_lcores
parse_port conf port fields =
    if ltb rte_max_ethports port
    then refused port_too_big
    else elim (get_elem? conf.port_params port) [
      | none ↦ panic
      | some (some _) ↦ refused already_configured
      | some none ↦ parse_lcores conf port fields
    ]

unfoldable pub parse_config : Conf → List ℕ → Parsed Conf
unfolding next_field parse_port split
parse_config conf arg =
    next_field missed_port_id (split b',' arg) (λ port fields. parse_port conf port fields)

unfoldable pub parse_configs : Conf → List (List ℕ) → Parsed Conf
unfolding parse_config
parse_configs conf [] = parsed conf
parse_configs conf (arg ∷ args) = elim (parse_config conf arg) [
  | parsed conf' ↦ parse_configs conf' args
  | refused e ↦ refused e
  | panic ↦ panic
  | overflow ↦ overflow
]

-- What the `getopts` crate makes of the command line.
pub record Matches : Type 0 where
  pub help : Bool
  pub p : Option (List ℕ)
  pub promiscuous : Bool
  pub configs : List (List ℕ)

unfoldable pub parse_port_mask : Option (List ℕ) → Outcome ℕ
parse_port_mask none = done 0
parse_port_mask (some arg) = elim (from_str_radix 16 u32_max arg) [
  | none ↦ halted (exited (negsuc 0))
  | some mask ↦ if mask == 0 then halted (exited (negsuc 0)) else done mask
]

-- `parse_args`; `none` is a refusal of `getopts`.
unfoldable pub parse_args : Option Matches → Outcome (Parsed Conf)
unfolding parse_port_mask parse_configs new
parse_args none = halted (exited (negsuc 0))
parse_args (some m) = if m.help then halted (exited (negsuc 0)) else (do
  mask ← parse_port_mask m.p
  done (
      parse_configs
        (record {
          enabled_port_mask = mask;
          promiscuous_on = m.promiscuous;
          port_params = new.port_params;
        })
        m.configs))

-- The fold of `init_kni`; the sum is checked to fit a `u32` (the counts are 32 at most, so it does).
unfoldable pub num_of_kni_ports : List (Option KniPortParams) → ℕ → ℕ
num_of_kni_ports [] acc = acc
num_of_kni_ports (none ∷ params) acc = num_of_kni_ports params acc
num_of_kni_ports (some p ∷ params) acc = num_of_kni_ports params (acc + max p.nb_lcore_k 1)

-- `LcoreType`.
pub data LcoreType : Type 0 where
  rx tx : KniPortParams → LcoreType
  idle : LcoreType

-- The search of `main_loop` on the core `lcore`, through the devices; a port without a place in
-- `port_params` panics.
unfoldable pub lcore_type : ℕ → Conf → List ℕ → Outcome LcoreType
lcore_type lcore conf [] = done idle
lcore_type lcore conf (p ∷ ports) =
    let later = lcore_type lcore conf ports in
    elim (get_elem? conf.port_params p) [
      | none ↦ halted panicked
      | some none ↦ later
      | some (some param) ↦
          if lcore == param.lcore_rx
          then done (rx param)
          else if lcore == param.lcore_tx
          then done (tx param)
          else later
    ]
