-- ===== src/Examples/Cmdline/Spec.antt =====
-- What the commands of rte/examples/cmdline/main.rs do, as commands on a finite map from names to
-- addresses.
use rust_dpdk.Prelude.{
  ℕ, ◌≡◌, List, [], ◌∷◌, ◌++◌, Option, none, some, false, arith, Bool-cases, inl, inr,
  if◌then◌else◌,
}
use rust_dpdk.Text.{codes}
use rust_dpdk.Utils.Strings.{has_nul}
use rust_dpdk.Cmdline.Tokens.{IpAddr, IpNetAddr, to_ipaddr}
use rust_dpdk.Text.Equal.{equal, equal_same}
use rust_dpdk.Examples.Cmdline.{Object, ObjectMap, lookup, insert, remove}
use rust_dpdk.Examples.Cmdline.Objects.{
  IsMap, equal_lem, lookup-insert_same, lookup-insert_other, lookup-remove_other,
  lookup-remove_same,
}
use rust_dpdk.Examples.Cmdline.Commands.{
  Command, show_command, del_command, add_command, object_text, Boxes,
}

abbrev pub Spec : Type 0
Spec = List ℕ → Option IpAddr

unfoldable pub ip_of : Option Object → Option IpAddr
ip_of none = none
ip_of (some o) = some o.ip

-- What a map says of each name; the order of its entries is forgotten.
unfoldable pub view : ObjectMap → Spec
unfolding lookup ip_of
view objs k = ip_of (lookup k objs)

-- The commands on a finite map: the map behind a command, and the texts that it prints.
unfoldable pub spec_command : Command → Spec → Spec
spec_command (show_command name) s = s
spec_command (del_command name) s = λ k. if equal k name then none else s k
spec_command (add_command name ip) s = elim (s name) [
  | some old ↦ s
  | none ↦ λ k. if equal k name then some (to_ipaddr ip) else s k
]

module _ (show_ip : IpAddr → List ℕ) where
  unfoldable pub spec_output : Command → Spec → List (List ℕ)
  spec_output (show_command name) s = elim (s name) [
    | none ↦ []
    | some ip ↦ object_text name (codes ", ip=") (show_ip ip) ∷ []
  ]
  spec_output (del_command name) s = elim (s name) [
    | none ↦ []
    | some ip ↦ object_text name (codes " removed, ip=") (show_ip ip) ∷ []
  ]
  spec_output (add_command name ip) s = elim (s name) [
    | none ↦ object_text name (codes " added, ip=") (show_ip (to_ipaddr ip)) ∷ []
    | some old ↦ (codes "Object " ++ name ++ codes " already exist" ++ 10 ∷ []) ∷ []
  ]

-- Handlers that can be entered once each: an `add`, and a `show` or `del` of a name in the map, takes
-- its handler away.
unfoldable pub spec_enter : Command → Spec → Boxes → Option Boxes
spec_enter (show_command name) s b = elim (s name) [
  | none ↦ some b
  | some ip ↦ if b.del_show then some (record { del_show = false; add = b.add }) else none
]
spec_enter (del_command name) s b = elim (s name) [
  | none ↦ some b
  | some ip ↦ if b.del_show then some (record { del_show = false; add = b.add }) else none
]
spec_enter (add_command name ip) s b =
    if b.add then some (record { del_show = b.del_show; add = false }) else none

-- The map behind the lines, or `none` where a line needs a handler that has been entered before.
unfoldable pub spec_run : List Command → Boxes → Spec → Option Spec
unfolding spec_command spec_enter
spec_run [] b s = some s
spec_run (c ∷ cs) b s = elim (spec_enter c s b) [
  | none ↦ none
  | some left ↦ spec_run cs left (spec_command c s)
]

module _ (show_ip : IpAddr → List ℕ) where
  -- The texts of the lines up to there.
  unfoldable pub spec_log : List Command → Boxes → Spec → List (List ℕ)
  unfolding spec_command spec_output spec_enter
  spec_log [] b s = []
  spec_log (c ∷ cs) b s = elim (spec_enter c s b) [
    | none ↦ []
    | some left ↦ spec_output show_ip c s ++ spec_log cs left (spec_command c s)
  ]

-- A name of a line has no zero byte, as C code has read it up to one.
unfoldable pub IsClean : Command → Type 0
IsClean (show_command name) = has_nul name ≡ false
IsClean (del_command name) = has_nul name ≡ false
IsClean (add_command name ip) = has_nul name ≡ false

pub del-view :
    (name : List ℕ) (objs : ObjectMap) (k : List ℕ)
    → IsMap objs
    → view (remove name objs).1 k ≡ (if equal k name then none else view objs k)
unfolding view ip_of
del-view name objs k valid = elim (Bool-cases (equal k name)) [
  | inl same ↦ ground (arith, same, equal_lem k name same, lookup-remove_same name objs valid)
  | inr differs ↦ ground (
    arith,
    differs,
    lookup-remove_other name k objs (λ e. absurd (ground (arith, differs, e, equal_same name))),
  )
]

pub missing-view :
    (name : List ℕ) (objs : ObjectMap) (k : List ℕ)
    → lookup name objs ≡ none
    → view objs k ≡ (if equal k name then none else view objs k)
unfolding view ip_of
missing-view name objs k missing = elim (Bool-cases (equal k name)) [
  | inl same ↦ ground (arith, same, equal_lem k name same, missing)
  | inr differs ↦ ground (arith, differs)
]

add-view :
    (name : List ℕ) (o : Object) (objs : ObjectMap) (k : List ℕ)
    → view (insert name o objs) k ≡ (if equal k name then some o.ip else view objs k)
unfolding view ip_of
add-view name o objs k = elim (Bool-cases (equal k name)) [
  | inl same ↦ ground (arith, same, equal_lem k name same, lookup-insert_same name o objs)
  | inr differs ↦ ground (
    arith,
    differs,
    lookup-insert_other name k o objs (λ e. absurd (ground (arith, differs, e, equal_same name))),
  )
]

pub add-spec :
    (name : List ℕ) (ip : IpNetAddr) (objs : ObjectMap) (k : List ℕ)
    → lookup name objs ≡ none
    → view (insert name (record { name = name; ip = to_ipaddr ip }) objs) k
      ≡ spec_command (add_command name ip) (view objs) k
unfolding view ip_of spec_command
add-spec name ip objs k missing =
    let added = add-view name (record { name = name; ip = to_ipaddr ip }) objs k in
    ground (arith, added, missing)
