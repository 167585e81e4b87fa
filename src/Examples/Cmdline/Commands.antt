-- ===== src/Examples/Cmdline/Commands.antt =====
-- The commands of rte/examples/cmdline/main.rs: the handlers, and what a line that is entered runs. The
-- text of an address, of Rust's library, is a parameter.
use rust_dpdk.Prelude.{ℕ, List, [], ◌∷◌, ◌++◌, Option, none, some, Bool, true, false, if◌then◌else◌}
use rust_dpdk.Dpdk.{Dpdk, M, pure, ◌>>=◌, ◌>>◌}
use rust_dpdk.Errors.{expect}
use rust_dpdk.Text.{codes}
use rust_dpdk.Cmdline.{CmdLine, print}
use rust_dpdk.Cmdline.Tokens.{IpAddr, IpNetAddr, to_ipaddr}
use rust_dpdk.Text.Equal.{equal}
use rust_dpdk.Examples.Cmdline.{Object, ObjectMap, lookup, contains_key, insert, remove}

-- What `format!` makes for a name and an address.
abbrev pub object_text : List ℕ → List ℕ → List ℕ → List ℕ
object_text name what ip = codes "Object " ++ name ++ what ++ ip ++ 10 ∷ []

-- `cl.print(…).unwrap()`.
unfoldable pub say : Dpdk → CmdLine → List ℕ → M (Unit {0})
unfolding print
say d line s = do r ← print d line s; expect r

module _ (d : Dpdk) (show_ip : IpAddr → List ℕ) (line : CmdLine) where
  -- What `del` says of the object that has been removed.
  unfoldable pub say_removed : Option Object → M (Unit {0})
  unfolding say
  say_removed none = pure tt
  say_removed (some o) = say d line (object_text o.name (codes " removed, ip=") (show_ip o.ip))

  -- `CmdDelShowResult::parsed`, with the objects behind it.
  unfoldable pub del_show_parsed : List ℕ → Object → ObjectMap → M ObjectMap
  unfolding say say_removed
  del_show_parsed action obj objs =
      if equal action (codes "show")
      then (do say d line (object_text obj.name (codes ", ip=") (show_ip obj.ip)); pure objs)
      else if equal action (codes "del")
      then (do say_removed (remove obj.name objs).0; pure (remove obj.name objs).1)
      else (do say d line (codes "Unknown action, " ++ action); pure objs)

  -- `CmdObjAddResult::parsed`.
  unfoldable pub add_parsed : List ℕ → IpNetAddr → ObjectMap → M ObjectMap
  unfolding say to_ipaddr
  add_parsed name ip objs = elim (contains_key name objs) [
    | true ↦ (do
      say d line (codes "Object " ++ name ++ codes " already exist" ++ 10 ∷ [])
      pure objs)
    | false ↦ (do
      say d line (object_text name (codes " added, ip=") (show_ip (to_ipaddr ip)))
      pure (insert name (record { name = name; ip = to_ipaddr ip }) objs))
  ]

  -- The lines that name an object. The handler of `show` and `del` runs if the object is found.
  unfoldable pub on_object : List ℕ → Option Object → ObjectMap → M ObjectMap
  unfolding del_show_parsed
  on_object action none objs = pure objs
  on_object action (some o) objs = del_show_parsed action o objs

-- The lines of the user.
pub data Command : Type 0 where
  show_command del_command : List ℕ → Command
  add_command : List ℕ → IpNetAddr → Command

-- Which of the two boxed handlers of these lines, that of `show` and `del` and that of `add`, are live:
-- the stub that C code enters frees the box at the end of its run (`Cmdline.Insts.entered_twice`).
pub record Boxes : Type 0 where
  pub del_show : Bool
  pub add : Bool

abbrev pub fresh : Boxes
fresh = record { del_show = true; add = true }

abbrev enter_del_show : Boxes → Option Boxes
enter_del_show b = if b.del_show then some (record { del_show = false; add = b.add }) else none

abbrev enter_add : Boxes → Option Boxes
enter_add b = if b.add then some (record { del_show = b.del_show; add = false }) else none

-- The boxes behind a line whose handler is entered, or `none` where its box is freed already. A line
-- that names no object of the list is not parsed, and enters no handler.
unfoldable pub enter_found : Bool → Boxes → Option Boxes
enter_found true b = enter_del_show b
enter_found false b = some b

unfoldable pub enter : Command → ObjectMap → Boxes → Option Boxes
unfolding enter_found contains_key
enter (show_command name) objs b = enter_found (contains_key name objs) b
enter (del_command name) objs b = enter_found (contains_key name objs) b
enter (add_command name ip) objs b = enter_add b

module _ (d : Dpdk) (show_ip : IpAddr → List ℕ) (line : CmdLine) where
  unfoldable pub run_command : Command → ObjectMap → M ObjectMap
  unfolding on_object add_parsed lookup
  run_command (show_command name) objs =
      on_object d show_ip line (codes "show") (lookup name objs) objs
  run_command (del_command name) objs =
      on_object d show_ip line (codes "del") (lookup name objs) objs
  run_command (add_command name ip) objs = add_parsed d show_ip line name ip objs

  -- The lines, one after the other, up to the first that enters a handler whose box is freed: `none` is
  -- the use of that box, behind which nothing is known.
  unfoldable pub run_commands : List Command → Boxes → ObjectMap → M (Option ObjectMap)
  unfolding run_command enter
  run_commands [] boxes objs = pure (some objs)
  run_commands (c ∷ cs) boxes objs = elim (enter c objs boxes) [
    | none ↦ pure none
    | some left ↦ run_command c objs >>= run_commands cs left
  ]
