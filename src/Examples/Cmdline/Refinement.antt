-- ===== src/Examples/Cmdline/Refinement.antt =====
-- The commands of rte/examples/cmdline/main.rs against those on a finite map.
use rust_dpdk.Prelude.{ℕ, ◌≡◌, List, ◌++◌, Option, none, some, false, map}
use rust_dpdk.Outcome.{Outcome, done}
use rust_dpdk.Dpdk
use rust_dpdk.Dpdk.{Dpdk, Call, History, pure, ◌>>◌}
use rust_dpdk.Utils.Strings.{has_nul}
use rust_dpdk.Cmdline.{CmdLine, as_raw}
use rust_dpdk.Cmdline.Tokens.{IpAddr}
use rust_dpdk.Examples.Cmdline.{ObjectMap}
use rust_dpdk.Examples.Cmdline.Objects.{IsMap}
use rust_dpdk.Examples.Cmdline.Commands.{Command, run_command}
use rust_dpdk.Examples.Cmdline.Spec.{Spec, view, spec_command, spec_output}

-- The calls that print texts.
abbrev pub printed : CmdLine → List (List ℕ) → List Call
printed line texts = map (Dpdk.cmdline_printf (as_raw line)) texts

-- What is left of a run, as the finite map and as a well-formed list.
pub views : Option ObjectMap → Option Spec
unfolding view
views none = none
views (some objs) = some (view objs)

pub IsMapLeft : Option ObjectMap → Type 0
IsMapLeft none = Unit
IsMapLeft (some objs) = IsMap objs

module _ (d : Dpdk) (show_ip : IpAddr → List ℕ) (line : CmdLine)
    (clean_ip : (ip : IpAddr) → has_nul (show_ip ip) ≡ false) where
  -- What one line does, against the finite map.
  abbrev Refines : Command → ObjectMap → History → Type 0
  Refines c objs h =
      (objs' : ObjectMap) × (run_command d show_ip line c objs h
        ≡ (done objs', h ++ printed line (spec_output show_ip c (view objs))))
      × IsMap objs'
      × (view objs' ≡ spec_command c (view objs))
