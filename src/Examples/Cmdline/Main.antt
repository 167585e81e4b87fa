-- ===== src/Examples/Cmdline/Main.antt =====
-- `main` of rte/examples/cmdline/main.rs, and its commands `help` and `quit`.
use rust_dpdk.Prelude.{
  ℕ, ◌≡◌, List, [], ◌∷◌, ◌++◌, refl, none, some, arith, append_assoc, is_minus_one, false,
}
use rust_dpdk.Outcome.{done}
use rust_dpdk.Dpdk
use rust_dpdk.Dpdk.{Dpdk, History, M, pure, ◌>>=◌, ◌>>◌}
use rust_dpdk.Errors.{expect, as_result}
use rust_dpdk.Text.{codes}
use rust_dpdk.Eal
use rust_dpdk.Utils.Strings.{has_nul}
use rust_dpdk.Cmdline.{CmdLine, interact, quit, as_raw}
use rust_dpdk.Cmdline.Tokens.{raw, str_token, ip_addr_token}
use rust_dpdk.Cmdline.Insts.{Inst, inst}
use rust_dpdk.Cmdline.Scope.{with_stdin, with_stdin_frees}
use rust_dpdk.Examples.Cmdline.Commands.{say}

-- The lines of the help text.
abbrev help_text : List ℕ
help_text =
    codes "Demo example of command line interface in RTE\n\n\n"
    ++ codes "This is a readline-like interface that can be used to\n"
    ++ codes "debug your RTE application. It supports some features\n"
    ++ codes "of GNU readline like completion, cut/paste, and some\n"
    ++ codes "other special bindings.\n\n"
    ++ codes "This demo shows how rte_cmdline library can be\n"
    ++ codes "extended to handle a list of objects. There are\n"
    ++ codes "3 commands:\n"
    ++ codes "- add obj_name IP\n"
    ++ codes "- del obj_name\n"
    ++ codes "- show obj_name\n"

-- The instructions: the tokens of a command are at the addresses that `main` has for them, and each text
-- token has the address of its text.
unfoldable pub cmd_obj_del_show : ℕ → ℕ → ℕ → Inst
unfolding inst
cmd_obj_del_show action text obj =
    inst (codes "Show/del an object") (str_token action (some text) ∷ raw obj ∷ [])

unfoldable pub cmd_obj_add : ℕ → ℕ → ℕ → ℕ → Inst
unfolding inst
cmd_obj_add action text name ip =
    inst (codes "Add an object (name, val)")
      (str_token action (some text) ∷ str_token name none ∷ ip_addr_token ip ∷ [])

module _ (d : Dpdk) where
  -- `CmdHelpResult::parsed` and `CmdQuitResult::parsed`.
  unfoldable pub help_parsed : CmdLine → M (Unit {0})
  unfolding say
  help_parsed line = say d line help_text

  unfoldable pub quit_parsed : CmdLine → M (Unit {0})
  unfolding quit
  quit_parsed line = quit d line

  -- `main`; `commands` is the address of the array of the instructions. What the user enters is handled
  -- within `interact`.
  unfoldable pub main : ℕ → List (List ℕ) → M (Unit {0})
  unfolding Eal.init interact with_stdin
  main commands args = do
    inited ← Eal.init d args
    expect inited
    served ← with_stdin d commands (codes "example> ") (interact d)
    expect served

  -- Where DPDK starts and opens the standard input, the program starts it, opens the line, lets the user
  -- in, and leaves and frees the line, each once and in this order, and then ends.
  pub main_calls :
      (commands p : ℕ) (args : List (List ℕ)) (h : History)
      → is_minus_one (d.ret h (Dpdk.eal_init args)) ≡ false
      → d.ptr (h ++ Dpdk.eal_init args ∷ []) (Dpdk.cmdline_stdin_new commands (codes "example> "))
        ≡ some p
      → main commands args h ≡ (
        done tt,
        h
            ++ Dpdk.eal_init args ∷ []
            ++ Dpdk.cmdline_stdin_new commands (codes "example> ")
              ∷ Dpdk.cmdline_interact p
              ∷ Dpdk.cmdline_stdin_exit p
              ∷ Dpdk.cmdline_free p
              ∷ [],
      )
  unfolding main interact as_result as_raw has_nul
  main_calls commands p args h started opened =
      let line =
        with_stdin_frees d commands p (codes "example> ") (interact d)
          (h ++ Dpdk.eal_init args ∷ []) refl opened refl in
      grind (arith, started, line, append_assoc)
