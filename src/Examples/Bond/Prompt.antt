-- ===== src/Examples/Bond/Prompt.antt =====
-- The command line of rte/examples/bond/main.rs: the instructions that `prompt` lays out, in the order of
-- its array, and `help` and `quit` of `CmdActionResult`.
use rust_dpdk.Prelude.{List, [], ◌∷◌, true}
use rust_dpdk.Text.{codes}
use rust_dpdk.Dpdk.{Dpdk, M, pure, ◌>>=◌, ◌>>◌}
use rust_dpdk.Cmdline
use rust_dpdk.Cmdline.{CmdLine}
use rust_dpdk.Cmdline.Macros.{token_string, token_ipv4}
use rust_dpdk.Cmdline.Lines.{Instruction}
use rust_dpdk.Examples.Bond.Commands
use rust_dpdk.Examples.Bond.Commands.{AppConfig, Line}

-- The handlers.
pub data Handler : Type 0 where
  send start stop show help quit : Handler

unfoldable pub cmd_send : Instruction Handler
unfolding token_ipv4 token_string
cmd_send = record {
  handler = Handler.send;
  has_data = true;
  help = codes "send client_ip";
  tokens = token_string (codes "action") (codes "send") ∷ token_ipv4 (codes "ip") ∷ [];
}

unfoldable pub cmd_start : Instruction Handler
unfolding token_string
cmd_start = record {
  handler = Handler.start;
  has_data = true;
  help = codes "starts listening if not started at startup";
  tokens = token_string (codes "action") (codes "start") ∷ [];
}

unfoldable pub cmd_stop : Instruction Handler
unfolding token_string
cmd_stop = record {
  handler = Handler.stop;
  has_data = true;
  help = codes "stops listening if started at startup";
  tokens = token_string (codes "action") (codes "stop") ∷ [];
}

unfoldable pub cmd_show : Instruction Handler
unfolding token_string
cmd_show = record {
  handler = Handler.show;
  has_data = true;
  help = codes "show listening status";
  tokens = token_string (codes "action") (codes "show") ∷ [];
}

unfoldable pub cmd_help : Instruction Handler
unfolding token_string
cmd_help = record {
  handler = Handler.help;
  has_data = true;
  help = codes "show help";
  tokens = token_string (codes "action") (codes "help") ∷ [];
}

unfoldable pub cmd_quit : Instruction Handler
unfolding token_string
cmd_quit = record {
  handler = Handler.quit;
  has_data = true;
  help = codes "quit";
  tokens = token_string (codes "action") (codes "quit") ∷ [];
}

unfoldable pub commands : List (Instruction Handler)
unfolding cmd_send cmd_start cmd_stop cmd_show cmd_help cmd_quit
commands = cmd_send ∷ cmd_start ∷ cmd_stop ∷ cmd_show ∷ cmd_help ∷ cmd_quit ∷ []

module _ (d : Dpdk) where
  -- `CmdActionResult::quit`: what `stop` prints, and the configuration.
  unfoldable pub quit_command : CmdLine → AppConfig → M (AppConfig × List Line)
  unfolding Commands.stop Cmdline.quit
  quit_command cl c = do r ← Commands.stop d c; Cmdline.quit d cl; pure r
