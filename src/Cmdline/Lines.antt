-- ===== src/Cmdline/Lines.antt =====
-- What `inst` of rte/src/cmdline.rs makes of a handler, its help and its tokens. Which line an
-- instruction takes is for the C library to say.
use rust_dpdk.Prelude.{ℕ, List, Bool}
use rust_dpdk.Cmdline.Macros.{TokenInit}

-- An instruction: the handler, whether it is given data, the help, and the tokens.
pub record Instruction (H : Type 0) : Type 0 where
  pub handler : H
  pub has_data : Bool
  pub help : List ℕ
  pub tokens : List TokenInit
