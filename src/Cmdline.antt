-- ===== src/Cmdline.antt =====
-- rte/src/cmdline.rs: command lines, and the C library's calls that they make. A command line is its
-- address.
pub mod PortList
pub mod Tokens
pub mod Insts
pub mod Scope
pub mod Macros
pub mod Lines
use rust_dpdk.Prelude.{
  ℕ, zero, suc, List, [], ◌∷◌, ◌++◌, Option, none, some, if◌then◌else◌, ℤ, pos, negsuc,
}
use rust_dpdk.Outcome.{done}
use rust_dpdk.Dpdk
use rust_dpdk.Dpdk.{Dpdk, M, pure, call, call_ptr, run, ◌>>=◌, ◌>>◌}
use rust_dpdk.Errors.{
  Result, ok, err, map_ok, nul_error, cmdline_parse_error, ok_or, rte_check_value,
  rte_check_non_null,
}
use rust_dpdk.Utils.Strings.{has_nul}

pub data ReadlineStatus : Type 0 where
  init running exited : ReadlineStatus

-- The transmutation of a `u32`; another number is no value of the type.
unfoldable pub readline_status_from : ℤ → Option ReadlineStatus
readline_status_from (pos zero) = some init
readline_status_from (pos (suc zero)) = some running
readline_status_from (pos (suc (suc zero))) = some exited
readline_status_from _ = none

pub data ParseStatus : Type 0 where
  success ambiguous no_match bad_args : ParseStatus

unfoldable pub parse_status_from : ℤ → Option ParseStatus
parse_status_from (pos zero) = some success
parse_status_from (negsuc zero) = some ambiguous
parse_status_from (negsuc (suc zero)) = some no_match
parse_status_from (negsuc (suc (suc zero))) = some bad_args
parse_status_from _ = none

pub data ParseCompleteState : Type 0 where
  try_to_complete display_choice : ParseCompleteState

unfoldable pub complete_state_number : ParseCompleteState → ℤ
complete_state_number try_to_complete = pos 0
complete_state_number display_choice = negsuc 0

pub data ParseCompleteStatus : Type 0 where
  finished again buffer : ParseCompleteStatus

unfoldable pub complete_status_from : ℤ → Option ParseCompleteStatus
complete_status_from (pos zero) = some finished
complete_status_from (pos (suc zero)) = some again
complete_status_from (pos (suc (suc zero))) = some buffer
complete_status_from _ = none

-- `CmdLine`.
pub data CmdLine : Type 0 where
  owned borrowed : ℕ → CmdLine

unfoldable pub as_raw : CmdLine → ℕ
as_raw (owned p) = p
as_raw (borrowed p) = p

module _ (d : Dpdk) where
  open_line : (ℕ → List ℕ → Dpdk.Call) → ℕ → List ℕ → M (Result CmdLine)
  unfolding rte_check_non_null
  open_line new context prompt h =
      let c = new context prompt in
      let after = h ++ c ∷ [] in
      (done (map_ok owned (rte_check_non_null (d.ptr h c) (d.errno after))), after)

  -- `Context::open_stdin`.
  unfoldable pub open_stdin : ℕ → List ℕ → M (Result CmdLine)
  unfolding open_line has_nul
  open_stdin context prompt =
      if has_nul prompt
      then pure (err nul_error)
      else open_line Dpdk.cmdline_stdin_new context prompt

  -- `Context::open_file`, without the path.
  unfoldable pub open_file : ℕ → List ℕ → M (Result CmdLine)
  unfolding open_line has_nul
  open_file context prompt =
      if has_nul prompt
      then pure (err nul_error)
      else open_line Dpdk.cmdline_file_new context prompt

  -- `Drop for CmdLine`, and for the `StdInCmdLine` around one.
  unfoldable pub drop_line : CmdLine → M (Unit {0})
  drop_line (owned p) = run d (Dpdk.cmdline_free p)
  drop_line (borrowed p) = pure tt

  unfoldable pub drop_stdin : CmdLine → M (Unit {0})
  unfolding drop_line as_raw
  drop_stdin line = do run d (Dpdk.cmdline_stdin_exit (as_raw line)); drop_line line

  unfoldable pub print : CmdLine → List ℕ → M (Result (Unit {0}))
  unfolding has_nul as_raw
  print line s =
      if has_nul s
      then pure (err nul_error)
      else (do run d (Dpdk.cmdline_printf (as_raw line) s); pure (ok tt))

  unfoldable pub println : CmdLine → List ℕ → M (Result (Unit {0}))
  unfolding print
  println line s = print line (s ++ 10 ∷ [])

  unfoldable pub set_prompt : CmdLine → List ℕ → M (Unit {0})
  unfolding as_raw
  set_prompt line s = run d (Dpdk.cmdline_set_prompt (as_raw line) s)

  unfoldable pub interact : CmdLine → M (Unit {0})
  unfolding as_raw
  interact line = run d (Dpdk.cmdline_interact (as_raw line))

  unfoldable pub quit : CmdLine → M (Unit {0})
  unfolding as_raw
  quit line = run d (Dpdk.cmdline_quit (as_raw line))

  unfoldable pub poll : CmdLine → M (Result (Option ReadlineStatus))
  unfolding as_raw rte_check_value readline_status_from
  poll line = do
    status ← call d (Dpdk.cmdline_poll (as_raw line))
    pure (rte_check_value status (readline_status_from status))

  unfoldable pub parse : CmdLine → List ℕ → M (Result (Unit {0}))
  unfolding as_raw has_nul ok_or
  parse line buf = if has_nul buf then pure (err nul_error) else (do
    status ← call d (Dpdk.cmdline_parse (as_raw line) buf)
    pure (map_ok (λ _. tt) (ok_or status (cmdline_parse_error status))))

  -- `len` is the length of the slice `dst`.
  unfoldable pub complete :
      CmdLine → List ℕ → ParseCompleteState → ℕ → M (Result (Option ParseCompleteStatus))
  unfolding as_raw has_nul rte_check_value complete_status_from complete_state_number
  complete line buf state len = if has_nul buf then pure (err nul_error) else (do
    status ← call d (Dpdk.cmdline_complete (as_raw line) buf (complete_state_number state) len)
    pure (rte_check_value status (complete_status_from status)))
