-- ===== src/Cmdline/Scope.antt =====
-- What a program sees of a command line of rte/src/cmdline.rs: the statuses, and the life of an opened
-- line.
use rust_dpdk.Prelude.{
  ℕ, zero, suc, ◌≡◌, List, [], ◌∷◌, ◌++◌, Option, none, some, false, Bool-cases, inl, inr, ℤ, pos,
  negsuc, arith, append_assoc,
}
use rust_dpdk.Outcome.{done}
use rust_dpdk.Dpdk
use rust_dpdk.Dpdk.{Dpdk, History, M, pure, ◌>>=◌, ◌>>◌}
use rust_dpdk.Errors.{Result, ok, err, rte_check_value, rte_check_non_null}
use rust_dpdk.Utils.Strings.{has_nul}
use rust_dpdk.Cmdline.{
  CmdLine, owned, as_raw, open_stdin, open_line, drop_stdin, drop_line, poll, complete,
  ReadlineStatus, init, ParseCompleteStatus, ParseCompleteState, finished, readline_status_from,
  complete_status_from, complete_state_number,
}

checked_zero :
    {A : Type 0} (status : ℤ) (from : ℤ → Option A) (s : Option A)
    → rte_check_value status (from status) ≡ ok s
    → s ≡ from (pos 0)
unfolding rte_check_value
checked_zero (pos zero) from s e = ground (arith, e)
checked_zero (pos (suc n)) from s e = ground (arith, e)
checked_zero (negsuc n) from s e = ground (arith, e)

module _ (d : Dpdk) where
  -- Whatever DPDK answers, a poll that succeeds reports the initial status, never that the line is
  -- running or has exited, and a completion that succeeds reports that it has finished, never a
  -- completed text or one of several choices.
  pub statuses_lost :
      (line : CmdLine) (buf : List ℕ) (state : ParseCompleteState) (len : ℕ) (h : History)
      {s : Option ReadlineStatus} {t : Option ParseCompleteStatus}
      → (poll d line h).0 ≡ done (ok s)
      → (complete d line buf state len h).0 ≡ done (ok t)
      → (s ≡ some init) × (t ≡ some finished)
  unfolding poll complete as_raw has_nul readline_status_from complete_status_from
  statuses_lost line buf state len h {s} {t} polled completed =
      let status = d.ret h (Dpdk.cmdline_poll (as_raw line)) in
      let ends =
        d.ret h (Dpdk.cmdline_complete (as_raw line) buf (complete_state_number state) len) in
      (
        checked_zero status readline_status_from s (ground (arith, polled)),
        elim (Bool-cases (has_nul buf)) [
          | inl refused ↦ absurd (ground (arith, completed, refused))
          | inr fine ↦ checked_zero ends complete_status_from t (ground (arith, completed, fine))
        ],
      )

  -- The life of a line that a statement opens on the standard input, uses, and drops at its end.
  unfoldable pub with_stdin : {A : Type 0} → ℕ → List ℕ → (CmdLine → M A) → M (Result A)
  unfolding open_stdin drop_stdin
  with_stdin context prompt body = do
    opened ← open_stdin d context prompt
    elim opened [
      | err e ↦ pure (err e)
      | ok line ↦ (do a ← body line; drop_stdin d line; pure (ok a))
    ]

  -- A line that is opened is left and then freed, both once and after all that the statement does with
  -- it.
  pub with_stdin_frees :
      {A : Type 0} (context p : ℕ) (prompt : List ℕ) (body : CmdLine → M A) (h : History) {a : A}
      {h' : History}
      → has_nul prompt ≡ false
      → d.ptr h (Dpdk.cmdline_stdin_new context prompt) ≡ some p
      → body (owned p) (h ++ Dpdk.cmdline_stdin_new context prompt ∷ []) ≡ (done a, h')
      → with_stdin context prompt body h
        ≡ (done (ok a), h' ++ Dpdk.cmdline_stdin_exit p ∷ Dpdk.cmdline_free p ∷ [])
  unfolding with_stdin open_line rte_check_non_null drop_line as_raw has_nul
  with_stdin_frees context p prompt body h fine opened used = grind (arith, append_assoc)

  -- A line that cannot be opened is neither used nor left nor freed.
  pub with_stdin_refused :
      {A : Type 0} (context : ℕ) (prompt : List ℕ) (body : CmdLine → M A) (h : History)
      → has_nul prompt ≡ false
      → d.ptr h (Dpdk.cmdline_stdin_new context prompt) ≡ none
      → (with_stdin context prompt body h).1 ≡ h ++ Dpdk.cmdline_stdin_new context prompt ∷ []
  unfolding with_stdin open_line rte_check_non_null
  with_stdin_refused context prompt body h fine refused = grind (arith, append_assoc)
