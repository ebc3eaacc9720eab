-- ===== src/Cli/Verify.antt =====
-- internal/cli/collection.go: the verification, and the look at what it changed.
use commiter_cli.Base.{
  ℕ, suc, ltb, Bool, true, false, List, [], ◌∷◌, ◌++◌, Option, none, some, if◌then◌else◌, is_nil,
}
use commiter_cli.Base.Dict.{lookup, insert}
use commiter_cli.Base.Int.{ℤ}
use commiter_cli.Base.Result.{Result, ok, err}
use commiter_cli.Base.Str.{Str, lit, str_eq}
use commiter_cli.Cli.ExitCode.{
  code_success, code_internal, code_safety, code_verification, code_commit, code_interrupted,
}
use commiter_cli.Cli.Host.{
  Calls, Event, M, go, ◌>>=◌, ◌>>◌, pure, leave_with, call, recorded, fail_with, must, must_write,
  verified, again_confirmed,
}
use commiter_cli.Cli.Prepare.{of_collection, of_capture, read_yes_context}
use commiter_cli.Cli.Snapshots.{
  Collected, changed_snapshot_paths, unique_strings, mutation_commands,
}
use commiter_cli.Gitstate.Errors
use commiter_cli.Gitstate.Types.{approved_sensitive_changes}
use commiter_cli.Verification.Definition.{Definition}
use commiter_cli.Verification.Runner.{
  CommandResult, RunError, of_command, invalid_timeout, run_failed, run_timed_out, run_interrupted,
}
use commiter_cli.Verification.State.{RepositoryState, StatePolicy, changed_paths}

-- `RunError.Error`, or the message of a bad timeout.
unfoldable pub run_error_text : RunError → Str
run_error_text (of_command run_timed_out name) = lit "verification timed out"
run_error_text (of_command run_interrupted name) = lit "verification interrupted"
run_error_text (of_command run_failed name) = lit "verification command failed"
run_error_text invalid_timeout = lit "verification timeout must be positive"

unfoldable pub run_error_code : RunError → ℕ
run_error_code (of_command run_interrupted name) = code_interrupted
run_error_code (of_command run_timed_out name) = code_verification
run_error_code (of_command run_failed name) = code_verification
run_error_code invalid_timeout = code_verification

-- The zero value of a `RepositoryState`, which `CaptureRepositoryState` returns with an error.
abbrev pub no_state : RepositoryState
no_state = record { head = []; index_path = []; index_mode = 0; index_data = []; files = [] }

abbrev pub state_or_none : Result RepositoryState → RepositoryState
state_or_none (ok s) = s
state_or_none (err m) = no_state

-- What the look at the repository behind the verification finds changed.
unfoldable pub changes_found :
    Collected → RepositoryState → Result RepositoryState → Errors.Result Collected → List Str
unfolding unique_strings
changes_found c before after current = unique_strings (
    changed_paths before (state_or_none after)
    ++ (elim after [ ok s ↦ [] | err m ↦ lit "<repository-state>" ∷ [] ])
    ++ (elim current [
      | Errors.ok now ↦ changed_snapshot_paths c now
      | Errors.err k m ↦ lit "<snapshot>" ∷ []
    ]))

count_of : List (Str × ℕ) → Str → ℕ
count_of m name = elim (lookup m name) [ none ↦ 0 | some n ↦ n ]

-- What is recorded of the answer to the question about a new analysis.
abbrev pub of_reanalysis : Option Bool → List Event
of_reanalysis (some true) = again_confirmed ∷ []
of_reanalysis _ = []

module _ (C : Calls) where
  -- `RestoreIndex`
  unfoldable pub restore_index : RepositoryState → C.World → C.World × Bool
  restore_index s w = if is_nil s.index_path then (w, false) else C.write_index s w

  -- The index is written back, which is reported.
  unfoldable pub index_restored : RepositoryState → Str → Str → M C (Unit {0})
  unfolding must restore_index
  index_restored before unknown report =
      must (restore_index before) code_commit unknown
      >> must (C.lines (report ∷ [])) code_internal (lit "cannot report index restoration")

  -- `printVerificationResults`
  unfoldable pub print_results : List CommandResult → C.World → C.World × Bool
  print_results [] w = (w, true)
  print_results (r ∷ rs) w =
      let (w1, named) = C.lines ((lit "Verification command: " ++ r.name) ∷ []) w in
      let (w2, shown) =
        if is_nil r.output
        then (w1, true)
        else C.lines ((lit "Verification output (" ++ r.name ++ lit "): " ++ r.output) ∷ []) w1 in
      let rest = print_results rs w2 in
      if named then (if shown then rest else (w2, false)) else (w1, false)

  -- What follows the run: the results are printed, and an error ends the cycle behind a restoration.
  unfoldable pub after_verification : RepositoryState → Bool → Option RunError → M C (Unit {0})
  unfolding must restore_index index_restored pure fail_with run_error_code run_error_text
  after_verification before false error =
      must (restore_index before) code_commit
        (lit "verification output failed and index restoration is unknown")
      >> fail_with code_internal (lit "cannot write verification output")
  after_verification before true none = pure tt
  after_verification before true (some e) =
      index_restored before (lit "verification failed and index restoration is unknown")
        (lit "Initial index restored after verification failure.")
      >> fail_with (run_error_code e) (run_error_text e)

  unfoldable pub verify :
      Option Definition → ℤ → StatePolicy → RepositoryState → M C (List CommandResult)
  unfolding recorded call after_verification print_results pure
  verify definition timeout policy before = do
    (results, error) ←
        recorded (C.run_verification definition timeout policy) (λ r. verified definition r.1 ∷ [])
    printed ← call (print_results results)
    after_verification before printed error
    pure results

  -- `repeatedMutation[command]++`
  unfoldable pub count_mutation : Str → M C ℕ
  unfolding count_of
  count_mutation name r =
      let n = suc (count_of r.repeated name) in
      (record r { repeated = insert r.repeated name n }, go n)

  unfoldable pub name_repeated : Str → ℕ → M C (Unit {0})
  unfolding must_write pure
  name_repeated name n =
      if ltb 1 n
      then must_write (C.lines ((lit "Repeated verification mutation command: " ++ name) ∷ []))
      else pure tt

  -- The loop that counts the commands that changed something, and names those that did before.
  unfoldable pub count_mutations : List Str → M C (Unit {0})
  unfolding count_mutation name_repeated pure
  count_mutations [] = pure tt
  count_mutations (name ∷ names) =
      count_mutation name >>= λ n. name_repeated name n >>= λ _. count_mutations names

  -- What the answer to the question about a new analysis leads to.
  unfoldable pub reanalyze : {A : Type 0} → Option Bool → M C A
  unfolding leave_with fail_with
  reanalyze none = fail_with code_interrupted (
      lit
        "interrupted before commit; initial index was restored; verification changes remain in the working tree")
  reanalyze (some true) = leave_with code_success true
  reanalyze (some false) = fail_with code_safety (lit "changed state was not re-analyzed")

  -- The end of a cycle whose verification changed something.
  unfoldable pub mutated : RepositoryState → List CommandResult → List Str → M C (Unit {0})
  unfolding index_restored count_mutations must_write recorded reanalyze
  mutated before results changed = do
    index_restored before (lit "verification mutation detected and index restoration is unknown")
        (lit "Initial index restored after verification mutation.")
    count_mutations (mutation_commands results)
    must_write (
        C.prompt_lines (
          lit "Verification changed Git-visible state:"
          ∷ (changed ++ (lit "Re-analyze changed state? [y/N]" ∷ []))))
    answer ← recorded (read_yes_context C) of_reanalysis
    reanalyze answer

  unfoldable pub interrupted_after : RepositoryState → Bool → M C (Unit {0})
  unfolding index_restored fail_with pure
  interrupted_after before false = pure tt
  interrupted_after before true =
      index_restored before (lit "verification interrupted and index restoration is unknown")
        (lit "Initial index restored after verification interruption.")
      >> fail_with code_interrupted (lit "verification interrupted")

  -- The second look at the repository: the cycle goes on if nothing changed.
  unfoldable pub check_unchanged :
      Collected → StatePolicy → RepositoryState → List CommandResult → M C (Unit {0})
  unfolding recorded call interrupted_after mutated pure
  check_unchanged c policy before results = do
    after ← recorded (C.capture policy) of_capture
    current ← recorded (C.collect (approved_sensitive_changes c.changes) none) of_collection
    ended ← call C.interrupted
    interrupted_after before ended
    let changed = changes_found c before after current
    if is_nil changed then pure tt else mutated before results changed
