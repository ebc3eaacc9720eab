-- ===== src/Cli/Cycle/Checked.antt =====
-- internal/cli/collection.go: the calls of a cycle between its plan and its commits.
use commiter_cli.Base.{
  ℕ, ◌≡◌, refl, Bool, true, false, List, [], ◌∷◌, ◌++◌, Option, none, some, is_nil, append-eq-nil,
  ltb,
}
use mathlib.Core.Path.{subst}
use commiter_cli.Base.Int.{ℤ}
use commiter_cli.Base.Result.{Result, ok, err}
use commiter_cli.Base.Str.{Str, lit, str_eq}
use commiter_cli.Cli.Consent.{
  of_authorization, authorized_or_fail, authorize_definition, clear_commands,
}
use commiter_cli.Cli.Cycle.Allowed.{AllAllowed, Safe}
use commiter_cli.Cli.Cycle.Rules.{
  From, from_bind, from_quiet, from_recorded, from_call, from_pure, from_fail, from_leave, from_if,
  from_must, from_must_write, from_unless,
}
use commiter_cli.Cli.ExitCode.{ExitError}
use commiter_cli.Cli.Host.{Calls, Event, collected, captured, cleared, verified}
use commiter_cli.Cli.Options.{Flags}
use commiter_cli.Cli.Prepare.{of_collection, of_capture, read_yes_context}
use commiter_cli.Cli.Snapshots.{
  Collected, changed_snapshot_paths, unique_strings, mutation_commands,
}
use commiter_cli.Cli.Verify.{
  no_state, of_reanalysis, changes_found, index_restored, print_results, after_verification, verify,
  count_mutation, name_repeated, count_mutations, reanalyze, mutated, interrupted_after,
  check_unchanged,
}
use commiter_cli.Config.Values.{Values}
use commiter_cli.Gitstate.Errors
use commiter_cli.Gitstate.Types.{approved_sensitive_changes}
use commiter_cli.Verification.Definition.{Definition}
use commiter_cli.Verification.Runner.{CommandResult, RunError}
use commiter_cli.Verification.State.{RepositoryState, StatePolicy, changed_paths}
use commiter_cli.Verification.State.Unchanged.{IsUnchanged, changed_paths-nil_iff, sort_strings-nil}

unique_strings-nil : (xs : List Str) → unique_strings xs ≡ [] → xs ≡ []
unfolding unique_strings
unique_strings-nil xs h = sort_strings-nil xs h

append-ne-nil : (xs : List Str) (x : Str) → ¬ (xs ++ (x ∷ []) ≡ [])
append-ne-nil [] x h = cc
append-ne-nil (y ∷ xs) x h = cc

-- Where nothing is found changed, both looks succeeded and show what was there before.
record FoundNothing (c : Collected) (before : RepositoryState) (after : Result RepositoryState)
    (now : Errors.Result Collected) : Type 0 where
  state : RepositoryState
  current : Collected
  captures : after ≡ ok state
  collects : now ≡ Errors.ok current
  unchanged : IsUnchanged before state
  same_changes : changed_snapshot_paths c current ≡ []

found_nothing :
    (c : Collected) (before : RepositoryState) (after : Result RepositoryState)
    (now : Errors.Result Collected)
    → changes_found c before after now ≡ []
    → FoundNothing c before after now
unfolding changes_found
found_nothing c before (ok s) (Errors.ok current) h =
    let parts = append-eq-nil _ _ (unique_strings-nil _ h) in
    record {
      state = s;
      current = current;
      captures = refl;
      collects = refl;
      unchanged = (changed_paths-nil_iff before s).0 (append-eq-nil _ _ parts.0).0;
      same_changes = parts.1;
    }
found_nothing c before (ok s) (Errors.err k m) h =
    absurd
      (append-ne-nil (changed_paths before s ++ []) (lit "<snapshot>") (unique_strings-nil _ h))
found_nothing c before (err m) now h = absurd (
    append-ne-nil (changed_paths before no_state) (lit "<repository-state>")
      (append-eq-nil _ _ (unique_strings-nil _ h)).0)

module _ (C : Calls) (o : Flags) (v : Values) (limit : ℕ) where
  abbrev S : List Event → Type 0
  S = AllAllowed o v

  abbrev E : Option Bool → List Event → Type 0
  E = Safe o v limit

  from_authorized :
      (d : Option Definition) (e : Option ExitError) {calls : List Event}
      → S calls
      → From C E
          (of_authorization d e ++ calls)
          (authorized_or_fail C e)
          (λ _ later. later ≡ cleared d ∷ calls)
  unfolding authorized_or_fail
  from_authorized d none h = from_pure tt refl
  from_authorized d (some e) h = from_quiet (from_unless _ h) λ _. from_fail _ _ h

  pub from_clear_commands :
      (d : Option Definition) {calls : List Event}
      → S calls
      → From C E calls (clear_commands C d) (λ _ later. later ≡ cleared d ∷ calls)
  unfolding clear_commands
  from_clear_commands d h =
      from_recorded (authorize_definition C d) (of_authorization d) λ e. from_authorized d e h

  from_restored :
      (before : RepositoryState) (unknown report : Str) {calls : List Event}
      → S calls
      → From C E calls (index_restored C before unknown report) (λ _ later. later ≡ calls)
  unfolding index_restored
  from_restored before unknown report h =
      from_quiet (from_must _ _ unknown h) λ _. from_must _ _ _ h

  from_after_verification :
      (before : RepositoryState) (printed : Bool) (e : Option RunError) {calls : List Event}
      → S calls
      → From C E calls
          (after_verification C before printed e)
          (λ _ later. (later ≡ calls) × (e ≡ none))
  unfolding after_verification
  from_after_verification before false e h = from_quiet (from_must _ _ _ h) λ _. from_fail _ _ h
  from_after_verification before true none h = from_pure tt (refl, refl)
  from_after_verification before true (some e) h =
      from_quiet (from_restored before _ _ h) λ _. from_fail _ _ h

  pub from_verify :
      (d : Option Definition) (timeout : ℤ) (policy : StatePolicy) (before : RepositoryState)
      {calls : List Event}
      → S calls
      → From C E calls
          (verify C d timeout policy before)
          (λ _ later. later ≡ verified d none ∷ calls)
  unfolding verify
  from_verify d timeout policy before {calls} h =
      from_recorded (C.run_verification d timeout policy) (λ r. verified d r.1 ∷ [])
        λ r. from_call (print_results C r.0) λ printed.
          from_bind (from_after_verification before printed r.1 (tt, h))
            λ _ later e. from_pure r.0 (subst (λ x. later ≡ verified d x ∷ calls) e.1 e.0)

  from_name_repeated :
      (name : Str) (n : ℕ) {calls : List Event}
      → S calls
      → From C E calls (name_repeated C name n) (λ _ later. later ≡ calls)
  unfolding name_repeated
  from_name_repeated name n h =
      from_if (ltb 1 n) (λ _. from_must_write _ h) (λ _. from_pure tt refl)

  from_count_mutations :
      (names : List Str) {calls : List Event}
      → S calls
      → From C E calls (count_mutations C names) (λ _ later. later ≡ calls)
  unfolding count_mutations count_mutation
  from_count_mutations [] h = from_pure tt refl
  from_count_mutations (name ∷ names) h =
      from_quiet (record { ends = λ r e. e })
        λ n. from_quiet (from_name_repeated name n h) λ _. from_count_mutations names h

  from_reanalyze :
      {A : Type 0} {Q : A → List Event → Type 0} (answer : Option Bool) (calls : List Event)
      → S calls
      → From C E (of_reanalysis answer ++ calls) (reanalyze C {A = A} answer) Q
  unfolding reanalyze
  from_reanalyze none calls h = from_fail _ _ h
  from_reanalyze (some true) calls h = from_leave _ _ ((tt, h), (calls, refl))
  from_reanalyze (some false) calls h = from_fail _ _ h

  from_mutated :
      {Q : Unit {0} → List Event → Type 0} (before : RepositoryState) (results : List CommandResult)
      (changed : List Str) {calls : List Event}
      → S calls
      → From C E calls (mutated C before results changed) Q
  unfolding mutated
  from_mutated before results changed {calls} h = from_quiet (from_restored before _ _ h) λ _.
      from_quiet (from_count_mutations (mutation_commands results) h) λ _.
        from_quiet (from_must_write _ h) λ _.
          from_recorded (read_yes_context C) of_reanalysis λ answer. from_reanalyze answer calls h

  from_interrupted_after :
      (before : RepositoryState) (ended : Bool) {calls : List Event}
      → S calls
      → From C E calls (interrupted_after C before ended) (λ _ later. later ≡ calls)
  unfolding interrupted_after
  from_interrupted_after before false h = from_pure tt refl
  from_interrupted_after before true h =
      from_quiet (from_restored before _ _ h) λ _. from_fail _ _ h

  -- The looks at the repository that the cycle goes on behind.
  pub record Looked (c : Collected) (before : RepositoryState) (calls later : List Event)
      : Type 0 where
    pub after : RepositoryState
    pub current : Collected
    pub looks : later ≡ collected current ∷ (captured after ∷ calls)
    pub unchanged : IsUnchanged before after
    pub same_changes : changed_snapshot_paths c current ≡ []

  looked :
      (c : Collected) (before : RepositoryState) (after : Result RepositoryState)
      (now : Errors.Result Collected) (calls : List Event)
      → FoundNothing c before after now
      → Looked c before calls (of_collection now ++ (of_capture after ++ calls))
  looked c before after now calls f = record {
    after = f.state;
    current = f.current;
    looks = λ i. of_collection (f.collects i) ++ (of_capture (f.captures i) ++ calls);
    unchanged = f.unchanged;
    same_changes = f.same_changes;
  }

  safe_looks :
      (after : Result RepositoryState) (now : Errors.Result Collected) (calls : List Event)
      → S calls
      → S (of_collection now ++ (of_capture after ++ calls))
  safe_looks (ok s) (Errors.ok c) calls h = (tt, (tt, h))
  safe_looks (ok s) (Errors.err k m) calls h = (tt, h)
  safe_looks (err e) (Errors.ok c) calls h = (tt, h)
  safe_looks (err e) (Errors.err k m) calls h = h

  is_nil-true : (xs : List Str) → is_nil xs ≡ true → xs ≡ []
  is_nil-true [] h = refl
  is_nil-true (x ∷ xs) h = cc

  pub from_check_unchanged :
      (c : Collected) (policy : StatePolicy) (before : RepositoryState)
      (results : List CommandResult) {calls : List Event}
      → S calls
      → From C E calls
          (check_unchanged C c policy before results)
          (λ _ later. Looked c before calls later)
  unfolding check_unchanged
  from_check_unchanged c policy before results {calls} h =
      from_recorded (C.capture policy) of_capture λ after.
        from_recorded (C.collect (approved_sensitive_changes c.changes) none) of_collection λ now.
          from_call C.interrupted λ ended.
            from_quiet (from_interrupted_after before ended (safe_looks after now calls h)) λ _.
              from_if (is_nil (changes_found c before after now))
                (λ e. from_pure tt (
                  looked c before after now calls
                    (found_nothing c before after now (is_nil-true _ e))))
                (λ e. from_mutated before results _ (safe_looks after now calls h))
