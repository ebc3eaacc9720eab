-- ===== src/Cli/Prepare.antt =====
-- internal/cli/collection.go: the cycle up to the plan: `runCollectionCycle` before its review.
use commiter_cli.Base.{
  ℕ, Bool, true, false, ◌||◌, List, [], ◌∷◌, ◌++◌, map, Option, none, some, if◌then◌else◌, ◌==◌,
  is_nil,
}
use commiter_cli.Base.Result.{Result, ok, err}
use commiter_cli.Base.Str.{Str, lit, str_eq, trim_space}
use commiter_cli.Cli.ExitCode.{code_success, code_internal, code_usage, code_safety}
use commiter_cli.Cli.Host.{
  Calls, Event, M, ◌>>=◌, ◌>>◌, pure, leave_with, call, recorded, fail_with, must_write,
  unless_interrupted, Planned, planned, not_planned, of_snapshot, of_plan, collected, captured,
  proposed,
}
use commiter_cli.Cli.Options.{Flags}
use commiter_cli.Cli.Snapshots.{Collected, ReviewRequest}
use commiter_cli.Gitstate.Collect.{Candidate}
use commiter_cli.Gitstate.Errors
use commiter_cli.Gitstate.Types.{Change}
use commiter_cli.Interaction.PushTarget.{PushTarget}
use commiter_cli.Planning.Types.{Plan}
use commiter_cli.Verification.Definition.{Definition}
use commiter_cli.Verification.State.{RepositoryState, StatePolicy}

-- `interruptedBeforeCommit`
abbrev pub interrupted_before_commit : Str
interrupted_before_commit = lit "interrupted before commit; Git state was not changed"

-- What is recorded of a collection, a capture and a planning.
abbrev pub of_collection : Errors.Result Collected → List Event
of_collection (Errors.ok c) = collected c ∷ []
of_collection (Errors.err k m) = []

abbrev pub of_capture : Result RepositoryState → List Event
of_capture (ok s) = captured s ∷ []
of_capture (err m) = []

abbrev pub of_planning : Planned → List Event
of_planning (planned p) = proposed p ∷ []
of_planning (not_planned e) = []

module _ (C : Calls) where
  yes_answer : Str → Bool
  yes_answer line =
      let answer = trim_space line in
      answer == lit "y" || answer == lit "Y" || C.equal_fold answer (lit "yes")

  -- `readYes`, of the line that was read.
  unfoldable pub read_yes : Option Str → Bool
  unfolding yes_answer
  read_yes none = false
  read_yes (some line) = yes_answer line

  -- `readYesContext`: none is its error.
  unfoldable pub read_yes_context : C.World → C.World × Option Bool
  unfolding read_yes
  read_yes_context w =
      let (w1, before) = C.interrupted w in
      if before
      then (w1, none)
      else let (w2, line) = C.read_line w1 in
        let (w3, after) = C.interrupted w2 in (w3, if after then none else some (read_yes line))

  approved_or_not : Option Bool → Option Bool
  approved_or_not none = some false
  approved_or_not (some answer) = some answer

  -- The callback about the candidates: none is its error, that they could not be shown.
  unfoldable pub approve_candidates : List Candidate → C.World → C.World × Option Bool
  unfolding read_yes_context approved_or_not
  approve_candidates candidates w =
      let (w1, shown) =
        C.prompt_lines
          (lit
              "Sensitive candidates matched path-name rules; this does not mean a secret value was detected."
            ∷ lit "File contents have not been read. Approval is required before reading:"
            ∷ (map (λ c. c.path ++ lit " (" ++ c.reason ++ lit ")") candidates
                ++ (lit "Read all listed candidates? [y/N]" ∷ [])))
          w in
      if shown
      then (let (w2, answer) = read_yes_context w1 in (w2, approved_or_not answer))
      else (w1, none)

  -- `classifyCollectionError`
  unfoldable pub classify_collection : Errors.Result Collected → M C Collected
  unfolding pure fail_with
  classify_collection (Errors.ok c) = pure c
  classify_collection (Errors.err Errors.usage m) = fail_with code_usage m
  classify_collection (Errors.err Errors.safety m) = fail_with code_safety m
  classify_collection (Errors.err Errors.internal m) = fail_with code_internal m

  unfoldable pub take_snapshot : M C Collected
  unfolding recorded unless_interrupted classify_collection approve_candidates
  take_snapshot = do
    r ← recorded (C.collect [] (some approve_candidates)) of_collection
    unless_interrupted interrupted_before_commit
    classify_collection r

  bool_text : Bool → Str
  bool_text true = lit "true"
  bool_text false = lit "false"

  snapshot_path : Option Str → Option Str → Str
  snapshot_path old (some p) = p
  snapshot_path (some p) none = p
  snapshot_path none none = []

  -- The line of a change.
  change_line : Change → Str
  unfolding bool_text snapshot_path
  change_line c =
      c.id
      ++ lit " "
      ++ c.status
      ++ lit " "
      ++ snapshot_path c.old_path c.new_path
      ++ lit " language="
      ++ c.language
      ++ lit " binary="
      ++ bool_text c.binary
      ++ lit " opaque="
      ++ bool_text c.opaque
      ++ lit " change_hash="
      ++ c.change_hash

  -- The lines of `printSnapshot`.
  unfoldable pub snapshot_lines : Collected → List Str
  unfolding change_line
  snapshot_lines c =
      (lit "Repository: " ++ c.root)
      ∷ (lit "HEAD: " ++ c.head ++ lit " (" ++ c.branch ++ lit ")")
      ∷ (map (λ e. lit "Excluded: " ++ e.path ++ lit " (" ++ e.reason ++ lit ")") c.excluded
          ++ map change_line c.changes
          ++ (if is_nil c.changes then lit "No target changes." ∷ [] else []))

  -- What the cycle does with an empty snapshot: it shows it and succeeds.
  unfoldable pub stop_when_empty : Flags → Collected → M C (Unit {0})
  unfolding must_write leave_with pure snapshot_lines
  stop_when_empty o c =
      if is_nil c.changes
      then must_write
          (if o.json then C.value (of_snapshot c o.dry_run) else C.lines (snapshot_lines c))
        >> leave_with code_success false
      else pure tt

  -- A result whose error ends the cycle, unless an interruption explains it.
  unfoldable pub or_fail : {A : Type 0} → ℕ → Result A → M C A
  unfolding pure fail_with unless_interrupted
  or_fail code (ok a) = pure a
  or_fail code (err m) = unless_interrupted interrupted_before_commit >> fail_with code m

  unfoldable pub capture_before : StatePolicy → M C RepositoryState
  unfolding recorded or_fail
  capture_before policy = recorded (C.capture policy) of_capture >>= or_fail code_safety

  unfoldable pub resolve_commands : M C (Option Definition)
  unfolding call or_fail
  resolve_commands = call C.resolve_definition >>= or_fail code_usage

  -- `classifyPlanningError`
  unfoldable pub classify_planning : Planned → M C Plan
  unfolding pure fail_with unless_interrupted
  classify_planning (planned p) = unless_interrupted interrupted_before_commit >> pure p
  classify_planning (not_planned e) =
      unless_interrupted interrupted_before_commit >> fail_with e.code e.message

  -- `planFlow`, with a supplement, and what follows it.
  unfoldable pub make_plan : Collected → Str → M C Plan
  unfolding recorded classify_planning
  make_plan c supplement = recorded (C.plan c supplement) of_planning >>= classify_planning

  -- The exits of `--json` and `--dry-run`: the plan is shown.
  unfoldable pub show_only :
      Flags → Collected → Plan → Option Definition → PushTarget → ReviewRequest → M C (Unit {0})
  unfolding must_write leave_with pure
  show_only o c p definition target request =
      if o.json
      then must_write (C.value (of_plan c p target definition)) >> leave_with code_success false
      else if o.dry_run
      then must_write (C.render request) >> leave_with code_success false
      else pure tt
