-- ===== src/Cli/Finish.antt =====
-- internal/cli/collection.go: the commits and the push at the end of the cycle.
use commiter_cli.Base.{
  ℕ, Bool, true, false, not, ◌&&◌, ◌||◌, List, [], ◌∷◌, ◌++◌, map, Option, none, some,
  if◌then◌else◌, eqb, is_nil,
}
use commiter_cli.Base.Str.{Str, lit}
use commiter_cli.Cli.ExitCode.{
  code_success, code_internal, code_canceled, code_commit, code_push, code_interrupted,
}
use commiter_cli.Cli.Host.{
  Calls, Event, M, ◌>>=◌, ◌>>◌, pure, call, recorded, fail_with, must, must_write,
  unless_interrupted, CommitRequest, Committed, committing, made_commits, push_confirmed, pushing,
}
use commiter_cli.Cli.Prepare.{read_yes_context}
use commiter_cli.Cli.Snapshots.{Collected, any_sensitive, known_unapproved_changes}
use commiter_cli.Commitexec.Run.{Failure, classified, plain, exit_interrupted}
use commiter_cli.Config.Values.{Values}
use commiter_cli.Interaction.Push.{Pushed, pushed, push_failed, push_interrupted, refused}
use commiter_cli.Interaction.PushTarget.{PushTarget}
use commiter_cli.Planning.Types.{Plan}
use commiter_cli.Verification.State.{StatePolicy}

abbrev pub push_was_interrupted : Str
push_was_interrupted = lit "push interrupted; local commits were kept"

-- The options of `commitFlow`.
unfoldable pub commit_request : Collected → Plan → StatePolicy → CommitRequest
unfolding known_unapproved_changes
commit_request c p policy = record {
  options = record {
    root = c.root;
    changes = c.changes;
    plan = p;
    known_unapproved = known_unapproved_changes c.excluded;
  };
  approved_sensitive = policy.approved_sensitive;
  additional_sensitive = policy.additional_sensitive;
}

-- What is recorded of the commits, with their hashes if they were made without an error.
abbrev pub of_commit : CommitRequest → Committed → List Event
of_commit r m = elim m.failure [
  | none ↦ made_commits m.hashes ∷ committing r ∷ []
  | some f ↦ committing r ∷ []
]

abbrev pub of_answer : PushTarget → Option Bool → List Event
of_answer t (some true) = push_confirmed t ∷ []
of_answer t _ = []

module _ (C : Calls) where
  -- `classifyCommitError`, and the hashes where there is no error.
  unfoldable pub classify_commit : List Str → Option Failure → M C (List Str)
  unfolding pure fail_with
  classify_commit hashes none = pure hashes
  classify_commit hashes (some plain) = fail_with code_commit (lit "commit execution failed")
  classify_commit hashes (some (classified e)) =
      fail_with (if eqb e.code exit_interrupted then code_interrupted else code_commit) e.message

  unfoldable pub show_hooks : Str → M C (Unit {0})
  unfolding must pure
  show_hooks text =
      if is_nil text
      then pure tt
      else must (C.lines ((lit "Git hook output: " ++ text) ∷ [])) code_internal
          (lit "cannot write hook output")

  -- `commitFlow` and what is said of it.
  unfoldable pub make_commits : Collected → Plan → StatePolicy → M C (Unit {0})
  unfolding commit_request recorded show_hooks classify_commit must_write
  make_commits c p policy = do
    let request = commit_request c p policy
    made ← recorded (C.commit request) (of_commit request)
    show_hooks made.hook_output
    hashes ← classify_commit made.hashes made.failure
    must_write (C.lines (lit "Commit execution completed." ∷ map (λ h. lit "commit: " ++ h) hashes))

  -- The answer to the question about the push.
  unfoldable pub push_answer : Option Bool → M C (Unit {0})
  unfolding pure fail_with
  push_answer none = fail_with code_interrupted push_was_interrupted
  push_answer (some false) = fail_with code_canceled (lit "push declined; local commits were kept")
  push_answer (some true) = pure tt

  -- The question about the push, which a sensitive change forces.
  unfoldable pub ask_push : Values → Bool → PushTarget → M C (Unit {0})
  unfolding call recorded must unless_interrupted push_answer pure
  ask_push v forced t = do
    ended ← call C.interrupted
    (if ended then fail_with code_interrupted push_was_interrupted else pure tt)
    (if forced && not v.push_confirm
        then must
            (C.lines (
              lit
                "Push confirmation is required because this run committed an approved sensitive candidate."
              ∷ []))
            code_internal (lit "cannot write push confirmation reason")
        else pure tt)
    must
        (C.prompt_lines ((lit "Push to " ++ t.remote ++ lit "/" ++ t.branch ++ lit "? [y/N]") ∷ []))
        code_internal (lit "cannot write push confirmation")
    answer ← recorded (read_yes_context C) (of_answer t)
    push_answer answer

  -- The end of the push: an interruption explains every error.
  unfoldable pub pushed_or_fail : Pushed → M C (Unit {0})
  unfolding call fail_with pure
  pushed_or_fail pushed = pure tt
  pushed_or_fail push_interrupted =
      call C.interrupted >>= λ _. fail_with code_interrupted push_was_interrupted
  pushed_or_fail push_failed = call C.interrupted >>= λ ended.
      if ended
      then fail_with code_interrupted push_was_interrupted
      else fail_with code_push (lit "git push failed; local commits were kept")
  pushed_or_fail (refused m) = call C.interrupted >>= λ ended.
      if ended then fail_with code_interrupted push_was_interrupted else fail_with code_push m

  -- What the push needs of its target.
  unfoldable pub require_target : PushTarget → M C (Unit {0})
  unfolding pure fail_with must
  require_target t =
      (if t.resolved
        then pure tt
        else fail_with code_push (t.reason ++ lit "; local commits were kept"))
      >> must
          (C.lines (
            (lit "Push target: " ++ t.remote ++ lit "/" ++ t.branch)
            ∷ lit
                "Push includes all outgoing commits from the current branch, including commits created before this run."
            ∷ lit
                "Pre-existing outgoing commits are not re-analyzed or reclassified for sensitive content."
            ∷ []))
          code_internal (lit "cannot write push summary")

  unfoldable pub confirm_push : Values → Bool → PushTarget → M C (Unit {0})
  unfolding ask_push must_write
  confirm_push v forced t =
      if v.push_confirm || forced
      then ask_push v forced t
      else must_write (C.lines (lit "Push confirmation skipped by configuration." ∷ []))

  -- `pushFlow` and what is said of it.
  unfoldable pub push_to : PushTarget → M C ℕ
  unfolding recorded pushed_or_fail must_write pure
  push_to t = do
    result ← recorded (C.push t) (λ r. pushing t ∷ [])
    pushed_or_fail result
    must_write (C.lines (lit "Push completed." ∷ []))
    pure code_success

  unfoldable pub push_commits : Collected → Values → M C ℕ
  unfolding call require_target confirm_push push_to
  push_commits c v = do
    t ← call C.resolve_push_target
    require_target t
    confirm_push v (any_sensitive c.changes) t
    push_to t

  -- The push, unless it is turned off.
  unfoldable pub finish_push : Collected → Values → M C ℕ
  unfolding push_commits must_write pure
  finish_push c v =
      if v.push_enabled
      then push_commits c v
      else must_write (C.lines (lit "Push skipped by configuration; local commits were kept." ∷ []))
        >> pure code_success
