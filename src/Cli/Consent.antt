-- ===== src/Cli/Consent.antt =====
-- internal/cli/collection.go: the review of the plan, and internal/cli/verification.go: the approval
-- of the verification commands.
use commiter_cli.Base.{
  ℕ, zero, suc, Bool, true, false, List, [], ◌∷◌, ◌++◌, Option, none, some, if◌then◌else◌, ◌==◌,
}
use commiter_cli.Base.Result.{Result, ok, err}
use commiter_cli.Base.Str.{Str, lit, str_eq, trim_space}
use commiter_cli.Cli.ExitCode.{ExitError, code_internal, code_canceled}
use commiter_cli.Cli.Host.{
  Calls, Event, M, ◌>>=◌, ◌>>◌, pure, exhausted, recorded, fail_with, must_write,
  unless_interrupted, reviewed, cleared, Authorization, authorized, denied, refused,
}
use commiter_cli.Cli.Prepare.{interrupted_before_commit, make_plan}
use commiter_cli.Cli.Snapshots.{Collected, review_request}
use commiter_cli.Config.Values.{Values}
use commiter_cli.Interaction.PushTarget.{PushTarget}
use commiter_cli.Interaction.Review.{
  Decision, approve, regenerate, reject, reject_empty, reject_eof, reject_empty_feedback,
  reject_eof_feedback,
}
use commiter_cli.Planning.Types.{Plan}
use commiter_cli.Verification.Approval.{ApprovalRequest}
use commiter_cli.Verification.Definition.{
  Definition, Command, ManifestScript, source_package_json_autodetect,
}

module _ {C : Calls} where
  -- The switch on a decision, of what follows a supplement.
  unfoldable pub decided : Plan → Str → (Plan → M C Plan) → Decision → (Str → M C Plan) → M C Plan
  unfolding must_write pure fail_with
  decided p supplement next approve replan =
      must_write (C.lines (lit "Commit plan approved." ∷ [])) >> pure p
  decided p supplement next regenerate replan = replan supplement >>= next
  decided p supplement next reject replan =
      fail_with code_canceled (lit "commit plan rejected by user")
  decided p supplement next reject_empty replan =
      fail_with code_canceled (lit "commit plan canceled: empty input (default: no)")
  decided p supplement next reject_eof replan =
      fail_with code_canceled (lit "commit plan canceled: input stream ended (EOF; default: no)")
  decided p supplement next reject_empty_feedback replan =
      fail_with code_canceled (lit "commit plan canceled: regeneration feedback was empty")
  decided p supplement next reject_eof_feedback replan =
      fail_with code_canceled
        (lit "commit plan canceled: input stream ended (EOF) during regeneration feedback")

  -- The error of a review.
  unfoldable pub reviewed_or_fail : Option Str → M C (Unit {0})
  unfolding pure fail_with unless_interrupted
  reviewed_or_fail none = unless_interrupted interrupted_before_commit
  reviewed_or_fail (some m) =
      unless_interrupted interrupted_before_commit
      >> fail_with code_internal (lit "cannot review commit plan")

  out_of_rounds : M C Plan
  out_of_rounds r = (r, exhausted)

module _ (C : Calls) (c : Collected) (definition : Option Definition) (target : PushTarget) where
  -- The loop of the review, at most as many rounds of it as the fuel says.
  unfoldable pub review_loop : ℕ → Plan → M C Plan
  unfolding recorded reviewed_or_fail decided make_plan out_of_rounds
  review_loop zero p = out_of_rounds
  review_loop (suc rounds) p =
      let request = review_request c p definition target in
      let next = review_loop rounds in
      recorded (C.review request) (λ o. reviewed request o.0 ∷ [])
      >>= λ (decision, supplement, error).
          reviewed_or_fail error >>= λ _. decided p supplement next decision (make_plan C c)

  -- The plan that is executed: the reviewed one, or the first where no confirmation is wanted.
  unfoldable pub approve_plan : Values → ℕ → Plan → M C Plan
  unfolding review_loop must_write pure
  approve_plan v rounds p =
      if v.commit_confirm
      then review_loop rounds p
      else must_write (C.render (review_request c p definition target))
        >> must_write (C.lines (lit "Commit confirmation skipped by configuration." ∷ []))
        >> pure p

abbrev pub of_authorization : Option Definition → Option ExitError → List Event
of_authorization d none = cleared d ∷ []
of_authorization d (some e) = []

module _ (C : Calls) where
  script_lines : List ManifestScript → List Str
  script_lines [] = []
  script_lines (s ∷ ss) =
      (lit "implicit_lifecycle_script_name: " ++ s.name)
      ∷ (lit "implicit_lifecycle_script_body: " ++ s.body)
      ∷ script_lines ss

  -- The lines of the commands; none if an argument vector has no JSON text.
  command_lines : Str → List Command → Option (List Str)
  unfolding script_lines
  command_lines source_type [] = some []
  command_lines source_type (c ∷ cs) =
      let rest = command_lines source_type cs in
      elim (C.marshal c.argv) [
        | none ↦ none
        | some argv ↦ elim rest [
          | none ↦ none
          | some more ↦ some (
              (lit "command: " ++ c.name)
              ∷ (lit "cwd: " ++ c.cwd)
              ∷ (lit "argv: " ++ argv)
              ∷ ((if source_type == source_package_json_autodetect
                    then (lit "manifest_path: " ++ c.manifest_path)
                      ∷ (lit "script_name: " ++ c.script_name)
                      ∷ (lit "script_body: " ++ c.script_body)
                      ∷ script_lines c.implicit_lifecycle_scripts
                    else [])
                  ++ more))
        ]
      ]

  -- What the callback makes of the line that was read, or of its error.
  unfoldable pub answered : C.World × Option Str → C.World × Result Bool
  answered (w, some line) = (w, ok (C.equal_fold (trim_space line) (lit "y")))
  answered (w, none) =
      let (w', ended) = C.interrupted w in
      (w', if ended then err (lit "context canceled") else ok false)

  -- The callback of `authorizeVerificationDefinitionContext`.
  unfoldable pub ask_verification : ApprovalRequest → C.World → C.World × Result Bool
  unfolding answered command_lines
  ask_verification request w =
      elim (command_lines request.definition.source_type request.definition.commands) [
        | none ↦ (w, err (lit "cannot format verification definition"))
        | some commands ↦
            let (w', shown) =
              C.lines
                (lit "Verification approval required"
                  ∷ (lit "source_type: " ++ request.definition.source_type)
                  ∷ (commands
                      ++ ((lit "verification_definition_hash: " ++ request.hash)
                          ∷ lit "Approve verification definition? [y/N]"
                          ∷ [])))
                w in
            if shown then answered (C.read_line w') else (w', err (lit "cannot write output"))
      ]

  -- The error of `authorizeVerificationDefinitionContext`; another error has the code of any error.
  unfoldable pub authorization_error : Authorization → Option ExitError
  authorization_error authorized = none
  authorization_error denied =
      some (record { code = code_canceled; message = lit "verification approval canceled" })
  authorization_error (refused m) = some (record { code = code_internal; message = m })

  none_shown : C.World × Bool → C.World × Option ExitError
  none_shown (w, true) = (w, none)
  none_shown (w, false) =
      (w, some (record { code = code_internal; message = lit "cannot write output" }))

  -- `authorizeVerificationDefinitionContext`
  unfoldable pub authorize_definition : Option Definition → C.World → C.World × Option ExitError
  unfolding ask_verification authorization_error none_shown
  authorize_definition none w = none_shown (C.lines (lit "Verification: none" ∷ []) w)
  authorize_definition (some d) w =
      let (w', answer) = C.authorize d ask_verification w in (w', authorization_error answer)

  unfoldable pub authorized_or_fail : Option ExitError → M C (Unit {0})
  unfolding pure fail_with unless_interrupted
  authorized_or_fail none = pure tt
  authorized_or_fail (some e) =
      unless_interrupted interrupted_before_commit >> fail_with e.code e.message

  unfoldable pub clear_commands : Option Definition → M C (Unit {0})
  unfolding recorded authorize_definition authorized_or_fail
  clear_commands d = recorded (authorize_definition d) (of_authorization d) >>= authorized_or_fail
