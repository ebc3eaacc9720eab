-- ===== src/Cli/Host.antt =====
-- internal/cli/collection.go: what a cycle calls, and the steps that a cycle is made of. The source
-- holds the planner, the verification, the commits and the push in variables; the other components
-- stand beside them.
use commiter_cli.Base.{ℕ, Bool, false, List, ◌++◌, Option, if◌then◌else◌}
use commiter_cli.Base.Int.{ℤ}
use commiter_cli.Base.Result.{Result}
use commiter_cli.Base.Str.{Str, lit}
use commiter_cli.Cli.ExitCode.{ExitError, code_internal, code_interrupted}
use commiter_cli.Cli.Snapshots.{Collected, ReviewRequest}
use commiter_cli.Commitexec.Execute.{Options}
use commiter_cli.Commitexec.Run.{Failure}
use commiter_cli.Gitstate.Collect.{Candidate}
use commiter_cli.Gitstate.Errors
use commiter_cli.Gitstate.Types.{ChangeIdentity}
use commiter_cli.Interaction.Push.{Pushed}
use commiter_cli.Interaction.PushTarget.{PushTarget}
use commiter_cli.Interaction.Review.{Decision, Outcome}
use commiter_cli.Planning.Types.{Plan}
use commiter_cli.Verification.Approval.{ApprovalRequest}
use commiter_cli.Verification.Definition.{Definition}
use commiter_cli.Verification.Runner.{CommandResult, RunError}
use commiter_cli.Verification.State.{RepositoryState, StatePolicy}

-- `commitexec.Options`, with what that component reads through its host.
pub record CommitRequest : Type 0 where
  pub options : Options
  pub approved_sensitive : List ChangeIdentity
  pub additional_sensitive : List Str

-- What the commits came to: their hashes, the error, and the output of the hooks.
pub record Committed : Type 0 where
  pub hashes : List Str
  pub failure : Option Failure
  pub hook_output : Str

-- What `planFlow` gives.
pub data Planned : Type 0 where
  planned : Plan → Planned
  not_planned : ExitError → Planned

-- The error of `verification.Authorize`: none, `ErrNotApproved`, or another.
pub data Authorization : Type 0 where
  authorized denied : Authorization
  refused : Str → Authorization

-- The documents that are printed as JSON.
pub data Document : Type 0 where
  of_snapshot : Collected → Bool → Document
  of_plan : Collected → Plan → PushTarget → Option Definition → Document

-- The world of a run and the calls of a cycle, each with the world that it leaves. A Bool is whether
-- the call succeeded.
pub record Calls : Type 1 where
  pub World : Type 0
  -- `ctx.Err() != nil`
  pub interrupted : World → World × Bool
  -- Printer.Lines, Printer.PromptLines, Printer.Value and Printer.Error
  pub lines : List Str → World → World × Bool
  pub prompt_lines : List Str → World → World × Bool
  pub value : Document → World → World × Bool
  pub print_error : ExitError → World → World
  -- A line of the input; none at its end, or when the context ended first.
  pub read_line : World → World × Option Str
  -- gitstate.Collect, with the approvals that it is given and the callback
  pub collect :
      List ChangeIdentity
      → Option (List Candidate → World → World × Option Bool)
      → World
      → World × Errors.Result Collected
  pub capture : StatePolicy → World → World × Result RepositoryState
  pub write_index : RepositoryState → World → World × Bool
  pub resolve_definition : World → World × Result (Option Definition)
  pub resolve_push_target : World → World × PushTarget
  pub plan : Collected → Str → World → World × Planned
  pub render : ReviewRequest → World → World × Bool
  pub review : ReviewRequest → World → World × Outcome
  pub authorize :
      Definition → (ApprovalRequest → World → World × Result Bool) → World → World × Authorization
  pub run_verification :
      Option Definition → ℤ → StatePolicy → World → World × (List CommandResult × Option RunError)
  pub commit : CommitRequest → World → World × Committed
  pub push : PushTarget → World → World × Pushed
  -- strings.EqualFold, strconv.Itoa and the JSON text of an argument vector
  pub equal_fold : Str → Str → Bool
  pub decimal : ℕ → Str
  pub marshal : List Str → Option Str

-- The calls that matter to what may be committed and pushed, with what they returned.
pub data Event : Type 0 where
  collected : Collected → Event
  captured : RepositoryState → Event
  proposed : Plan → Event
  reviewed : ReviewRequest → Decision → Event
  cleared : Option Definition → Event
  verified : Option Definition → Option RunError → Event
  again_confirmed : Event
  committing : CommitRequest → Event
  made_commits : List Str → Event
  push_confirmed : PushTarget → Event
  pushing : PushTarget → Event

-- The world, the calls so far with the last one first, and `repeatedMutation`.
pub record Session (C : Calls) : Type 0 where
  pub world : C.World
  pub log : List Event
  pub repeated : List (Str × ℕ)

-- A step goes on with a value or leaves the cycle with its code and whether to analyze again. A
-- loop without a bound of its own may run out of its fuel.
pub data Step (A : Type 0) : Type 0 where
  go : A → Step A
  leave : ℕ → Bool → Step A
  exhausted : Step A

abbrev pub M : Calls → Type 0 → Type 0
M C A = Session C → Session C × Step A

module _ {C : Calls} {A B : Type 0} where
  abbrev pub continue : Step A → (A → M C B) → M C B
  continue (go a) f r = f a r
  continue (leave code again) f r = (r, leave code again)
  continue exhausted f r = (r, exhausted)

  infixl 10 ◌>>=◌ ◌>>◌
  unfoldable pub ◌>>=◌ : M C A → (A → M C B) → M C B
  ◌>>=◌ m f r = continue (m r).1 f (m r).0

  abbrev pub ◌>>◌ : M C A → M C B → M C B
  m >> n = m >>= λ _. n

module _ {C : Calls} {A : Type 0} where
  unfoldable pub pure : A → M C A
  pure a r = (r, go a)

  unfoldable pub leave_with : ℕ → Bool → M C A
  leave_with code again r = (r, leave code again)

  -- A call that is not recorded, and one that is.
  unfoldable pub call : (C.World → C.World × A) → M C A
  call f r = (record r { world = (f r.world).0 }, go (f r.world).1)

  unfoldable pub recorded : (C.World → C.World × A) → (A → List Event) → M C A
  recorded f events r =
      (record r { world = (f r.world).0; log = events (f r.world).1 ++ r.log }, go (f r.world).1)

  -- `return fail(printer, err), false`
  unfoldable pub fail_with : ℕ → Str → M C A
  fail_with code message r = (
    record r { world = C.print_error (record { code = code; message = message }) r.world },
    leave code false,
  )

module _ {C : Calls} where
  -- The cycle goes on if the call succeeds and fails otherwise.
  unfoldable pub must : (C.World → C.World × Bool) → ℕ → Str → M C (Unit {0})
  unfolding call fail_with pure
  must f code message = call f >>= λ done. if done then pure tt else fail_with code message

  unfoldable pub must_write : (C.World → C.World × Bool) → M C (Unit {0})
  unfolding must
  must_write f = must f code_internal (lit "cannot write output")

  -- `if ctx.Err() != nil { return fail(…), false }`
  unfoldable pub unless_interrupted : Str → M C (Unit {0})
  unfolding call fail_with pure
  unless_interrupted message =
      call C.interrupted >>= λ i. if i then fail_with code_interrupted message else pure tt
