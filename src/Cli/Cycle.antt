-- ===== src/Cli/Cycle.antt =====
-- internal/cli/collection.go: `runCollectionCycle`, as the sequence of its parts, and `runCollection`.
pub mod Allowed
pub mod Rules
mod Planned
mod Checked
mod Finished
pub mod Safe
use commiter_cli.Base.{
  ℕ, zero, suc, Bool, true, false, List, [], ◌∷◌, Option, none, some, if◌then◌else◌,
}
use commiter_cli.Base.Str.{Str, lit}
use commiter_cli.Cli.Consent.{approve_plan, clear_commands}
use commiter_cli.Cli.Finish.{make_commits, finish_push}
use commiter_cli.Cli.Host.{
  Calls, Session, Step, M, go, leave, exhausted, ◌>>=◌, ◌>>◌, call, leave_with,
}
use commiter_cli.Cli.Options.{Flags}
use commiter_cli.Cli.Prepare.{
  take_snapshot, stop_when_empty, capture_before, resolve_commands, make_plan, show_only,
}
use commiter_cli.Cli.Snapshots.{Collected, review_request, state_policy}
use commiter_cli.Cli.Verify.{verify, check_unchanged}
use commiter_cli.Config.Values.{Values}
use commiter_cli.Interaction.PushTarget.{PushTarget}
use commiter_cli.Planning.Types.{Plan}
use commiter_cli.Verification.Definition.{Definition}
use commiter_cli.Verification.State.{RepositoryState}

module _ (C : Calls) (o : Flags) (v : Values) (rounds : ℕ) where
  -- The cycle behind the approved plan.
  unfoldable pub execute_plan : Collected → RepositoryState → Option Definition → Plan → M C ℕ
  unfolding clear_commands verify check_unchanged make_commits finish_push state_policy
  execute_plan c before definition p = do
    clear_commands C definition
    results ← verify C definition v.timeout (state_policy c v) before
    check_unchanged C c (state_policy c v) before results
    make_commits C c p (state_policy c v)
    finish_push C c v

  -- The cycle from the first plan on.
  unfoldable pub offer_plan :
      Collected → RepositoryState → Option Definition → PushTarget → Plan → M C ℕ
  unfolding show_only approve_plan execute_plan
  offer_plan c before definition target p = do
    show_only C o c p definition target (review_request c p definition target)
    chosen ← approve_plan C c definition target v rounds p
    execute_plan c before definition chosen

  -- `runCollectionCycle`, of the rounds that its review may take.
  unfoldable pub cycle : M C ℕ
  unfolding take_snapshot stop_when_empty capture_before resolve_commands make_plan offer_plan
  cycle = do
    c ← take_snapshot C
    stop_when_empty C o c
    before ← capture_before C (state_policy c v)
    definition ← resolve_commands C
    target ← call C.resolve_push_target
    p ← make_plan C c []
    offer_plan c before definition target p

  -- What the loop of `runCollection` makes of a cycle: none if the fuel ran out.
  after_cycle : (Session C → Session C × Option ℕ) → Session C × Step ℕ → Session C × Option ℕ
  after_cycle again (r, go code) = (r, some code)
  after_cycle again (r, leave code true) = again r
  after_cycle again (r, leave code false) = (r, some code)
  after_cycle again (r, exhausted) = (r, none)

  -- `runCollection`, of at most `n` cycles.
  unfoldable pub run_collection : ℕ → Session C → Session C × Option ℕ
  unfolding cycle after_cycle
  run_collection zero r = (r, none)
  run_collection (suc n) r = let again = run_collection n in after_cycle again (cycle r)
