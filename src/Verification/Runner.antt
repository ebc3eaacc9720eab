-- ===== src/Verification/Runner.antt =====
-- internal/verification/runner.go: `Run`, over the repository and the processes.
pub mod Stops
use commiter_cli.Base.{
  ltb, Bool, true, false, List, [], ◌∷◌, Option, none, some, if◌then◌else◌, ◌≤◌,
}
use commiter_cli.Base.Int.{ℤ, pos, negsuc}
use commiter_cli.Base.Result.{Result, ok, err}
use commiter_cli.Base.Str.{Str, lit}
use commiter_cli.Verification.Definition.{Command, Definition}
use commiter_cli.Verification.State.{RepositoryState, changed_paths}

pub data RunErrorKind : Type 0 where
  run_failed run_timed_out run_interrupted : RunErrorKind

-- A `RunError`, or the refusal of a timeout.
pub data RunError : Type 0 where
  of_command : RunErrorKind → Str → RunError
  invalid_timeout : RunError

pub record CommandResult : Type 0 where
  pub name : Str
  pub output : Str
  pub changed_paths : List Str

-- The world that the commands run in: the state of the repository, a process with its output and
-- whether it succeeded, and whether the deadline passed or the context ended.
pub record Processes : Type 1 where
  pub World : Type 0
  pub capture : World → Result RepositoryState
  pub run : World → Command → World × Str × Bool
  pub deadline_exceeded : World → Bool
  pub canceled : World → Bool

module _ (P : Processes) where
  -- The kind of the error of a process that failed.
  unfoldable pub failure_kind : P.World → RunErrorKind
  failure_kind w =
      if P.deadline_exceeded w
      then run_timed_out
      else if P.canceled w
      then run_interrupted
      else run_failed

  -- The paths that a command is reported to have changed.
  unfoldable pub reported : RepositoryState → Result RepositoryState → List Str
  reported before (err m) = lit "<repository-state>" ∷ []
  reported before (ok after) = changed_paths before after

  -- The error of a round: of a command that failed, or of the second capture.
  unfoldable pub round_error : Command → Bool → Result RepositoryState → P.World → Option RunError
  unfolding failure_kind
  round_error c false after w = some (of_command (failure_kind w) c.name)
  round_error c true (err m) w = some (of_command run_failed c.name)
  round_error c true (ok s) w = none

  -- What follows the process of a command.
  unfoldable pub after_run :
      Command
      → RepositoryState
      → P.World × Str × Bool
      → P.World × Option CommandResult × Option RunError
  unfolding reported round_error
  after_run c before (w, text, succeeded) = (
    w,
    some (record { name = c.name; output = text; changed_paths = reported before (P.capture w) }),
    round_error c succeeded (P.capture w) w,
  )

  -- One round of the loop: the world, its result if the command ran, and its error.
  unfoldable pub round : P.World → Command → P.World × Option CommandResult × Option RunError
  unfolding after_run
  round w c = elim (P.capture w) [
    | err m ↦ (w, none, some (of_command run_failed c.name))
    | ok before ↦ after_run c before (P.run w c)
  ]

  unfoldable pub add_result : Option CommandResult → List CommandResult → List CommandResult
  add_result none rs = rs
  add_result (some r) rs = r ∷ rs

  unfoldable pub prepend :
      Option CommandResult
      → P.World × List CommandResult × Option RunError
      → P.World × List CommandResult × Option RunError
  unfolding add_result
  prepend o (w, rs, e) = (w, add_result o rs, e)

  -- The loop: nothing follows an error.
  unfoldable pub run_commands :
      P.World → List Command → P.World × List CommandResult × Option RunError
  unfolding round prepend
  run_commands w [] = (w, [], none)
  run_commands w (c ∷ cs) =
      let (w', result, error) = round w c in
      elim error [
        | some e ↦ (w', add_result result [], some e)
        | none ↦ prepend result (run_commands w' cs)
      ]

  abbrev positive : ℤ → Bool
  positive (pos n) = ltb 0 n
  positive (negsuc n) = false

  -- `Run`
  unfoldable pub run :
      P.World → Option Definition → ℤ → P.World × List CommandResult × Option RunError
  unfolding run_commands
  run w none timeout = (w, [], none)
  run w (some d) timeout =
      if positive timeout then run_commands w d.commands else (w, [], some invalid_timeout)
