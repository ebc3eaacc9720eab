-- ===== src/Cli/ExitCode.antt =====
-- internal/exitcode/exitcode.go, and the names of the codes of internal/cli/cli.go.
use commiter_cli.Base.{ℕ, eqb, if◌then◌else◌}
use commiter_cli.Base.Str.{Str, lit}

abbrev pub code_success : ℕ
code_success = 0

abbrev pub code_internal : ℕ
code_internal = 1

abbrev pub code_usage : ℕ
code_usage = 2

abbrev pub code_canceled : ℕ
code_canceled = 3

abbrev pub code_safety : ℕ
code_safety = 4

abbrev pub code_llm : ℕ
code_llm = 5

abbrev pub code_verification : ℕ
code_verification = 6

abbrev pub code_commit : ℕ
code_commit = 7

abbrev pub code_push : ℕ
code_push = 8

abbrev pub code_interrupted : ℕ
code_interrupted = 130

-- An error as the command line sees it: `Code` of it, which is `Internal` for one of another type,
-- and its message.
pub record ExitError : Type 0 where
  pub code : ℕ
  pub message : Str

-- `exitClassification`
unfoldable pub exit_classification : ℕ → Str
exit_classification code =
    if eqb code code_success
    then lit "success"
    else if eqb code code_usage
    then lit "usage_error"
    else if eqb code code_canceled
    then lit "canceled"
    else if eqb code code_safety
    then lit "safety_stop"
    else if eqb code code_llm
    then lit "llm_error"
    else if eqb code code_verification
    then lit "verification_failed"
    else if eqb code code_commit
    then lit "commit_failed"
    else if eqb code code_push
    then lit "push_failed"
    else if eqb code code_interrupted
    then lit "interrupted"
    else lit "internal_error"
