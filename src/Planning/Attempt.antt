-- ===== src/Planning/Attempt.antt =====
-- internal/planning/generator.go and three_phase.go: the errors that end a generation.
use commiter_cli.Base.{
  Bool, true, false, List, [], ◌∷◌, ◌++◌, Option, none, some, if◌then◌else◌, is_nil,
}
use commiter_cli.Base.Str.{Str, lit, str_eq}
use commiter_cli.Cli.ExitCode.{ExitError, code_internal, code_llm}
use commiter_cli.Planning.Types.{
  Violation, invalid_json, invalid_schema, invalid_type, invalid_scope, invalid_summary,
  invalid_summary_language, invalid_assignment, sensitive_output, incomplete_output,
}

-- A value, or the error that ends the generation.
pub data Attempt (A : Type 0) : Type 0 where
  gave : A → Attempt A
  stopped : ExitError → Attempt A

-- A value that may be missing, or the error that says so.
abbrev pub required : {A : Type 0} → Option A → ExitError → Attempt A
required (some a) e = gave a
required none e = stopped e

abbrev pub forbid : Option ExitError → Attempt (Unit {0})
forbid (some e) = stopped e
forbid none = gave tt

abbrev pub unless : Bool → ExitError → Attempt (Unit {0})
unless true e = stopped e
unless false e = gave tt

unfoldable pub violation_code : Violation → Str
violation_code invalid_json = lit "invalid_json"
violation_code invalid_schema = lit "invalid_schema"
violation_code invalid_type = lit "invalid_type"
violation_code invalid_scope = lit "invalid_scope"
violation_code invalid_summary = lit "invalid_summary"
violation_code invalid_summary_language = lit "invalid_summary_language"
violation_code invalid_assignment = lit "invalid_assignment"
violation_code sensitive_output = lit "sensitive_output"
violation_code incomplete_output = lit "incomplete_output"

join_codes : List Violation → Str
join_codes [] = []
join_codes (v ∷ []) = violation_code v
join_codes (v ∷ (w ∷ vs)) = violation_code v ++ (lit ", " ++ join_codes (w ∷ vs))

-- `generationError`
unfoldable pub generation_error : List Violation → ExitError
unfolding violation_code join_codes
generation_error vs = record {
  code = code_llm;
  message =
      lit "LLM backend could not produce a safe, completely assigned commit plan"
      ++ (if is_nil vs then [] else lit " (violations: " ++ (join_codes vs ++ lit ")"));
}

-- `errors.New`, whose `Code` is `Internal`, and `exitcode.New(exitcode.LLM, …)`
abbrev pub plain_error : Str → ExitError
plain_error message = record { code = code_internal; message = message }

abbrev pub llm_error : Str → ExitError
llm_error message = record { code = code_llm; message = message }
