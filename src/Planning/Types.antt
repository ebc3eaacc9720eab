-- ===== src/Planning/Types.antt =====
-- internal/planning/types.go, and the type names of schema.go.
use commiter_cli.Base.{Bool, List, [], ◌∷◌, ◌++◌, if◌then◌else◌, Eq}
use commiter_cli.Base.Str.{Str, lit}
use commiter_cli.Base.Int.{ℤ, pos}

pub record Commit : Type 0 where
  pub type : Str
  pub scope : Str
  pub breaking : Bool
  pub summary : Str
  pub file_ids : List Str

pub record Plan : Type 0 where
  pub schema_version : ℤ
  pub commits : List Commit

abbrev pub schema_version : ℤ
schema_version = pos 1

-- `fmt.Sprintf("%s(%s)%s: %s", commit.Type, commit.Scope, mark, commit.Summary)`
unfoldable pub subject : Commit → Str
subject c =
    c.type
    ++ (lit "("
        ++ (c.scope
            ++ (lit ")" ++ ((if c.breaking then lit "!" else []) ++ (lit ": " ++ c.summary)))))

abbrev pub english : Str
english = lit "en"

abbrev pub japanese : Str
japanese = lit "ja"

unfoldable pub allowed_types : List Str
allowed_types =
    lit "feat"
    ∷ lit "fix"
    ∷ lit "docs"
    ∷ lit "style"
    ∷ lit "refactor"
    ∷ lit "perf"
    ∷ lit "test"
    ∷ lit "build"
    ∷ lit "ci"
    ∷ lit "chore"
    ∷ lit "revert"
    ∷ []

-- The string constants of type `Violation`.
pub data Violation : Type 0 where
  invalid_json invalid_schema invalid_type invalid_scope invalid_summary : Violation
  invalid_summary_language invalid_assignment sensitive_output incomplete_output : Violation

violation_dec : Discrete Violation
violation_dec = hlevel

instance unfoldable pub violation_eq : Eq Violation
unfolding violation_dec
violation_eq = record { dec = violation_dec }

-- The file IDs of a plan's commits, in plan order.
abbrev pub assigned_ids : List Commit → List Str
assigned_ids [] = []
assigned_ids (c ∷ cs) = c.file_ids ++ assigned_ids cs
