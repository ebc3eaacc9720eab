-- ===== src/Planning/Tests.antt =====
-- The validator at a concrete candidate.
use commiter_cli.Base.{◌≡◌, refl, ◌↔◌, true, false, List, [], ◌∷◌, some, leb}
use commiter_cli.Base.Str.{Str, lit, str_eq, trim_space, utf8, any, has_infix}
use commiter_cli.Base.Int.{pos, int_eq}
use commiter_cli.Base.Sets.{add_all}
use commiter_cli.Planning.Types.{Plan, english, violation_eq, allowed_types}
use commiter_cli.Planning.Sensitive.{SensitiveValues, contains_sensitive}
use commiter_cli.Planning.Assignment.{complete_assignment, complete_assignment_iff, IsPartition}
use commiter_cli.Planning.Validate.{
  WirePlan, Json, Unicode, validate, sensitive_violations, one_non_empty_line,
  summary_matches_language, decode_plan,
}
use commiter_cli.Planning.Validate.Accepts.{IsAccepted, validate_iff}

abbrev ids : List Str
ids = lit "F001" ∷ lit "F002" ∷ []

abbrev wire : WirePlan
wire = record {
  schema_version = lit "1";
  commits =
      record {
        type = lit "fix";
        scope = lit "core";
        breaking = lit "false";
        summary = lit "guard";
        file_ids = lit "F002" ∷ lit "F001" ∷ [];
      }
      ∷ [];
}

abbrev json : Json
json = record {
  valid = λ s. true;
  decode = λ s. some wire;
  at_eof = λ s. true;
  int = λ s. some (pos 1);
  bool = λ s. some false;
}

abbrev unicode : Unicode
unicode = record {
  hiragana = λ c. false;
  katakana = λ c. false;
  han = λ c. false;
  latin = λ c. leb b'a' c;
  lower = λ c. c;
}

abbrev no_values : SensitiveValues
no_values = record { values = lit "hunter2" ∷ [] }

abbrev plan : Plan
plan = record {
  schema_version = pos 1;
  commits =
      record {
        type = lit "fix";
        scope = lit "core";
        breaking = false;
        summary = lit "guard";
        file_ids = lit "F002" ∷ lit "F001" ∷ [];
      }
      ∷ [];
}

validated : validate unicode no_values json (lit "{}") ids english ≡ (plan, [])
unfolding validate str_eq int_eq trim_space any utf8 violation_eq has_infix allowed_types
    sensitive_violations contains_sensitive complete_assignment add_all one_non_empty_line
    summary_matches_language
validated = refl

twice : complete_assignment plan (lit "F001" ∷ lit "F001" ∷ []) ≡ false
unfolding complete_assignment add_all str_eq
twice = refl

complete_assignment_iff_example : (complete_assignment plan ids ≡ true) ↔ IsPartition plan ids
complete_assignment_iff_example = complete_assignment_iff plan ids

validate_iff_example :
    (validate unicode no_values json (lit "{}") ids english ≡ (plan, []))
    ↔ ((decode_plan json (lit "{}") ≡ (plan, [])) × IsAccepted unicode no_values english plan ids)
validate_iff_example = validate_iff unicode no_values english ids plan json (lit "{}")
