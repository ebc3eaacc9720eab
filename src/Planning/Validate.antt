-- ===== src/Planning/Validate.antt =====
-- internal/planning/validate.go: the validator of a generated plan. What encoding/json and the
-- Unicode tables of the standard library answer is a parameter.
pub mod Accepts
use commiter_cli.Base.{
  ◌≡◌, ℕ, Bool, true, false, not, ◌&&◌, ◌||◌, List, [], ◌∷◌, ◌++◌, map, Option, none, some,
  if◌then◌else◌, ◌==◌, contains, eqb, is_nil,
}
use commiter_cli.Base.Str.{Str, lit, str_eq, any, trim_space, utf8}
use commiter_cli.Base.Int.{ℤ, int_eq}
use commiter_cli.Base.Sets.{add}
use commiter_cli.Planning.Types.{
  Commit, Plan, Violation, invalid_json, invalid_schema, invalid_type, invalid_scope,
  invalid_summary, invalid_summary_language, invalid_assignment, sensitive_output, violation_eq,
  allowed_types, schema_version, english, japanese,
}
use commiter_cli.Planning.Sensitive.{SensitiveValues, contains_sensitive}
use commiter_cli.Planning.Assignment.{complete_assignment}

-- `wireCommit` and `wirePlan`. A `json.RawMessage` is its bytes, empty for an absent field.
pub record WireCommit : Type 0 where
  pub type : Str
  pub scope : Str
  pub breaking : Str
  pub summary : Str
  pub file_ids : List Str

pub record WirePlan : Type 0 where
  pub schema_version : Str
  pub commits : List WireCommit

-- encoding/json: `json.Valid`, a strict `Decode` into a `wirePlan`, whether only white space
-- follows the decoded value, and `json.Unmarshal` into an integer and into a Boolean.
pub record Json : Type 0 where
  pub valid : Str → Bool
  pub decode : Str → Option WirePlan
  pub at_eof : Str → Bool
  pub int : Str → Option ℤ
  pub bool : Str → Option Bool

-- The script tables of package unicode, and its lower-case mapping of one code point.
pub record Unicode : Type 0 where
  pub hiragana : ℕ → Bool
  pub katakana : ℕ → Bool
  pub han : ℕ → Bool
  pub latin : ℕ → Bool
  pub lower : ℕ → ℕ

abbrev pub empty_plan : Plan
empty_plan = record { schema_version = ℤ.pos 0; commits = [] }

module _ (J : Json) where
  -- `wirePlan.plan`: the flag is false where the source sets `valid = false`.
  unfoldable pub wire_version : Str → ℤ × Bool
  wire_version raw =
      if is_nil raw
      then (schema_version, true)
      else if trim_space raw == lit "null"
      then (schema_version, false)
      else elim (J.int raw) [ none ↦ (schema_version, false) | some v ↦ (v, true) ]

  unfoldable pub wire_breaking : Str → Bool × Bool
  wire_breaking raw =
      if is_nil raw || trim_space raw == lit "null"
      then (false, false)
      else elim (J.bool raw) [ none ↦ (false, false) | some b ↦ (b, true) ]

  unfoldable pub wire_commit : WireCommit → Commit
  wire_commit w = record {
    type = w.type;
    scope = w.scope;
    breaking = (wire_breaking w.breaking).0;
    summary = w.summary;
    file_ids = w.file_ids;
  }

  unfoldable pub all_breaking : List WireCommit → Bool
  all_breaking [] = true
  all_breaking (w ∷ ws) = (wire_breaking w.breaking).1 && all_breaking ws

  unfoldable pub wire_plan : WirePlan → Plan × Bool
  unfolding wire_version wire_breaking wire_commit all_breaking
  wire_plan w = (
    record {
      schema_version = (wire_version w.schema_version).0;
      commits = map wire_commit w.commits;
    },
    (wire_version w.schema_version).1 && all_breaking w.commits,
  )

  -- `ValidateGrammar`
  unfoldable pub validate_grammar : Str → List Violation
  unfolding wire_plan
  validate_grammar candidate =
      if not (J.valid candidate) then invalid_json ∷ [] else elim (J.decode candidate) [
        | none ↦ invalid_schema ∷ []
        | some w ↦
            if not (J.at_eof candidate)
            then invalid_json ∷ []
            else if not (wire_plan w).1
            then invalid_schema ∷ []
            else []
      ]

  -- The first part of `Validate`: the plan, and the violations found while decoding it.
  unfoldable pub decode_plan : Str → Plan × List Violation
  unfolding wire_plan
  decode_plan candidate =
      if not (J.valid candidate)
      then (empty_plan, invalid_json ∷ [])
      else elim (J.decode candidate) [
        | none ↦ (empty_plan, invalid_schema ∷ [])
        | some w ↦
            if not (J.at_eof candidate)
            then (empty_plan, invalid_json ∷ [])
            else ((wire_plan w).0, if (wire_plan w).1 then [] else invalid_schema ∷ [])
      ]

-- `uniqueViolations`: the first of each, in order.
unique_from : List Violation → List Violation → List Violation
unique_from seen [] = []
unique_from seen (v ∷ vs) =
    let rest = unique_from (add seen v) vs in if contains seen v then rest else v ∷ rest

unfoldable pub unique_violations : List Violation → List Violation
unfolding unique_from violation_eq
unique_violations vs = unique_from [] vs

-- `oneNonEmptyLine`
unfoldable pub one_non_empty_line : Str → Bool
unfolding any
one_non_empty_line s = not (is_nil (trim_space s)) && not (any (λ c. eqb c 13 || eqb c 10) s)

-- The test in the loop of `Validate`: one violation for each commit that shows a sensitive value.
unfoldable pub sensitive_violations : SensitiveValues → List Commit → List Violation
sensitive_violations S [] = []
sensitive_violations S (c ∷ cs) =
    if contains_sensitive S (utf8 c.scope) || contains_sensitive S (utf8 c.summary)
    then sensitive_output ∷ sensitive_violations S cs
    else sensitive_violations S cs

module _ (U : Unicode) where
  unfoldable pub contains_japanese_script : Str → Bool
  unfolding any
  contains_japanese_script = any (λ c. U.hiragana c || U.katakana c || U.han c)

  unfoldable pub contains_latin_letter : Str → Bool
  unfolding any
  contains_latin_letter = any U.latin

  -- `summaryMatchesLanguage`
  unfoldable pub summary_matches_language : Str → Str → Bool
  unfolding contains_japanese_script contains_latin_letter
  summary_matches_language summary language =
      if language == japanese
      then contains_japanese_script summary
      else if language == english
      then contains_latin_letter summary && not (contains_japanese_script summary)
      else false

  unfoldable pub type_violations : Commit → List Violation
  type_violations c = if contains allowed_types c.type then [] else invalid_type ∷ []

  unfoldable pub scope_violations : Commit → List Violation
  scope_violations c =
      if not (one_non_empty_line c.scope)
        || contains allowed_types (map U.lower (trim_space c.scope))
      then invalid_scope ∷ []
      else []

  unfoldable pub summary_violations : Str → Commit → List Violation
  summary_violations language c =
      if not (one_non_empty_line c.summary)
      then invalid_summary ∷ []
      else if summary_matches_language c.summary language
      then []
      else invalid_summary_language ∷ []

  unfoldable pub empty_violations : Commit → List Violation
  empty_violations c = if is_nil c.file_ids then invalid_assignment ∷ [] else []

  -- The second loop of `Validate` over the commits.
  unfoldable pub commit_violations : Str → List Commit → List Violation
  unfolding type_violations scope_violations summary_violations empty_violations
  commit_violations language [] = []
  commit_violations language (c ∷ cs) =
      type_violations c
      ++ (scope_violations c
          ++ (summary_violations language c
              ++ (empty_violations c ++ commit_violations language cs)))

unfoldable pub schema_violations : Plan → List Violation
schema_violations plan =
    if not (plan.schema_version == schema_version) || is_nil plan.commits
    then invalid_schema ∷ []
    else []

unfoldable pub assignment_violations : Plan → List Str → List Violation
assignment_violations plan ids =
    if complete_assignment plan ids then [] else invalid_assignment ∷ []

module _ (U : Unicode) (S : SensitiveValues) where
  -- `Validate` after decoding.
  unfoldable pub check_plan : List Str → Str → Plan × List Violation → Plan × List Violation
  unfolding unique_violations schema_violations commit_violations assignment_violations
  check_plan ids language (plan, decoding) =
      let found = decoding ++ sensitive_violations S plan.commits in
      if contains found invalid_json || contains found invalid_schema
      then (empty_plan, unique_violations found)
      else (
        plan,
        unique_violations (
            found
            ++ (schema_violations plan
                ++ (commit_violations U language plan.commits ++ assignment_violations plan ids))),
      )

  unfoldable pub validate : Json → Str → List Str → Str → Plan × List Violation
  unfolding decode_plan check_plan
  validate J candidate ids language = check_plan ids language (decode_plan J candidate)
