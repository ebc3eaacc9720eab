-- ===== src/Planning/Validate/Accepts.antt =====
-- What a plan that the validator accepts is.
use mathlib.Core.List.{Mem}
use mathlib.Core.Path.{subst}
use commiter_cli.Base.{
  ◌≡◌, Bool, ◌≢◌, ◌↔◌, refl, ap, ap₂, true, false, if◌then◌else◌, ◌||◌, List, [], ◌∷◌, ◌++◌, map,
  arith, is_nil-false, append-eq-nil, contains, contains→Mem, Mem→contains, not_mem→contains,
  contains-false→not_mem,
}
use commiter_cli.Base.Str.{Str, utf8, trim_space, str_eq}
use commiter_cli.Base.Int.{int_eq}
use commiter_cli.Planning.Types.{
  Commit, Plan, Violation, allowed_types, schema_version, violation_eq, invalid_json,
  invalid_schema,
}
use commiter_cli.Planning.Sensitive.{SensitiveValues, contains_sensitive}
use commiter_cli.Planning.Assignment.{IsPartition, complete_assignment_iff}
use commiter_cli.Planning.Validate.{
  empty_plan, Json, Unicode, validate, decode_plan, schema_violations, assignment_violations,
  check_plan, commit_violations, type_violations, scope_violations, summary_violations,
  empty_violations, sensitive_violations, unique_violations, one_non_empty_line,
  summary_matches_language,
}

module _ (U : Unicode) (S : SensitiveValues) (language : Str) where
  -- A commit with an allowed type, a scope and a summary of one line each, a scope that is no type
  -- name, a summary in the language, no sensitive value in either, and at least one file.
  pub record IsAcceptable (c : Commit) : Type 0 where
    pub type : Mem c.type allowed_types
    pub scope_line : one_non_empty_line c.scope ≡ true
    pub scope_free : ¬ Mem (map U.lower (trim_space c.scope)) allowed_types
    pub summary_line : one_non_empty_line c.summary ≡ true
    pub summary_language : summary_matches_language U c.summary language ≡ true
    pub scope_clean : contains_sensitive S (utf8 c.scope) ≡ false
    pub summary_clean : contains_sensitive S (utf8 c.summary) ≡ false
    pub has_files : c.file_ids ≢ []

  abbrev pub AllAcceptable : List Commit → Type 0
  AllAcceptable [] = Unit
  AllAcceptable (c ∷ cs) = IsAcceptable c × AllAcceptable cs

  pub record IsAccepted (plan : Plan) (ids : List Str) : Type 0 where
    pub version : plan.schema_version ≡ schema_version
    pub has_commits : plan.commits ≢ []
    pub commits : AllAcceptable plan.commits
    pub partition : IsPartition plan ids

  -- Each test of a commit adds nothing exactly when the commit has what it tests.
  module _ (c : Commit) where
    type-nil : type_violations U c ≡ [] ↔ Mem c.type allowed_types
    unfolding type_violations
    type-nil = (
      λ h. contains→Mem allowed_types c.type (ground arith),
      λ m. rw (Mem→contains allowed_types c.type m),
    )

    scope-nil : scope_violations U c ≡ [] ↔ (
        (one_non_empty_line c.scope ≡ true)
        × (contains allowed_types (map U.lower (trim_space c.scope)) ≡ false))
    unfolding scope_violations
    scope-nil = ground arith

    summary-nil : summary_violations U language c ≡ [] ↔ (
        (one_non_empty_line c.summary ≡ true)
        × (summary_matches_language U c.summary language ≡ true))
    unfolding summary_violations
    summary-nil = ground arith

    empty-nil : empty_violations U c ≡ [] ↔ (c.file_ids ≢ [])
    unfolding empty_violations
    empty-nil =
        (λ h. (is_nil-false c.file_ids).0 (ground arith), λ n. rw ((is_nil-false c.file_ids).1 n))

  sensitive-cons :
      (c : Commit) (cs : List Commit)
      → sensitive_violations S (c ∷ cs) ≡ [] ↔ (
          (contains_sensitive S (utf8 c.scope) ≡ false)
          × (contains_sensitive S (utf8 c.summary) ≡ false)
          × (sensitive_violations S cs ≡ []))
  unfolding sensitive_violations
  sensitive-cons c cs = ground arith

  commit-cons :
      (c : Commit) (cs : List Commit)
      → commit_violations U language (c ∷ cs) ≡ []
      → (type_violations U c ≡ [])
        × (scope_violations U c ≡ [])
        × (summary_violations U language c ≡ [])
        × (empty_violations U c ≡ [])
        × (commit_violations U language cs ≡ [])
  unfolding commit_violations
  commit-cons c cs h =
      let (t, h1) = append-eq-nil (type_violations U c) _ h in
      let (s, h2) = append-eq-nil (scope_violations U c) _ h1 in
      let (m, h3) = append-eq-nil (summary_violations U language c) _ h2 in
      let (e, rest) = append-eq-nil (empty_violations U c) _ h3 in (t, s, m, e, rest)

  violations-nil→AllAcceptable :
      (cs : List Commit)
      → sensitive_violations S cs ≡ []
      → commit_violations U language cs ≡ []
      → AllAcceptable cs
  violations-nil→AllAcceptable [] hs hc = tt
  violations-nil→AllAcceptable (c ∷ cs) hs hc =
      let (scope_clean, summary_clean, rest) = (sensitive-cons c cs).0 hs in
      let (t, s, m, e, more) = commit-cons c cs hc in
      (
        record {
          type = (type-nil c).0 t;
          scope_line = ((scope-nil c).0 s).0;
          scope_free = contains-false→not_mem allowed_types _ ((scope-nil c).0 s).1;
          summary_line = ((summary-nil c).0 m).0;
          summary_language = ((summary-nil c).0 m).1;
          scope_clean = scope_clean;
          summary_clean = summary_clean;
          has_files = (empty-nil c).0 e;
        },
        violations-nil→AllAcceptable cs rest more,
      )

  commit-cons_nil :
      (c : Commit) (cs : List Commit)
      → IsAcceptable c
      → commit_violations U language cs ≡ []
      → commit_violations U language (c ∷ cs) ≡ []
  unfolding commit_violations
  commit-cons_nil c cs a hc = rw (
    (type-nil c).1 a.type,
    (scope-nil c).1 (a.scope_line, not_mem→contains allowed_types _ a.scope_free),
    (summary-nil c).1 (a.summary_line, a.summary_language),
    (empty-nil c).1 a.has_files,
    hc,
  )

  AllAcceptable→violations-nil :
      (cs : List Commit)
      → AllAcceptable cs
      → (sensitive_violations S cs ≡ []) × (commit_violations U language cs ≡ [])
  AllAcceptable→violations-nil [] _ = unfold sensitive_violations commit_violations in (refl, refl)
  AllAcceptable→violations-nil (c ∷ cs) (a, all) =
      let (hs, hc) = AllAcceptable→violations-nil cs all in
      ((sensitive-cons c cs).1 (a.scope_clean, a.summary_clean, hs), commit-cons_nil c cs a hc)

schema-nil :
    (plan : Plan)
    → schema_violations plan ≡ [] ↔ ((plan.schema_version ≡ schema_version) × (plan.commits ≢ []))
unfolding schema_violations
schema-nil plan = (
  λ h. (ground arith, (is_nil-false plan.commits).0 (ground arith)),
  λ (v, n). ground (arith, (is_nil-false plan.commits).1 n),
)

assignment-nil :
    (plan : Plan) (ids : List Str) → assignment_violations plan ids ≡ [] ↔ IsPartition plan ids
unfolding assignment_violations
assignment-nil plan ids = (
  λ h. (complete_assignment_iff plan ids).0 (ground arith),
  λ p. rw ((complete_assignment_iff plan ids).1 p),
)

unique-eq-nil : (vs : List Violation) → unique_violations vs ≡ [] → vs ≡ []
unfolding unique_violations
unique-eq-nil [] h = refl
unique-eq-nil (v ∷ vs) h = cc

found-ne-nil :
    (b : Bool) (v : Violation) (vs ws : List Violation) (decoded plan : Plan)
    → ¬ (
        ◌≡◌ {A = Plan × List Violation}
          (if b
            then (empty_plan, unique_violations (v ∷ vs))
            else (decoded, unique_violations (v ∷ ws)))
          (plan, []))
unfolding unique_violations
found-ne-nil true v vs ws decoded plan h = cc (ap (λ r. r.1) h)
found-ne-nil false v vs ws decoded plan h = cc (ap (λ r. r.1) h)

-- The branch of `check_plan` on an early failure never ends without a violation.
check_found :
    (found rest : List Violation) (decoded plan : Plan)
    → ◌≡◌ {A = Plan × List Violation}
        (if contains found invalid_json || contains found invalid_schema
          then (empty_plan, unique_violations found)
          else (decoded, unique_violations (found ++ rest)))
        (plan, [])
    → (decoded ≡ plan) × (found ++ rest ≡ [])
check_found [] rest decoded plan h = (ap (λ r. r.0) h, unique-eq-nil rest (ap (λ r. r.1) h))
check_found (v ∷ vs) rest decoded plan h = absurd (found-ne-nil _ v vs (vs ++ rest) decoded plan h)

module _ (U : Unicode) (S : SensitiveValues) (language : Str) (ids : List Str) (plan : Plan) where
  check_plan-accepts :
      (decoded : Plan) (decoding : List Violation)
      → check_plan U S ids language (decoded, decoding) ≡ (plan, [])
      → (decoded ≡ plan) × (decoding ≡ []) × IsAccepted U S language plan ids
  unfolding check_plan
  check_plan-accepts decoded decoding h =
      let (same, none_left) =
        check_found (decoding ++ sensitive_violations S decoded.commits) _ decoded plan h in
      let (found, rest) =
        append-eq-nil (decoding ++ sensitive_violations S decoded.commits) _ none_left in
      let (no_decoding, clean) = append-eq-nil decoding _ found in
      let (version, rest') = append-eq-nil (schema_violations decoded) _ rest in
      let (commits, partition) =
        append-eq-nil (commit_violations U language decoded.commits) _ rest' in
      (
        same,
        no_decoding,
        subst (λ p. IsAccepted U S language p ids) same
            (record {
              version = ((schema-nil decoded).0 version).0;
              has_commits = ((schema-nil decoded).0 version).1;
              commits = violations-nil→AllAcceptable U S language decoded.commits clean commits;
              partition = (assignment-nil decoded ids).0 partition;
            }),
      )

  IsAccepted-check_plan :
      IsAccepted U S language plan ids → check_plan U S ids language (plan, []) ≡ (plan, [])
  unfolding check_plan
  IsAccepted-check_plan a =
      let (hs, hc) = AllAcceptable→violations-nil U S language plan.commits a.commits in
      rw (
        hs,
        (schema-nil plan).1 (a.version, a.has_commits),
        hc,
        (assignment-nil plan ids).1 a.partition,
      )

  -- The validator returns a plan with no violation exactly when the candidate decodes, with no
  -- error, to that plan, and the plan is acceptable: its schema version is 1, it has commits, each
  -- commit has an allowed type, a one-line scope that is no type name, a one-line summary in the
  -- language, no sensitive value and a file, and the commits partition the requested file IDs.
  pub validate_iff :
      (J : Json) (candidate : Str)
      → (validate U S J candidate ids language ≡ (plan, []))
        ↔ ((decode_plan J candidate ≡ (plan, [])) × IsAccepted U S language plan ids)
  unfolding validate
  validate_iff J candidate =
      let d = decode_plan J candidate in
      (
        λ h.
            let (same, no_violation, accepted) = check_plan-accepts d.0 d.1 h in
            (ap₂ (λ p vs. (p, vs)) same no_violation, accepted),
        λ (e, accepted). rw e (IsAccepted-check_plan accepted),
      )
