-- ===== src/Planning/ThreePhase.antt =====
-- internal/planning/three_phase.go: `ThreePhaseGenerator.Generate`, the planner of the program: three
-- requests, each for one part of the plan, and the validation of what they give.
mod Phases
pub mod Returned
mod Encoding
mod Tests
use commiter_cli.Base.{
  ℕ, suc, Bool, true, false, not, ◌&&◌, ◌||◌, List, [], ◌∷◌, ◌++◌, map, Option, none, some,
  if◌then◌else◌, ◌==◌, eqb, ltb, length, is_nil, max,
}
use commiter_cli.Base.Int.{ℤ}
use commiter_cli.Base.Sets.{add_all}
use commiter_cli.Base.Str.{Str, lit, str_eq, utf8}
use commiter_cli.Cli.ExitCode.{ExitError, code_internal, code_llm}
use commiter_cli.Context.Budget.{context_64k}
use commiter_cli.Planning.Evidence.{
  BreakingEvidence, GroupingFile, Category, CommitText, CategoryError, invalid_categories,
  unresolved_evidence, host_evidence_error, git_evidence, allowed_references, check_categories,
  compose,
}
use commiter_cli.Planning.Grouping.{
  InputFile, CandidateGroup, raw_diff_projection, sort_files, labelled_files, group_labels, grouped,
}
use commiter_cli.Planning.Sensitive.{SensitiveValues, contains_sensitive}
use commiter_cli.Planning.Telemetry.{Response, Telemetry, add_response}
use commiter_cli.Planning.Types.{
  Plan, Commit, Violation, invalid_json, invalid_schema, invalid_type, invalid_scope,
  invalid_summary, invalid_summary_language, invalid_assignment, sensitive_output,
  incomplete_output, schema_version, english, japanese,
}
use commiter_cli.Planning.Validate.{Json, Unicode, validate}
use commiter_cli.Planning.Attempt.{
  Attempt, gave, stopped, required, forbid, unless, violation_code, generation_error, plain_error,
  llm_error,
}
use commiter_cli.Planning.Invoke.{
  Prepared, Profile, bounded_grouping, bounded_category, bounded_text, RequestedShape,
  grouping_shape, category_shape, text_shape, ChatAnswer, responded, too_large, chat_failed,
  ChatRequest, Planner, Progress, Gen, continued, ◌>>=◌, attempt, unless_expired, form_messages,
  chat_once, keep_selected, note_response, invoke,
}

-- `exactIDs`
unfoldable pub exact_ids : List Str → Attempt (List Str)
exact_ids ids =
    if is_nil ids
    then stopped (plain_error (lit "planning requires at least one file ID"))
    else elim (add_all (λ id. id == []) ids []) [
      | none ↦ stopped (plain_error (lit "planning file IDs must be non-empty and unique"))
      | some _ ↦ gave ids
    ]

-- `threePhaseFileIDs`, with `validateLanguage`
unfoldable pub three_phase_file_ids : Prepared → Str → Attempt (List Str)
unfolding exact_ids
three_phase_file_ids prepared language =
    if not (language == english) && not (language == japanese)
    then stopped (plain_error (lit "planning language must be en or ja"))
    else exact_ids (map (λ f. f.id) prepared.files)

-- The conditions on the input before a model is asked.
unfoldable pub check_supported : Planner → Prepared → List Str → Attempt (Unit {0})
check_supported P prepared ids =
    if ltb 4 (length ids)
    then stopped (
        llm_error (
          lit
            "provisional three-phase planner supports at most four selected files; select at most four files per run"))
    else if not P.supports_options
    then stopped
        (plain_error (lit "three-phase planner requires explicit generation-profile support"))
    else if not (eqb prepared.summary_count 0)
        || not (eqb prepared.evidence_reduction_count 0)
        || not (prepared.compression_profile == [])
    then stopped
        (llm_error (lit "provisional three-phase planner does not support compressed input"))
    else gave tt

evidence_error : Option Str → Option ExitError
evidence_error none = none
evidence_error (some message) = some (plain_error message)

category_error : Option CategoryError → Option ExitError
category_error none = none
category_error (some invalid_categories) = some (generation_error (invalid_schema ∷ []))
category_error (some unresolved_evidence) =
    some (llm_error (lit "three-phase planner stopped: unresolved_breaking_evidence"))

-- What the later phases read of the ones before: the files that are shown, and their projection.
pub record Shown : Type 0 where
  pub files : List (Str × InputFile)
  pub projection : List GroupingFile
  pub feedback : Option Str

-- The commits as a plan.
abbrev pub plan_of : List Commit → Plan
plan_of commits = record { schema_version = schema_version; commits = commits }

module _ (P : Planner) (host : List BreakingEvidence) (S : SensitiveValues) where
  -- The files in order, labelled, with the checks up to the first request.
  unfoldable pub show_files : Prepared → List Str → Gen P Shown
  unfolding attempt evidence_error
  show_files prepared ids =
      attempt (required (P.feedback prepared.prompt) (plain_error (lit "invalid candidate input")))
      >>= λ feedback.
          attempt (
            required (raw_diff_projection prepared.files)
              (plain_error (lit "three-phase raw diff is missing for structural input")))
          >>= λ projected.
              attempt (
                required (labelled_files P.decimal (sort_files projected))
                  (plain_error (lit "candidate requires unique visible file paths")))
              >>= λ files. attempt (forbid (evidence_error (host_evidence_error ids host))) >>= λ _.
                  attempt (P.grouping_projection (map (λ l. l.1) files)) >>= λ projection.
                  attempt
                    (gave (record { files = files; projection = projection; feedback = feedback }))

  module _ (shown : Shown) where
    -- The first phase: its payload, and the groups.
    unfoldable pub choose_groups : Gen P (P.Payload × List CandidateGroup)
    unfolding attempt invoke
    choose_groups =
        attempt (P.grouping_payload shown.projection shown.files shown.feedback) >>= λ payload.
        invoke S bounded_grouping payload
          (grouping_shape (map (λ l. l.1.id) shown.files) (group_labels P.decimal shown.files))
          P.decode_membership
        >>= λ membership.
            attempt (
              required (grouped P.decimal shown.files membership)
                (generation_error (invalid_assignment ∷ [])))
            >>= λ groups. attempt (gave (payload, groups))

    -- `allEvidence`
    unfoldable pub all_evidence : List BreakingEvidence
    all_evidence = host ++ git_evidence P.decimal shown.files shown.files shown.projection

    -- `visibleEvidence`: the evidence with the labels of its files.
    visible_ids : List (Str × InputFile) → Str → List Str
    visible_ids [] id = []
    visible_ids ((original, f) ∷ fs) id =
        let rest = visible_ids fs id in if original == id then f.id ∷ rest else rest

    visible_of : List Str → List Str
    visible_of [] = []
    visible_of (id ∷ ids) = visible_ids shown.files id ++ visible_of ids

    unfoldable pub visible_evidence : List BreakingEvidence → List BreakingEvidence
    unfolding visible_of visible_ids
    visible_evidence [] = []
    visible_evidence (e ∷ es) = record e { file_ids = visible_of e.file_ids } ∷ visible_evidence es

    -- The second phase: the payload of the third, and the categories.
    unfoldable pub choose_categories :
        Str → P.Payload × List CandidateGroup → Gen P (P.Payload × List (Str × Category))
    unfolding attempt invoke all_evidence visible_evidence category_error
    choose_categories language (payload, groups) =
        attempt (
          P.metadata_payload groups shown.projection payload language shown.feedback
            (visible_evidence all_evidence))
        >>= λ metadata.
            invoke S bounded_category metadata
              (category_shape
                (map (λ g. (g.id, allowed_references host all_evidence g.file_ids)) groups))
              P.decode_categories
            >>= λ categories.
                attempt
                  (forbid (category_error (check_categories host all_evidence categories groups)))
                >>= λ _. attempt (gave (P.text_payload metadata categories, categories))

    -- The third phase.
    unfoldable pub choose_texts :
        List CandidateGroup → P.Payload × List (Str × Category) → Gen P (List Commit)
    unfolding attempt invoke
    choose_texts groups (payload, categories) =
        invoke S bounded_text payload (text_shape (map (λ g. g.id) groups)) P.decode_texts
        >>= λ texts.
            attempt
              (required (compose categories texts groups) (generation_error (invalid_schema ∷ [])))

  module _ (U : Unicode) (J : Json) where
    -- The final validation.
    unfoldable pub validate_final : List Str → Str → List Commit → Gen P Plan
    unfolding attempt unless_expired
    validate_final ids language commits =
        let result = validate U S J (P.marshal (plan_of commits)) ids language in
        unless_expired >>= λ _.
        attempt (if is_nil result.1 then gave result.0 else stopped (generation_error result.1))

    -- The part of `Generate` behind `BeginCycle`, which `closeCycle` ends.
    unfoldable pub run_phases : Prepared → List Str → Str → Gen P Plan
    unfolding show_files choose_groups choose_categories choose_texts validate_final
    run_phases prepared ids language = show_files prepared ids >>= λ shown.
        choose_groups shown >>= λ chosen. choose_categories shown language chosen >>= λ categories.
        choose_texts shown chosen.1 categories >>= λ commits. validate_final ids language commits

    unfoldable pub open_cycle : Gen P (Unit {0})
    open_cycle s =
        (record s { world = (P.begin_cycle s.world).0 }, forbid (P.begin_cycle s.world).1)

    unfoldable pub closing : {A : Type 0} → Gen P A → Gen P A
    closing m s = (record (m s).0 { world = P.close_cycle (m s).0.world }, (m s).1)

    -- The deferred function: an error with the code `Internal` becomes one of the model.
    classified_error : {A : Type 0} → Attempt A → Attempt A
    classified_error (gave a) = gave a
    classified_error (stopped e) =
        stopped (if eqb e.code code_internal then llm_error e.message else e)

    unfoldable pub run_planner : Prepared → Str → Gen P Plan
    unfolding attempt three_phase_file_ids check_supported open_cycle closing run_phases
    run_planner prepared language = attempt (three_phase_file_ids prepared language) >>= λ ids.
        attempt (check_supported P prepared ids) >>= λ _.
        open_cycle >>= λ _. closing (run_phases prepared ids language)

    -- `Generate`
    unfoldable pub generate : Prepared → Str → Gen P Plan
    unfolding run_planner classified_error
    generate prepared language s =
        let r = run_planner prepared language s in (r.0, classified_error r.1)
