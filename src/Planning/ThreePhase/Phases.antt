-- ===== src/Planning/ThreePhase/Phases.antt =====
-- internal/planning/three_phase.go: what the phases of a generation give, and the requests they make.
use mathlib.Core.List.{Mem}
use mathlib.Core.Path.{subst}
use commiter_cli.Base.{◌≡◌, refl, ap, List, [], ◌∷◌, Option, none, some, All, is_nil, if◌then◌else◌}
use commiter_cli.Base.Str.{Str, str_eq}
use commiter_cli.Cli.ExitCode.{ExitError}
use commiter_cli.Planning.Evidence.{
  CategoryError, invalid_categories, unresolved_evidence, BreakingEvidence, Category, CommitText,
  check_categories, compose, host_evidence_error,
}
use commiter_cli.Planning.Evidence.Breaking.{Announces, composed-Announces}
use commiter_cli.Planning.Grouping.{CandidateGroup}
use commiter_cli.Planning.Attempt.{gave, stopped, required, forbid, generation_error}
use commiter_cli.Planning.Invoke.{Prepared, Planner}
use commiter_cli.Planning.Invoke.Costs.{
  Costs, costs_bind, costs_attempt, costs_weaken, costs_unless_expired, costs_invoke,
}
use commiter_cli.Planning.Sensitive.{SensitiveValues}
use commiter_cli.Planning.ThreePhase.{
  evidence_error, category_error, Shown, plan_of, show_files, choose_groups, all_evidence,
  choose_categories, choose_texts, validate_final, run_phases,
}
use commiter_cli.Planning.Types.{Violation, Commit, Plan}
use commiter_cli.Planning.Validate.{Json, Unicode, validate}

required-gave :
    {A : Type 0} (o : Option A) (e : ExitError) (a : A) → required o e ≡ gave a → o ≡ some a
required-gave none e a h = cc
required-gave (some b) e a h = cc

forbid-gave : (o : Option ExitError) (u : Unit {0}) → forbid o ≡ gave u → o ≡ none
forbid-gave none u h = refl
forbid-gave (some e) u h = cc

pub gave-injective : {A : Type 0} (a b : A) → gave a ≡ gave b → a ≡ b
gave-injective a b h = cc

evidence_error-none : (o : Option Str) → evidence_error o ≡ none → o ≡ none
unfolding evidence_error
evidence_error-none none h = refl
evidence_error-none (some m) h = cc

category_error-none : (o : Option CategoryError) → category_error o ≡ none → o ≡ none
unfolding category_error
category_error-none none h = refl
category_error-none (some invalid_categories) h = cc
category_error-none (some unresolved_evidence) h = cc

judged-gave :
    (r : Plan × List Violation) (p : Plan)
    → (if is_nil r.1 then gave r.0 else stopped (generation_error r.1)) ≡ gave p
    → r ≡ (p, [])
judged-gave (q, []) p h = ap (λ x. (x, [])) (gave-injective q p h)
judged-gave (q, v ∷ vs) p h = cc

module _ (P : Planner) (host : List BreakingEvidence) (S : SensitiveValues) where
  costs_show_files :
      (prepared : Prepared) (ids : List Str)
      → Costs P 0 (show_files P host S prepared ids) (λ _. host_evidence_error ids host ≡ none)
  unfolding show_files
  costs_show_files prepared ids = costs_bind 0 0 (costs_attempt _ (λ _ _. tt)) λ _ _.
      costs_bind 0 0 (costs_attempt _ (λ _ _. tt)) λ _ _.
        costs_bind 0 0 (costs_attempt _ (λ _ _. tt)) λ _ _.
          costs_bind 0 0 (costs_attempt _ (λ u h. evidence_error-none _ (forbid-gave _ u h)))
            λ _ clear.
              costs_bind 0 0 (costs_attempt _ (λ _ _. tt)) λ _ _. costs_attempt _ (λ _ _. clear)

  module _ (shown : Shown) where
    costs_choose_groups : Costs P 1 (choose_groups P host S shown) (λ _. Unit {0})
    unfolding choose_groups
    costs_choose_groups = costs_bind 0 1 (costs_attempt _ (λ _ _. tt)) λ payload _.
        costs_bind 1 0 (costs_invoke S _ payload _ _)
          λ _ _. costs_bind 0 0 (costs_attempt _ (λ _ _. tt)) λ _ _. costs_attempt _ (λ _ _. tt)

    costs_choose_categories :
        (language : Str) (c : P.Payload × List CandidateGroup)
        → Costs P 1
            (choose_categories P host S shown language c)
            (λ r. check_categories host (all_evidence P host S shown) r.1 c.1 ≡ none)
    unfolding choose_categories
    costs_choose_categories language (payload, groups) =
        costs_bind 0 1 (costs_attempt _ (λ _ _. tt)) λ metadata _.
          costs_bind 1 0 (costs_invoke S _ metadata _ _) λ categories _.
            costs_bind 0 0 (costs_attempt _ (λ u h. category_error-none _ (forbid-gave _ u h)))
              λ _ checked. costs_attempt _ (λ r h.
                subst (λ c. check_categories host (all_evidence P host S shown) c groups ≡ none)
                  (ap (λ q. q.1) (gave-injective _ r h)) checked)

    costs_choose_texts :
        (groups : List CandidateGroup) (c : P.Payload × List (Str × Category))
        → Costs P 1
            (choose_texts P host S shown groups c)
            (λ cs. (texts : List (Str × CommitText)) × (compose c.1 texts groups ≡ some cs))
    unfolding choose_texts
    costs_choose_texts groups (payload, categories) =
        costs_bind 1 0 (costs_invoke S _ payload _ _) λ texts _.
          costs_attempt _ (λ cs h. (texts, required-gave (compose categories texts groups) _ cs h))

  module _ (U : Unicode) (J : Json) where
    costs_validate_final :
        (ids : List Str) (language : Str) (commits : List Commit)
        → Costs P 0
            (validate_final P host S U J ids language commits)
            (λ plan. validate U S J (P.marshal (plan_of commits)) ids language ≡ (plan, []))
    unfolding validate_final
    costs_validate_final ids language commits = costs_bind 0 0 costs_unless_expired λ _ _.
        costs_attempt _ (judged-gave (validate U S J (P.marshal (plan_of commits)) ids language))

    -- What stands behind a plan that the phases give: commits that announce what the host confirmed,
    -- whose text is the candidate that passed the validation.
    pub record IsComposed (ids : List Str) (language : Str) (plan : Plan) : Type 0 where
      pub commits : List Commit
      pub announced : (e : BreakingEvidence) → Mem e host → All (Announces e) commits
      pub written : validate U S J (P.marshal (plan_of commits)) ids language ≡ (plan, [])

    pub costs_run_phases :
        (prepared : Prepared) (ids : List Str) (language : Str)
        → Costs P 3 (run_phases P host S U J prepared ids language) (IsComposed ids language)
    unfolding run_phases all_evidence
    costs_run_phases prepared ids language =
        costs_bind 0 3 (costs_show_files prepared ids) λ shown clear.
          costs_bind 1 2 (costs_choose_groups shown) λ chosen _.
            costs_bind 1 1 (costs_choose_categories shown language chosen) λ categories checked.
              costs_bind 1 0 (costs_choose_texts shown chosen.1 categories) λ commits composed.
                costs_weaken (costs_validate_final ids language commits) λ plan valid. record {
                  commits = commits;
                  announced =
                      composed-Announces P.decimal ids host shown.files shown.files shown.projection
                        categories.1 composed.0 chosen.1 commits clear checked composed.1;
                  written = valid;
                }
