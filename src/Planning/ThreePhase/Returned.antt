-- ===== src/Planning/ThreePhase/Returned.antt =====
-- internal/planning/three_phase.go: how a generation ends, and what its plan rests on.
use mathlib.Core.List.{Mem}
use mathlib.Core.Path.{subst}
use commiter_cli.Base.{
  ◌≡◌, ◌≢◌, sym, ◌∙◌, ap, ℕ, ◌+◌, ◌≤◌, List, [], map, arith, All, inl, inr, Option-cases, ◌==◌,
}
use commiter_cli.Base.Sets.{add_all}
use commiter_cli.Base.Str.{Str, str_eq}
use commiter_cli.Cli.ExitCode.{code_internal}
use commiter_cli.Planning.Evidence.{BreakingEvidence}
use commiter_cli.Planning.Evidence.Breaking.{Announces}
use commiter_cli.Planning.Attempt.{Attempt, gave, stopped}
use commiter_cli.Planning.Invoke.{Prepared, Planner, Progress, Gen}
use commiter_cli.Planning.Invoke.Costs.{Spent, Spent-outcome, Costs, costs_bind, costs_attempt}
use commiter_cli.Planning.Sensitive.{SensitiveValues}
use commiter_cli.Planning.ThreePhase.{
  exact_ids, three_phase_file_ids, plan_of, run_phases, open_cycle, closing, run_planner,
  classified_error, generate,
}
use commiter_cli.Planning.Types.{Commit, Plan}
use commiter_cli.Planning.Validate.{Json, Unicode, decode_plan}
use commiter_cli.Planning.Validate.Accepts.{IsAccepted, validate_iff}
use commiter_cli.Planning.ThreePhase.Phases.{gave-injective, IsComposed, costs_run_phases}

exact_ids-gave : (ids given : List Str) → exact_ids ids ≡ gave given → given ≡ ids
unfolding exact_ids
exact_ids-gave ids given h = elim (Option-cases (add_all (λ id. id == []) ids [])) [
  | inl e ↦ absurd (ground arith)
  | inr (all, e) ↦ ground (arith, gave-injective ids given)
]

three_phase_file_ids-gave :
    (prepared : Prepared) (language : Str) (ids : List Str)
    → three_phase_file_ids prepared language ≡ gave ids
    → ids ≡ map (λ f. f.id) prepared.files
unfolding three_phase_file_ids
three_phase_file_ids-gave prepared language ids h = exact_ids-gave _ ids (ground arith)

module _ (P : Planner) (host : List BreakingEvidence) (S : SensitiveValues) (U : Unicode)
    (J : Json) where
  costs_open_cycle : Costs P 0 (open_cycle P host S U J) (λ _. Unit {0})
  unfolding open_cycle
  costs_open_cycle = record {
    spent = λ s.
        Spent-outcome (open_cycle P host S U J s).0 s.calls 0 (open_cycle P host S U J s).1
          (omega arith);
  }

  Spent-closed :
      {A : Type 0} (Q : A → Type 0) (n k : ℕ) (r : Progress P × Attempt A) (w : P.World)
      → Spent P n k Q r
      → Spent P n k Q (record r.0 { world = w }, r.1)
  Spent-closed Q n k (s, gave a) w h = h
  Spent-closed Q n k (s, stopped e) w h = h

  costs_closing :
      {A : Type 0} {Q : A → Type 0} {k : ℕ} {m : Gen P A}
      → Costs P k m Q
      → Costs P k (closing P host S U J m) Q
  unfolding closing
  costs_closing {Q} {k} {m} h = record {
    spent = λ s. Spent-closed Q s.calls k (m s) (P.close_cycle (m s).0.world) (h.spent s);
  }

  costs_run_planner :
      (prepared : Prepared) (language : Str)
      → Costs P 3
          (run_planner P host S U J prepared language)
          (IsComposed P host S U J (map (λ f. f.id) prepared.files) language)
  unfolding run_planner
  costs_run_planner prepared language =
      costs_bind 0 3 (costs_attempt _ (three_phase_file_ids-gave prepared language)) λ ids same.
        costs_bind 0 3 (costs_attempt _ (λ _ _. tt)) λ _ _. costs_bind 0 3 costs_open_cycle λ _ _.
          costs_closing (
            subst
              (λ i.
                Costs P 3 (run_phases P host S U J prepared ids language)
                  (IsComposed P host S U J i language))
              same (costs_run_phases P host S U J prepared ids language))

  -- How a generation ends that began after `n` requests.
  abbrev pub IsEnded : ℕ → (Plan → Type 0) → Progress P × Attempt Plan → Type 0
  IsEnded n Q (s, gave plan) = (s.calls ≡ n + 3) × Q plan
  IsEnded n Q (s, stopped e) = (s.calls ≤ n + 3) × (e.code ≢ code_internal)

  classified_error-IsEnded :
      (n : ℕ) (Q : Plan → Type 0) (r : Progress P × Attempt Plan)
      → Spent P n 3 Q r
      → IsEnded n Q (r.0, classified_error P host S U J r.1)
  unfolding classified_error
  classified_error-IsEnded n Q (s, gave plan) h = h
  classified_error-IsEnded n Q (s, stopped e) h = (h, λ c. ground arith)

  generate-IsComposed :
      (prepared : Prepared) (language : Str) (s : Progress P)
      → IsEnded s.calls
          (IsComposed P host S U J (map (λ f. f.id) prepared.files) language)
          (generate P host S U J prepared language s)
  unfolding generate
  generate-IsComposed prepared language s =
      classified_error-IsEnded s.calls _ (run_planner P host S U J prepared language s)
        ((costs_run_planner prepared language).spent s)

  IsEnded-weaken :
      (n : ℕ) (Q R : Plan → Type 0) (r : Progress P × Attempt Plan)
      → ((p : Plan) → Q p → R p)
      → IsEnded n Q r
      → IsEnded n R r
  IsEnded-weaken n Q R (s, gave plan) f h = (h.0, f plan h.1)
  IsEnded-weaken n Q R (s, stopped e) f h = h

  IsEnded-gave :
      (n : ℕ) (Q : Plan → Type 0) {r : Progress P × Attempt Plan} (s : Progress P) (plan : Plan)
      → IsEnded n Q r
      → r ≡ (s, gave plan)
      → Q plan
  IsEnded-gave n Q s plan h e = (subst (IsEnded n Q) e h).1

  -- A generation ends with a plan after three requests exactly, and that plan passes the validation
  -- for the files that were given; or it ends with an error that is not an internal one, after three
  -- requests at most.
  pub generate-IsEnded :
      (prepared : Prepared) (language : Str) (s : Progress P)
      → IsEnded s.calls
          (λ plan. IsAccepted U S language plan (map (λ f. f.id) prepared.files))
          (generate P host S U J prepared language s)
  generate-IsEnded prepared language s =
      IsEnded-weaken s.calls _ _ (generate P host S U J prepared language s)
        (λ plan c.
          ((validate_iff U S language (map (λ f. f.id) prepared.files) plan J _).0 c.written).1)
        (generate-IsComposed prepared language s)

  -- If decoding reads back the commits of a written plan, every commit of a generated plan that has
  -- a file of evidence that the host confirmed is breaking.
  pub generate-Announces :
      (prepared : Prepared) (language : Str) (s later : Progress P) (plan : Plan)
      → ((commits : List Commit)
          → decode_plan J (P.marshal (plan_of commits)) ≡ (plan_of commits, []))
      → generate P host S U J prepared language s ≡ (later, gave plan)
      → (e : BreakingEvidence) → Mem e host
      → All (Announces e) plan.commits
  generate-Announces prepared language s later plan reads_back made e m =
      let c = IsEnded-gave s.calls _ later plan (generate-IsComposed prepared language s) made in
      let decoded =
        ((validate_iff U S language (map (λ f. f.id) prepared.files) plan J _).0 c.written).0 in
      subst (λ q. All (Announces e) q.commits)
        (ap (λ q. q.0) (sym (reads_back c.commits) ∙ decoded)) (c.announced e m)
