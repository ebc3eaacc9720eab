-- ===== src/Cli/Cycle/Planned.antt =====
-- internal/cli/collection.go: the calls of a cycle up to the plan that it executes.
use commiter_cli.Base.{
  ℕ, zero, suc, ◌+◌, ◌≤◌, arith, ◌≡◌, refl, sym, ap, inl, inr, Bool, false, List, [], ◌∷◌, ◌++◌,
  Option, none, some, is_nil,
}
use mathlib.Core.Path.{subst}
use commiter_cli.Base.Result.{Result, ok, err}
use commiter_cli.Base.Str.{Str}
use commiter_cli.Cli.Consent.{decided, reviewed_or_fail, review_loop, approve_plan}
use commiter_cli.Cli.Cycle.Allowed.{regenerations, Basis, IsProposed, IsConsented, AllAllowed, Safe}
use commiter_cli.Cli.Cycle.Rules.{
  From, from_then, from_quiet, from_recorded, from_call, from_pure, from_fail, from_leave, from_if,
  from_must_write, from_unless,
}
use commiter_cli.Cli.Host.{
  Calls, Event, M, ◌>>=◌, collected, captured, proposed, reviewed, Planned, planned, not_planned,
  unless_interrupted,
}
use commiter_cli.Cli.Options.{Flags}
use commiter_cli.Cli.Prepare.{
  of_collection, of_capture, of_planning, classify_collection, take_snapshot, stop_when_empty,
  or_fail, capture_before, resolve_commands, classify_planning, make_plan, show_only,
  approve_candidates, interrupted_before_commit,
}
use commiter_cli.Cli.Snapshots.{Collected, ReviewRequest, review_request}
use commiter_cli.Config.Values.{Values}
use commiter_cli.Gitstate.Errors
use commiter_cli.Interaction.PushTarget.{PushTarget}
use commiter_cli.Interaction.Review.{
  Decision, approve, regenerate, reject, reject_empty, reject_eof, reject_empty_feedback,
  reject_eof_feedback,
}
use commiter_cli.Planning.Types.{Plan}
use commiter_cli.Verification.Definition.{Definition}
use commiter_cli.Verification.State.{RepositoryState, StatePolicy}

module _ (C : Calls) (o : Flags) (v : Values) (limit : ℕ) where
  abbrev S : List Event → Type 0
  S = AllAllowed o v

  abbrev E : Option Bool → List Event → Type 0
  E = Safe o v limit

  classified_snapshot :
      (r : Errors.Result Collected) {calls : List Event}
      → S calls
      → From C E
          (of_collection r ++ calls)
          (unless_interrupted {C = C} interrupted_before_commit >>= λ _. classify_collection C r)
          (λ c later. later ≡ collected c ∷ calls)
  unfolding classify_collection
  classified_snapshot (Errors.ok c) h = from_quiet (from_unless _ (tt, h)) λ _. from_pure c refl
  classified_snapshot (Errors.err Errors.usage m) h =
      from_quiet (from_unless _ h) λ _. from_fail _ m h
  classified_snapshot (Errors.err Errors.safety m) h =
      from_quiet (from_unless _ h) λ _. from_fail _ m h
  classified_snapshot (Errors.err Errors.internal m) h =
      from_quiet (from_unless _ h) λ _. from_fail _ m h

  pub from_take_snapshot :
      {calls : List Event}
      → S calls
      → From C E calls (take_snapshot C) (λ c later. later ≡ collected c ∷ calls)
  unfolding take_snapshot
  from_take_snapshot h =
      from_recorded (C.collect [] (some (approve_candidates C))) of_collection
        λ r. classified_snapshot r h

  pub from_stop_when_empty :
      (c : Collected) {calls : List Event}
      → S calls
      → From C E calls (stop_when_empty C o c) (λ _ later. later ≡ calls)
  unfolding stop_when_empty
  from_stop_when_empty c h =
      from_if (is_nil c.changes) (λ e. from_quiet (from_must_write _ h) λ _. from_leave _ _ h)
        (λ e. from_pure tt refl)

  or_fail_error :
      {A : Type 0} {Q : A → List Event → Type 0} {calls : List Event} (code : ℕ) (m : Str)
      → S calls
      → From C E calls (or_fail C {A = A} code (err m)) Q
  unfolding or_fail
  or_fail_error code m h = from_quiet (from_unless _ h) λ _. from_fail code m h

  from_captured :
      (code : ℕ) (r : Result RepositoryState) {calls : List Event}
      → S calls
      → From C E (of_capture r ++ calls) (or_fail C code r) (λ s later. later ≡ captured s ∷ calls)
  unfolding or_fail
  from_captured code (ok s) h = from_pure s refl
  from_captured code (err m) h = or_fail_error code m h

  pub from_capture_before :
      (policy : StatePolicy) {calls : List Event}
      → S calls
      → From C E calls (capture_before C policy) (λ s later. later ≡ captured s ∷ calls)
  unfolding capture_before
  from_capture_before policy h =
      from_recorded (C.capture policy) of_capture λ r. from_captured _ r h

  from_or_fail :
      {A : Type 0} (code : ℕ) (r : Result A) {calls : List Event}
      → S calls
      → From C E calls (or_fail C code r) (λ a later. later ≡ calls)
  unfolding or_fail
  from_or_fail code (ok a) h = from_pure a refl
  from_or_fail code (err m) h = or_fail_error code m h

  pub from_resolve_commands :
      {calls : List Event}
      → S calls
      → From C E calls (resolve_commands C) (λ d later. later ≡ calls)
  unfolding resolve_commands
  from_resolve_commands h = from_call C.resolve_definition λ r. from_or_fail _ r h

  from_planned :
      (r : Planned) {calls : List Event}
      → S calls
      → From C E
          (of_planning r ++ calls)
          (classify_planning C r)
          (λ p later. later ≡ proposed p ∷ calls)
  unfolding classify_planning
  from_planned (planned p) h = from_quiet (from_unless _ (tt, h)) λ _. from_pure p refl
  from_planned (not_planned e) h = from_quiet (from_unless _ h) λ _. from_fail _ _ h

  pub from_make_plan :
      (c : Collected) (supplement : Str) {calls : List Event}
      → S calls
      → From C E calls (make_plan C c supplement) (λ p later. later ≡ proposed p ∷ calls)
  unfolding make_plan
  from_make_plan c supplement h =
      from_recorded (C.plan c supplement) of_planning λ r. from_planned r h

  pub from_show_only :
      (c : Collected) (p : Plan) (d : Option Definition) (t : PushTarget) (q : ReviewRequest)
      {calls : List Event}
      → S calls
      → From C E calls
          (show_only C o c p d t q)
          (λ _ later. (later ≡ calls) × (o.json ≡ false) × (o.dry_run ≡ false))
  unfolding show_only
  from_show_only c p d t q h =
      from_if o.json (λ e. from_quiet (from_must_write _ h) λ _. from_leave _ _ h)
        λ no_json.
          from_if o.dry_run (λ e. from_quiet (from_must_write _ h) λ _. from_leave _ _ h)
            λ wet. from_pure tt (refl, no_json, wet)

  from_reviewed_or_fail :
      (error : Option Str) {calls : List Event}
      → S calls
      → From C E calls (reviewed_or_fail error) (λ _ later. later ≡ calls)
  unfolding reviewed_or_fail
  from_reviewed_or_fail none h = from_unless _ h
  from_reviewed_or_fail (some m) h = from_quiet (from_unless _ h) λ _. from_fail _ _ h

  module _ (b : Basis) where
    -- What a review ends with.
    abbrev IsApproved : Plan → List Event → Type 0
    IsApproved p calls = IsConsented v b p calls × S calls

    abbrev request_of : Plan → ReviewRequest
    request_of p = review_request b.snapshot p b.definition b.target

    from_decided :
        (d : Decision) (p : Plan) (supplement : Str) (next : Plan → M C Plan) {calls : List Event}
        → IsProposed b p calls
        → S calls
        → ((q : Plan)
            → From C E
                (proposed q ∷ (reviewed (request_of p) regenerate ∷ calls))
                (next q)
                IsApproved)
        → From C E
            (reviewed (request_of p) d ∷ calls)
            (decided p supplement next d (make_plan C b.snapshot))
            IsApproved
    unfolding decided
    from_decided approve p supplement next {calls} i h k =
        from_quiet (from_must_write _ (tt, h))
          λ _. from_pure p (record { before = calls; proposal = i; consent = inl refl }, (tt, h))
    from_decided regenerate p supplement next i h k =
        from_then (from_make_plan b.snapshot supplement (tt, h)) k
    from_decided reject p supplement next i h k = from_fail _ _ (tt, h)
    from_decided reject_empty p supplement next i h k = from_fail _ _ (tt, h)
    from_decided reject_eof p supplement next i h k = from_fail _ _ (tt, h)
    from_decided reject_empty_feedback p supplement next i h k = from_fail _ _ (tt, h)
    from_decided reject_eof_feedback p supplement next i h k = from_fail _ _ (tt, h)

    again-IsProposed :
        {p : Plan} {calls : List Event} (q : Plan)
        → IsProposed b p calls
        → IsProposed b q (proposed q ∷ (reviewed (request_of p) regenerate ∷ calls))
    again-IsProposed {p} q i = record {
      rounds = reviewed (request_of p) regenerate ∷ (proposed p ∷ i.rounds);
      earlier = i.earlier;
      proposal = ap (λ l. proposed q ∷ (reviewed (request_of p) regenerate ∷ l)) i.proposal;
    }

    from_review_loop :
        (rounds : ℕ) (p : Plan) {calls : List Event}
        → IsProposed b p calls
        → S calls
        → limit ≤ regenerations calls + rounds
        → From C E calls (review_loop C b.snapshot b.definition b.target rounds p) IsApproved
    unfolding review_loop
    from_review_loop zero p {calls} i h enough = record {
      ends = λ r e. subst (E none) (sym e) (h, omega arith);
    }
    from_review_loop (suc rounds) p {calls} i h enough =
        from_recorded (C.review (request_of p)) (λ r. reviewed (request_of p) r.0 ∷ [])
          λ outcome. from_quiet (from_reviewed_or_fail outcome.2 (tt, h)) λ _.
            from_decided outcome.0 p outcome.1 _ i h
              λ q. from_review_loop rounds q (again-IsProposed q i) (tt, (tt, h)) (omega arith)

    pub from_approve_plan :
        (p : Plan) {calls : List Event}
        → IsProposed b p calls
        → S calls
        → From C E calls (approve_plan C b.snapshot b.definition b.target v limit p) IsApproved
    unfolding approve_plan
    from_approve_plan p {calls} i h =
        from_if v.commit_confirm (λ e. from_review_loop limit p i h (omega arith))
          λ e.
            from_quiet (from_quiet (from_must_write _ h) λ _. from_must_write _ h)
              λ _. from_pure p (record { before = calls; proposal = i; consent = inr (e, refl) }, h)
