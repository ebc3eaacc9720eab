-- ===== src/Cli/Cycle/Safe.antt =====
-- internal/cli/collection.go: a cycle, and the loop around it, commit and push only what is allowed.
use commiter_cli.Base.{
  ◌⊎◌, ◌≤◌, ℕ, zero, suc, ◌≡◌, refl, sym, inl, inr, ◌⊎◌, ◌≤◌, Bool, true, false, List, [], ◌∷◌,
  Option, none,
}
use mathlib.Core.Path.{subst}
use commiter_cli.Cli.Cycle.{execute_plan, offer_plan, cycle, after_cycle, run_collection}
use commiter_cli.Cli.Cycle.Allowed.{
  Basis, IsProposed, IsConsented, CommitAllowed, AllAllowed, Safe, regenerations, WantsAgain,
}
use commiter_cli.Cli.Cycle.Checked.{from_clear_commands, from_verify, Looked, from_check_unchanged}
use commiter_cli.Cli.Cycle.Planned.{
  from_take_snapshot, from_stop_when_empty, from_capture_before, from_resolve_commands,
  from_make_plan, from_show_only, from_approve_plan,
}
use commiter_cli.Cli.Cycle.Rules.{Ends, From, from_at, from_bind, from_then, from_quiet, from_call}
use commiter_cli.Cli.Finish.{commit_request, make_commits, finish_push}
use commiter_cli.Cli.Host.{
  Calls, Event, Session, Step, go, leave, exhausted, ◌>>=◌, cleared, verified,
}
use commiter_cli.Cli.Options.{Flags}
use commiter_cli.Cli.Snapshots.{state_policy}
use commiter_cli.Config.Values.{Values}
use commiter_cli.Planning.Types.{Plan}
use commiter_cli.Cli.Cycle.Finished.{from_make_commits, from_finish_push}

module _ (C : Calls) (o : Flags) (v : Values) (limit : ℕ) where
  abbrev S : List Event → Type 0
  S = AllAllowed o v

  abbrev E : Option Bool → List Event → Type 0
  E = Safe o v limit

  -- A commit behind the looks at the repository.
  Looked-CommitAllowed :
      (b : Basis) (p : Plan) {calls later : List Event}
      → o.dry_run ≡ false
      → o.json ≡ false
      → IsConsented v b p calls
      → Looked C o v limit b.snapshot b.before
          (verified b.definition none ∷ (cleared b.definition ∷ calls))
          later
      → CommitAllowed o v (commit_request b.snapshot p (state_policy b.snapshot v)) later
  Looked-CommitAllowed b p {calls} wet no_json consented looks = record {
    basis = b;
    plan = p;
    request = refl;
    checked = record {
      before = calls;
      consented = consented;
      after = looks.after;
      current = looks.current;
      looks = looks.looks;
      unchanged = looks.unchanged;
      same_changes = looks.same_changes;
    };
    wet = wet;
    no_json = no_json;
  }

  from_commit_and_push :
      (b : Basis) (p : Plan) {calls : List Event}
      → CommitAllowed o v (commit_request b.snapshot p (state_policy b.snapshot v)) calls
      → S calls
      → From C E calls
          (make_commits C b.snapshot p (state_policy b.snapshot v) >>= λ _.
            finish_push C b.snapshot v)
          (λ _ last. S last)
  unfolding commit_request
  from_commit_and_push b p allowed h =
      let policy = state_policy b.snapshot v in
      let r = commit_request b.snapshot p policy in
      from_bind (from_make_commits C o v limit b.snapshot p policy allowed h) λ _ later made.
        from_finish_push C o v limit b.snapshot r refl made
          (subst S (sym made.1) (tt, (allowed, h)))

  from_execute_plan :
      (b : Basis) (p : Plan) {calls : List Event}
      → o.dry_run ≡ false
      → o.json ≡ false
      → IsConsented v b p calls
      → S calls
      → From C E calls
          (execute_plan C o v limit b.snapshot b.before b.definition p)
          (λ _ last. S last)
  unfolding execute_plan
  from_execute_plan b p wet no_json consented h =
      let policy = state_policy b.snapshot v in
      from_then (from_clear_commands C o v limit b.definition h) λ _.
        from_then (from_verify C o v limit b.definition v.timeout policy b.before (tt, h))
          λ results.
            from_bind
              (from_check_unchanged C o v limit b.snapshot policy b.before results (tt, (tt, h)))
              λ _ later looks.
                from_commit_and_push b p (Looked-CommitAllowed b p wet no_json consented looks)
                  (subst S (sym looks.looks) (tt, (tt, (tt, (tt, h)))))

  from_offer_plan :
      (b : Basis) (p : Plan) {calls : List Event}
      → IsProposed b p calls
      → S calls
      → From C E calls
          (offer_plan C o v limit b.snapshot b.before b.definition b.target p)
          (λ _ last. S last)
  unfolding offer_plan
  from_offer_plan b p i h =
      from_bind (from_show_only C o v limit b.snapshot p b.definition b.target _ h) λ _ later shown.
        from_at shown.0 (
          from_bind (from_approve_plan C o v limit b p i h)
            λ chosen l approved. from_execute_plan b chosen shown.2 shown.1 approved.0 approved.1)

  from_cycle :
      {calls : List Event} → S calls → From C E calls (cycle C o v limit) (λ _ last. S last)
  unfolding cycle
  from_cycle {calls} h = from_then (from_take_snapshot C o v limit h) λ c.
      from_quiet (from_stop_when_empty C o v limit c (tt, h)) λ _.
        from_then (from_capture_before C o v limit (state_policy c v) (tt, h)) λ before.
          from_quiet (from_resolve_commands C o v limit (tt, (tt, h))) λ definition.
            from_call C.resolve_push_target λ target.
              from_then (from_make_plan C o v limit c [] (tt, (tt, h))) λ p.
                let b : Basis = record {
                  snapshot = c;
                  before = before;
                  definition = definition;
                  target = target;
                } in
                from_offer_plan b p (record { rounds = []; earlier = calls; proposal = refl })
                  (tt, (tt, (tt, h)))

  -- The run had `n` cycles, at the end of each of which the user asked for another.
  abbrev pub AgainAndAgain : ℕ → Session C → Session C → Type 0
  AgainAndAgain zero r q = q ≡ r
  AgainAndAgain (suc n) r q =
      (r' : Session C) × (code : ℕ) × (cycle C o v limit r ≡ (r', leave code true))
      × WantsAgain r'.log
      × AgainAndAgain n r' q

  -- What a run comes to: its calls were allowed, and it has a code unless it met a bound.
  abbrev Finished : ℕ → Session C → Session C × Option ℕ → Type 0
  Finished n r (q, code) =
      S q.log × (code ≡ none → (limit ≤ regenerations q.log) ⊎ AgainAndAgain n r q)

  after_cycle-Finished :
      (n : ℕ) (again : Session C → Session C × Option ℕ) (r : Session C) (x : Session C × Step ℕ)
      → cycle C o v limit r ≡ x
      → Ends C E (λ _ calls. S calls) x
      → ((q : Session C) → S q.log → Finished n q (again q))
      → Finished (suc n) r (after_cycle C o v limit again x)
  unfolding after_cycle
  after_cycle-Finished n again r (q, go code) e h k = (h, λ none_given. cc)
  after_cycle-Finished n again r (q, leave code true) e h k =
      let (safe, ended) = k q h.0 in
      (
        safe,
        λ none_given. elim (ended none_given) [
          | inl enough ↦ inl enough
          | inr more ↦ inr (q, code, e, h.1, more)
        ],
      )
  after_cycle-Finished n again r (q, leave code false) e h k = (h, λ none_given. cc)
  after_cycle-Finished n again r (q, exhausted) e h k = (h.0, λ none_given. inl h.1)

  run_collection-Finished :
      (n : ℕ) (r : Session C) → S r.log → Finished n r (run_collection C o v limit n r)
  unfolding run_collection
  run_collection-Finished zero r h = (h, λ none_given. inr refl)
  run_collection-Finished (suc n) r h =
      after_cycle-Finished n (run_collection C o v limit n) r (cycle C o v limit r) refl
        ((from_cycle h).ends r refl) (run_collection-Finished n)

  -- Whatever the components answer, each commit of a run stands behind its permission, and so does
  -- each push. A commit is no dry run; its plan was approved by the user as it was shown, unless the
  -- configuration wants no approval; then the verification commands were authorized and passed, and a
  -- second look found the head, the index, the state of every path and the changes of the snapshot
  -- that the commit is made of as they were. A push directly follows commits without an error, for a
  -- target that is resolved; the user said yes to it, unless the configuration wants no answer and no
  -- sensitive change was committed.
  pub run_collection-AllAllowed :
      (n : ℕ) (r : Session C)
      → AllAllowed o v r.log
      → AllAllowed o v (run_collection C o v limit n r).0.log
  run_collection-AllAllowed n r h = (run_collection-Finished n r h).0

  -- A run ends with an exit code. The only runs that meet the bounds of the model are those in which
  -- the user asked for as many other plans as a review has rounds, or for another analysis at the end
  -- of every one of the cycles.
  pub run_collection-ends :
      (n : ℕ) (r : Session C)
      → AllAllowed o v r.log
      → (run_collection C o v limit n r).1 ≡ none
      → (limit ≤ regenerations (run_collection C o v limit n r).0.log)
        ⊎ AgainAndAgain n r (run_collection C o v limit n r).0
  run_collection-ends n r h = (run_collection-Finished n r h).1
