-- ===== src/Cli/Cycle/Finished.antt =====
-- internal/cli/collection.go: the calls of a cycle that commits and pushes.
use commiter_cli.Base.{
  ℕ, ◌≡◌, refl, sym, ap, ◌∙◌, inl, inr, ◌⊎◌, Bool, true, false, not, ◌&&◌, ◌||◌, List, [], ◌∷◌,
  ◌++◌, Option, none, some,
}
use mathlib.Core.Path.{subst}
use commiter_cli.Base.Str.{Str}
use commiter_cli.Cli.Cycle.Allowed.{CommitAllowed, PushAllowed, AllAllowed, Safe}
use commiter_cli.Cli.Cycle.Rules.{
  From, from_bind, from_quiet, from_recorded, from_call, from_pure, from_fail, from_if, from_must,
  from_must_write, from_weaken,
}
use commiter_cli.Cli.Finish.{
  commit_request, of_commit, classify_commit, show_hooks, make_commits, push_answer, of_answer,
  ask_push, pushed_or_fail, require_target, confirm_push, push_to, push_commits, finish_push,
}
use commiter_cli.Cli.Host.{
  Calls, Event, CommitRequest, Committed, committing, made_commits, push_confirmed, pushing,
}
use commiter_cli.Cli.Options.{Flags}
use commiter_cli.Cli.Prepare.{read_yes_context}
use commiter_cli.Cli.Snapshots.{Collected, any_sensitive}
use commiter_cli.Commitexec.Run.{Failure, classified, plain}
use commiter_cli.Config.Values.{Values}
use commiter_cli.Interaction.Push.{Pushed, pushed, push_failed, push_interrupted, refused}
use commiter_cli.Interaction.PushTarget.{PushTarget}
use commiter_cli.Planning.Types.{Plan}
use commiter_cli.Verification.State.{StatePolicy}

or-false : (a b : Bool) → (a || b) ≡ false → (a ≡ false) × (b ≡ false)
or-false false b h = (refl, h)
or-false true b h = cc

module _ (C : Calls) (o : Flags) (v : Values) (limit : ℕ) where
  abbrev S : List Event → Type 0
  S = AllAllowed o v

  abbrev E : Option Bool → List Event → Type 0
  E = Safe o v limit

  -- What the commits end with.
  abbrev pub JustMade : CommitRequest → List Event → List Event → Type 0
  JustMade r calls later =
      (hashes : List Str) × (later ≡ made_commits hashes ∷ (committing r ∷ calls))

  from_show_hooks :
      (text : Str) {calls : List Event}
      → S calls
      → From C E calls (show_hooks C text) (λ _ later. later ≡ calls)
  unfolding show_hooks
  from_show_hooks [] h = from_pure tt refl
  from_show_hooks (c ∷ text) h = from_must _ _ _ h

  from_classified :
      (r : CommitRequest) (hashes : List Str) (f : Option Failure) (text : Str) {calls : List Event}
      → S (committing r ∷ calls)
      → From C E
          (of_commit r (record { hashes = hashes; failure = f; hook_output = text }) ++ calls)
          (classify_commit C hashes f)
          (λ hs later. later ≡ made_commits hs ∷ (committing r ∷ calls))
  unfolding classify_commit
  from_classified r hashes none text h = from_pure hashes refl
  from_classified r hashes (some plain) text h = from_fail _ _ h
  from_classified r hashes (some (classified e)) text h = from_fail _ _ h

  safe_commit :
      (r : CommitRequest) (m : Committed) {calls : List Event}
      → S (committing r ∷ calls)
      → S (of_commit r m ++ calls)
  safe_commit r m {calls} h = go_on m.failure
    where
      go_on : (f : Option Failure) → S (of_commit r (record m { failure = f }) ++ calls)
      go_on none = (tt, h)
      go_on (some f) = h

  pub from_make_commits :
      (c : Collected) (p : Plan) (policy : StatePolicy) {calls : List Event}
      → CommitAllowed o v (commit_request c p policy) calls
      → S calls
      → From C E calls
          (make_commits C c p policy)
          (λ _ later. JustMade (commit_request c p policy) calls later)
  unfolding make_commits
  from_make_commits c p policy {calls} allowed h =
      let r = commit_request c p policy in
      from_recorded (C.commit r) (of_commit r) λ m.
        from_quiet (from_show_hooks m.hook_output (safe_commit r m (allowed, h))) λ _.
          from_bind (from_classified r m.hashes m.failure m.hook_output (allowed, h)) λ hs later e.
            from_weaken (from_must_write _ (subst S (sym e) (tt, (allowed, h))))
              λ _ last same. (hs, same ∙ e)

  from_push_answer :
      (t : PushTarget) (answer : Option Bool) {calls : List Event}
      → S calls
      → From C E
          (of_answer t answer ++ calls)
          (push_answer C answer)
          (λ _ later. later ≡ push_confirmed t ∷ calls)
  unfolding push_answer
  from_push_answer t none h = from_fail _ _ h
  from_push_answer t (some true) h = from_pure tt refl
  from_push_answer t (some false) h = from_fail _ _ h

  from_ask_push :
      (forced : Bool) (t : PushTarget) {calls : List Event}
      → S calls
      → From C E calls (ask_push C v forced t) (λ _ later. later ≡ push_confirmed t ∷ calls)
  unfolding ask_push
  from_ask_push forced t h = from_call C.interrupted λ ended.
      from_quiet (from_if ended (λ _. from_fail _ _ h) (λ _. from_pure tt refl)) λ _.
        from_quiet
          (from_if (forced && not v.push_confirm) (λ _. from_must _ _ _ h) (λ _. from_pure tt refl))
          λ _. from_quiet (from_must _ _ _ h) λ _.
            from_recorded (read_yes_context C) (of_answer t) λ answer. from_push_answer t answer h

  from_confirm_push :
      (forced : Bool) (t : PushTarget) {calls : List Event}
      → S calls
      → From C E calls (confirm_push C v forced t) (λ _ later.
        (later ≡ push_confirmed t ∷ calls)
        ⊎ ((later ≡ calls) × (v.push_confirm ≡ false) × (forced ≡ false)))
  unfolding confirm_push
  from_confirm_push forced t h =
      from_if (v.push_confirm || forced)
        (λ _. from_weaken (from_ask_push forced t h) λ _ later e. inl e)
        λ e. from_weaken (from_must_write _ h) λ _ later same.
          let (confirm, force) = or-false v.push_confirm forced e in inr (same, confirm, force)

  from_require_target :
      (t : PushTarget) {calls : List Event}
      → S calls
      → From C E calls (require_target C t) (λ _ later. (later ≡ calls) × (t.resolved ≡ true))
  unfolding require_target
  from_require_target t {calls} h =
      from_bind
        (from_if {Q = λ _ later. (later ≡ calls) × (t.resolved ≡ true)} t.resolved
          (λ e. from_pure tt (refl, e)) (λ _. from_fail _ _ h))
        λ _ later e.
          from_weaken (from_must _ _ _ (subst S (sym e.0) h)) λ _ last same. (same ∙ e.0, e.1)

  from_pushed :
      (result : Pushed) {calls : List Event}
      → S calls
      → From C E calls (pushed_or_fail C result) (λ _ later. later ≡ calls)
  unfolding pushed_or_fail
  from_pushed pushed h = from_pure tt refl
  from_pushed push_interrupted h = from_call C.interrupted λ ended. from_fail _ _ h
  from_pushed push_failed h =
      from_call C.interrupted λ ended. from_if ended (λ _. from_fail _ _ h) (λ _. from_fail _ _ h)
  from_pushed (refused m) h =
      from_call C.interrupted λ ended. from_if ended (λ _. from_fail _ _ h) (λ _. from_fail _ _ h)

  -- The calls after a question that was answered with yes, or that was not needed.
  consent-PushAllowed :
      (c : Collected) (r : CommitRequest) (t : PushTarget) {calls later last : List Event}
      → r.options.changes ≡ c.changes
      → v.push_enabled ≡ true
      → t.resolved ≡ true
      → JustMade r calls later
      → (last ≡ push_confirmed t ∷ later)
        ⊎ ((last ≡ later) × (v.push_confirm ≡ false) × (any_sensitive c.changes ≡ false))
      → PushAllowed o v t last
  consent-PushAllowed c r t {calls} same on resolved (hs, made) consent = record {
    request = r;
    hashes = hs;
    earlier = calls;
    enabled = on;
    resolved = resolved;
    consent = elim consent [
      | inl e ↦ inl (e ∙ ap (λ l. push_confirmed t ∷ l) made)
      | inr (e, confirm, force) ↦ inr (e ∙ made, confirm, ap any_sensitive same ∙ force)
    ];
  }

  safe_consent :
      (t : PushTarget) {later last : List Event} {P Q : Type 0}
      → S later
      → (last ≡ push_confirmed t ∷ later) ⊎ ((last ≡ later) × P × Q)
      → S last
  safe_consent t h (inl e) = subst S (sym e) (tt, h)
  safe_consent t h (inr (e, _, _)) = subst S (sym e) h

  from_push_to :
      (t : PushTarget) {calls : List Event}
      → PushAllowed o v t calls
      → S calls
      → From C E calls (push_to C t) (λ _ last. S last)
  unfolding push_to
  from_push_to t allowed h =
      from_recorded (C.push t) (λ p. pushing t ∷ [])
        λ p.
          from_quiet (from_pushed p (allowed, h))
            λ _. from_quiet (from_must_write _ (allowed, h)) λ _. from_pure _ (allowed, h)

  pub from_finish_push :
      (c : Collected) (r : CommitRequest) {calls later : List Event}
      → r.options.changes ≡ c.changes
      → JustMade r calls later
      → S later
      → From C E later (finish_push C c v) (λ _ last. S last)
  unfolding finish_push push_commits
  from_finish_push c r {calls} {later} same made h =
      from_if v.push_enabled
        (λ on. from_call C.resolve_push_target λ t. from_bind (from_require_target t h) λ _ l1 e1.
          from_bind (from_confirm_push (any_sensitive c.changes) t (subst S (sym e1.0) h))
            λ _ l2 e2.
              let e3 =
                subst
                  (λ l.
                    (l2 ≡ push_confirmed t ∷ l)
                    ⊎ ((l2 ≡ l) × (v.push_confirm ≡ false) × (any_sensitive c.changes ≡ false)))
                  e1.0 e2 in
              from_push_to t (consent-PushAllowed c r t same on e1.1 made e3) (safe_consent t h e3))
        (λ off. from_quiet (from_must_write _ h) λ _. from_pure _ h)
