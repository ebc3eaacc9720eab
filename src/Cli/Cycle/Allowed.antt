-- ===== src/Cli/Cycle/Allowed.antt =====
-- internal/cli/collection.go: what must have happened before a commit and before a push.
use commiter_cli.Base.{
  ℕ, suc, ◌≤◌, ◌≡◌, ◌⊎◌, Bool, true, false, List, [], ◌∷◌, ◌++◌, Option, none, some,
}
use commiter_cli.Base.Str.{Str}
use commiter_cli.Cli.Finish.{commit_request}
use commiter_cli.Cli.Host.{
  CommitRequest, Event, collected, captured, proposed, reviewed, cleared, verified, committing,
  made_commits, push_confirmed, pushing, again_confirmed,
}
use commiter_cli.Cli.Options.{Flags}
use commiter_cli.Cli.Snapshots.{
  Collected, any_sensitive, changed_snapshot_paths, review_request, state_policy,
}
use commiter_cli.Config.Values.{Values}
use commiter_cli.Interaction.PushTarget.{PushTarget}
use commiter_cli.Interaction.Review.{approve, regenerate}
use commiter_cli.Planning.Types.{Plan}
use commiter_cli.Verification.Definition.{Definition}
use commiter_cli.Verification.State.{RepositoryState}
use commiter_cli.Verification.State.Unchanged.{IsUnchanged}

-- What a cycle works on: the snapshot and the state of the repository before the verification, its
-- commands, and the target that the review shows.
pub record Basis : Type 0 where
  pub snapshot : Collected
  pub before : RepositoryState
  pub definition : Option Definition
  pub target : PushTarget

-- The calls, last first, are those up to a plan: the snapshot, the state, and the rounds of a review
-- that proposed others before.
pub record IsProposed (b : Basis) (p : Plan) (calls : List Event) : Type 0 where
  pub rounds : List Event
  pub earlier : List Event
  pub proposal :
      calls ≡ proposed p ∷ (rounds ++ (captured b.before ∷ (collected b.snapshot ∷ earlier)))

module _ (v : Values) where
  -- The calls are those up to a plan that the user approved as it was shown, or that needs no approval.
  pub record IsConsented (b : Basis) (p : Plan) (calls : List Event) : Type 0 where
    pub before : List Event
    pub proposal : IsProposed b p before
    pub consent :
        (calls ≡ reviewed (review_request b.snapshot p b.definition b.target) approve ∷ before)
        ⊎ ((v.commit_confirm ≡ false) × (calls ≡ before))

  -- The calls are those up to a second look at the repository, behind commands that were authorized
  -- and passed, which found all as it was before.
  pub record IsChecked (b : Basis) (p : Plan) (calls : List Event) : Type 0 where
    pub before : List Event
    pub consented : IsConsented b p before
    pub after : RepositoryState
    pub current : Collected
    pub looks :
        calls
        ≡ collected current
          ∷ (captured after ∷ (verified b.definition none ∷ (cleared b.definition ∷ before)))
    pub unchanged : IsUnchanged b.before after
    pub same_changes : changed_snapshot_paths b.snapshot current ≡ []

module _ (o : Flags) (v : Values) where
  -- What a call that commits takes: no dry run, and a plan that was consented to and checked.
  pub record CommitAllowed (r : CommitRequest) (calls : List Event) : Type 0 where
    pub basis : Basis
    pub plan : Plan
    pub request : r ≡ commit_request basis.snapshot plan (state_policy basis.snapshot v)
    pub checked : IsChecked v basis plan calls
    pub wet : o.dry_run ≡ false
    pub no_json : o.json ≡ false

  -- What a push takes: its target is resolved, pushes are on, and the commits were just made with no
  -- error. Then the user said yes to this target, or neither the configuration nor a sensitive
  -- change asks for it.
  pub record PushAllowed (t : PushTarget) (calls : List Event) : Type 0 where
    pub request : CommitRequest
    pub hashes : List Str
    pub earlier : List Event
    pub enabled : v.push_enabled ≡ true
    pub resolved : t.resolved ≡ true
    pub consent :
        (calls ≡ push_confirmed t ∷ (made_commits hashes ∷ (committing request ∷ earlier)))
        ⊎ ((calls ≡ made_commits hashes ∷ (committing request ∷ earlier))
            × (v.push_confirm ≡ false)
            × (any_sensitive request.options.changes ≡ false))

  abbrev pub Allowed : Event → List Event → Type 0
  Allowed (committing r) calls = CommitAllowed r calls
  Allowed (pushing t) calls = PushAllowed t calls
  Allowed (collected c) calls = Unit
  Allowed (captured s) calls = Unit
  Allowed (proposed p) calls = Unit
  Allowed (reviewed q d) calls = Unit
  Allowed (cleared d) calls = Unit
  Allowed (verified d e) calls = Unit
  Allowed again_confirmed calls = Unit
  Allowed (made_commits hs) calls = Unit
  Allowed (push_confirmed t) calls = Unit

  -- Each call of a list, last first, was allowed behind the calls before it.
  abbrev pub AllAllowed : List Event → Type 0
  AllAllowed [] = Unit
  AllAllowed (e ∷ calls) = Allowed e calls × AllAllowed calls

-- How often the user asked for another plan.
abbrev pub regenerations : List Event → ℕ
regenerations [] = 0
regenerations (reviewed q regenerate ∷ calls) = suc (regenerations calls)
regenerations (e ∷ calls) = regenerations calls

-- The last call is the yes of the user to another analysis.
abbrev pub WantsAgain : List Event → Type 0
WantsAgain calls = (earlier : List Event) × (calls ≡ again_confirmed ∷ earlier)

module _ (o : Flags) (v : Values) (limit : ℕ) where
  -- What holds of the calls where a cycle ends early: it ran out of the rounds of its review, or it is
  -- to be followed by another cycle, or neither.
  abbrev pub Safe : Option Bool → List Event → Type 0
  Safe none calls = AllAllowed o v calls × (limit ≤ regenerations calls)
  Safe (some true) calls = AllAllowed o v calls × WantsAgain calls
  Safe (some false) calls = AllAllowed o v calls
