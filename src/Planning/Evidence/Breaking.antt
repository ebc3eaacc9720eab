-- ===== src/Planning/Evidence/Breaking.antt =====
-- internal/planning/three_phase.go: a commit that confirmed evidence applies to is breaking.
use mathlib.Core.List.{Mem}
use mathlib.Core.Path.{subst}
use mathlib.Core.Option.{some-injective}
use commiter_cli.Base.{
  ◌≡◌, refl, ℕ, true, false, not, List, [], ◌∷◌, ◌++◌, none, some, ◌==◌, contains, All, arith, inl,
  inr, Option-cases,
}
use commiter_cli.Base.Dict.{lookup}
use commiter_cli.Base.Str.{Str, lit, str_eq}
use commiter_cli.Planning.Evidence.{
  BreakingEvidence, GroupingFile, Category, CommitText, host_evidence_error, git_evidence, applies,
  allowed_references, check_each, check_categories, category_of, composed_commit, compose_each,
  compose,
}
use commiter_cli.Planning.Grouping.{CandidateGroup, InputFile}
use commiter_cli.Planning.Types.{Commit}
use commiter_cli.Planning.Evidence.References.{
  IsNamed, All-append, host_evidence_error-IsNamed, git_evidence-IsNamed, allowed_references-named,
}

-- What a composed commit rests on: the reference that was chosen for its files.
pub record HasReference (host all : List BreakingEvidence) (c : Commit) : Type 0 where
  pub reference : Str
  pub is_allowed : contains (allowed_references host all c.file_ids) reference ≡ true
  pub is_resolved : (reference == lit "unresolved") ≡ false
  pub marked : c.breaking ≡ not (reference == lit "none")

module _ (host all : List BreakingEvidence) (categories : List (Str × Category))
    (texts : List (Str × CommitText)) where
  check_each-cons :
      (g : CandidateGroup) (gs : List CandidateGroup)
      → check_each host all categories (g ∷ gs) ≡ none
      → (contains (allowed_references host all g.file_ids) (category_of categories g.id).reference
          ≡ true)
        × (((category_of categories g.id).reference == lit "unresolved") ≡ false)
        × (check_each host all categories gs ≡ none)
  unfolding check_each category_of
  check_each-cons g gs h = elim (Option-cases (lookup categories g.id)) [
    | inl e ↦ absurd (ground arith)
    | inr (c, e) ↦ ground arith
  ]

  compose_each-cons :
      (g : CandidateGroup) (gs : List CandidateGroup) (cs : List Commit)
      → compose_each categories texts (g ∷ gs) ≡ some cs
      → (c : Commit) × (later : List Commit) × (cs ≡ c ∷ later)
        × (compose_each categories texts gs ≡ some later)
        × (c.file_ids ≡ g.file_ids)
        × (c.breaking ≡ not ((category_of categories g.id).reference == lit "none"))
  unfolding compose_each composed_commit
  compose_each-cons g gs cs h = elim (Option-cases (lookup texts g.id)) [
    | inl e ↦ absurd (ground arith)
    | inr (t, e) ↦ elim (Option-cases (compose_each categories texts gs)) [
      | inl f ↦ absurd (ground arith)
      | inr (later, f) ↦
          let c = composed_commit (category_of categories g.id) t g in
          (c, later, some-injective cs (c ∷ later) (ground arith), f, refl, refl)
    ]
  ]

  compose_each-HasReference :
      (gs : List CandidateGroup) (cs : List Commit)
      → check_each host all categories gs ≡ none
      → compose_each categories texts gs ≡ some cs
      → All (HasReference host all) cs
  compose_each-HasReference [] cs h k =
      subst (All (HasReference host all)) (some-injective [] cs (unfold compose_each in k)) tt
  compose_each-HasReference (g ∷ gs) cs h k =
      let (listed, clear, checks) = check_each-cons g gs h in
      let (c, later, shape, rest, files, mark) = compose_each-cons g gs cs k in
      rw shape (
        (
          record {
            reference = (category_of categories g.id).reference;
            is_allowed = rw files listed;
            is_resolved = clear;
            marked = mark;
          },
          compose_each-HasReference gs later checks rest,
        ))

All-weaken :
    {A : Type 0} (P Q : A → Type 0) (xs : List A) → ((a : A) → P a → Q a) → All P xs → All Q xs
All-weaken P Q [] f h = tt
All-weaken P Q (x ∷ xs) f h = (f x h.0, All-weaken P Q xs f h.1)

-- The commit is breaking if it shares a file with the evidence.
abbrev pub Announces : BreakingEvidence → Commit → Type 0
Announces e c = applies c.file_ids e.file_ids ≡ true → c.breaking ≡ true

pub composed-Announces :
    (decimal : ℕ → Str) (ids : List Str) (host : List BreakingEvidence)
    (files ls : List (Str × InputFile)) (projection : List GroupingFile)
    (categories : List (Str × Category)) (texts : List (Str × CommitText))
    (groups : List CandidateGroup) (cs : List Commit)
    → host_evidence_error ids host ≡ none
    → check_categories host (host ++ git_evidence decimal files ls projection) categories groups
      ≡ none
    → compose categories texts groups ≡ some cs
    → (e : BreakingEvidence) → Mem e host
    → All (Announces e) cs
unfolding host_evidence_error check_categories compose
composed-Announces decimal ids host files ls projection categories texts groups cs h k made e m =
    let git = git_evidence decimal files ls projection in
    let named =
      All-append IsNamed host git (host_evidence_error-IsNamed ids host h)
        (git_evidence-IsNamed decimal files ls projection) in
    All-weaken (HasReference host (host ++ git)) (Announces e) cs
      (λ c r a.
        rw
          (
            r.marked,
            allowed_references-named host git c.file_ids r.reference e named r.is_allowed m a,
          )
          refl)
      (compose_each-HasReference host (host ++ git) categories texts groups cs (ground arith)
        (ground arith))
