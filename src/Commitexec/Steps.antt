-- ===== src/Commitexec/Steps.antt =====
-- What one successful step of `Execute` leaves as it was.
use commiter_cli.Base.{
  ◌≡◌, refl, Bool, true, List, [], ◌∷◌, ◌++◌, Option, none, some, arith, inl, inr, Option-cases,
  Bool-cases,
}
use commiter_cli.Base.Str.{Str}
use commiter_cli.Gitstate.Types.{Change}
use commiter_cli.Planning.Types.{Commit, subject}
use commiter_cli.Commitexec.Host.{Host}
use commiter_cli.Commitexec.Run.{Run, M, Outcome, ok, fail, continue, ◌>>=◌, require, safety}
use commiter_cli.Commitexec.Checks.{validate_created}
use commiter_cli.Commitexec.Execute.{
  interruption, take_ids, assign, checked, plainly, head, create_commit, commit_failed,
  failed_commit, made_commit,
}

module _ {H : Host} {A B : Type 0} where
  -- A chain that succeeded: its first step did, and the rest did from there.
  pub >>=-ok :
      (m : M H A) (f : A → M H B) (r : Run H) {r' : Run H} {b : B}
      → (m >>= f) r ≡ (r', ok b)
      → (r1 : Run H) × (a : A) × (m r ≡ (r1, ok a)) × (f a r1 ≡ (r', ok b))
  unfolding ◌>>=◌
  >>=-ok m f r {r' = r'} {b = b} h = go (m r) refl h
    where
      go :
          (p : Run H × Outcome A)
          → m r ≡ p
          → continue p.1 f p.0 ≡ (r', ok b)
          → (r1 : Run H) × (a : A) × (m r ≡ (r1, ok a)) × (f a r1 ≡ (r', ok b))
      go (r1, ok a) e h = (r1, a, e, h)
      go (r1, fail x) e h = cc

module _ {H : Host} (r : Run H) where
  pub interruption-ok : {r' : Run H} {u : Unit {0}} → interruption r ≡ (r', ok u) → r' ≡ r
  unfolding interruption
  interruption-ok h = ground arith

  pub require-ok :
      (b : Bool) (m : Str) {r' : Run H} {u : Unit {0}}
      → require b m r ≡ (r', ok u)
      → (r' ≡ r) × (b ≡ true)
  unfolding require safety
  require-ok b m h = ground arith

  pub assign-ok :
      (changes : List Change) (c : Commit) {r' : Run H} {paths : List Str}
      → assign changes c r ≡ (r', ok paths)
      → (take_ids changes [] r.assigned [] c.file_ids ≡ some (r'.assigned, paths))
        × (r'.hashes ≡ r.hashes)
  unfolding assign safety
  assign-ok changes c h = ground arith

  pub checked-ok :
      (step : H.World → H.World × Option Str) {r' : Run H} {u : Unit {0}}
      → checked step r ≡ (r', ok u)
      → (r'.assigned ≡ r.assigned) × (r'.hashes ≡ r.hashes)
  unfolding checked safety
  checked-ok step h = ground arith

  pub plainly-ok :
      (step : H.World → H.World × Bool) {r' : Run H} {u : Unit {0}}
      → plainly step r ≡ (r', ok u)
      → (r'.assigned ≡ r.assigned) × (r'.hashes ≡ r.hashes)
  unfolding plainly
  plainly-ok step h = ground arith

  pub head-ok :
      {r' : Run H} {p : Str} → head r ≡ (r', ok p) → (r' ≡ r) × (H.read_head r.world ≡ some p)
  unfolding head
  head-ok h = elim (Option-cases (H.read_head r.world)) [
    | inl e ↦ absurd (ground arith)
    | inr (p, e) ↦ (ground arith, ground arith)
  ]

  commit_failed-ne-ok :
      (created out : Str) {r' : Run H} {u : Unit {0}} → ¬ (commit_failed created out r ≡ (r', ok u))
  unfolding commit_failed
  commit_failed-ne-ok created out h = ground arith

module _ {H : Host} (r : Run H) (parent : Str) (paths : List Str) (out : Str) (w : H.World) where
  failed_commit-ne-ok :
      {r' : Run H} {u : Unit {0}} → ¬ (failed_commit parent paths out w r ≡ (r', ok u))
  unfolding failed_commit commit_failed
  failed_commit-ne-ok h = ground arith

  abbrev pub Made : Run H → Type 0
  Made r' =
      (r'.assigned ≡ r.assigned)
      × (hash : Str) × (r'.hashes ≡ r.hashes ++ (hash ∷ []))
      × (H.read_head w ≡ some hash)
      × (validate_created H w parent hash paths ≡ none)

  made_commit-ok :
      (original : Str) {r' : Run H} {u : Unit {0}}
      → made_commit original parent paths out w r ≡ (r', ok u)
      → Made r'
  unfolding made_commit safety ◌>>=◌ plainly
  made_commit-ok original h = elim (Option-cases (H.read_head w)) [
    | inl e ↦ absurd (ground arith)
    | inr (hash, e) ↦ elim (Option-cases (validate_created H w parent hash paths)) [
      | inl v ↦ (ground arith, hash, ground arith, e, v)
      | inr (x, v) ↦ absurd (ground arith)
    ]
  ]

module _ {H : Host} where
  pub create_commit-ok :
      (r : Run H) (original parent : Str) (paths : List Str) (c : Commit) {r' : Run H}
      {u : Unit {0}}
      → create_commit original parent paths c r ≡ (r', ok u)
      → ((H.commit r.world (subject c)).1 ≡ true)
        × Made r parent paths (H.commit r.world (subject c)).2 (H.commit r.world (subject c)).0 r'
  unfolding create_commit
  create_commit-ok r original parent paths c h =
      elim (Bool-cases (H.commit r.world (subject c)).1) [
        | inl e ↦ (e, made_commit-ok r parent paths _ _ original (rw e at h))
        | inr e ↦ absurd (failed_commit-ne-ok r parent paths _ _ (rw e at h))
      ]
