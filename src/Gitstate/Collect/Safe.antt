-- ===== src/Gitstate/Collect/Safe.antt =====
-- internal/gitstate/collect.go: only harmless and approved changes are built, so read.
use commiter_cli.Base.{
  All, Bool, true, false, not, ◌||◌, ◌⊎◌, inl, inr, List, [], ◌∷◌, Option, none, some, ◌≡◌, refl,
  if◌then◌else◌, contains, Bool-cases,
}
use commiter_cli.Base.Str.{Str, str_lt}
use commiter_cli.Gitstate.Errors.{Result, ok, ◌>>=◌, ok-injective, >>=-ok}
use mathlib.Core.Path.{subst}
use commiter_cli.Gitstate.Types.{ChangeIdentity, identity_eq, Excluded}
use commiter_cli.Gitstate.Status.{RawChange}
use commiter_cli.Gitstate.Sensitive.{
  Glob, Sensitivity, not_sensitive, sensitive_candidate, automatically_excluded,
  classify_change_paths,
}
use commiter_cli.Gitstate.Snapshot.{selected_by_globs}
use commiter_cli.Gitstate.Collect.{
  Selected, Candidate, Patterns, Marked, classified, select_changes, raw_identity, approve_changes,
  insert_marked, sort_marked, sort_key,
}

module _ (P : Marked → Type 0) where
  All-insert_marked : (m : Marked) (ms : List Marked) → P m → All P ms → All P (insert_marked m ms)
  unfolding insert_marked
  All-insert_marked m [] p a = (p, tt)
  All-insert_marked m (n ∷ ns) p (q, a) =
      go _ (str_lt (sort_key n.0) (sort_key m.0)) (All-insert_marked m ns p a)
    where
      go :
          (rest : List Marked) (b : Bool)
          → All P rest
          → All P (if b then n ∷ rest else m ∷ (n ∷ ns))
      go rest true r = (q, r)
      go rest false r = (p, (q, a))

  All-sort_marked : (ms : List Marked) → All P ms → All P (sort_marked ms)
  unfolding sort_marked
  All-sort_marked [] a = tt
  All-sort_marked (m ∷ ms) (p, a) = All-insert_marked m (sort_marked ms) p (All-sort_marked ms a)

module _ (glob : Glob) (patterns : Patterns) where
  level_of : RawChange → Result (Sensitivity × Str)
  level_of c = classify_change_paths glob patterns.additional_sensitive c.old_path c.new_path

  -- The class that a selected change was found to have.
  class_of : Option Candidate → Sensitivity
  class_of none = not_sensitive
  class_of (some _) = sensitive_candidate

  Classified : Selected → Type 0
  Classified s = (reason : Str) × (level_of s.change ≡ ok (class_of s.candidate, reason))

  classified-All :
      (c : RawChange) (level : Sensitivity × Str) (found : List Selected × List Excluded)
      → level_of c ≡ ok level
      → All Classified found.0
      → All Classified (classified c level found).0
  unfolding classified Classified class_of
  classified-All c (not_sensitive, reason) found e a = ((reason, e), a)
  classified-All c (sensitive_candidate, reason) found e a = ((reason, e), a)
  classified-All c (automatically_excluded, reason) found e a = a

  -- What a change that is included adds to the selected ones.
  included-All :
      (c : RawChange) (rest : Result (List Selected × List Excluded))
      (found : List Selected × List Excluded)
      → ((f : List Selected × List Excluded) → rest ≡ ok f → All Classified f.0)
      → (level_of c >>= λ level. rest >>= λ f. ok (classified c level f)) ≡ ok found
      → All Classified found.0
  included-All c rest found ih h =
      let (level, e, h1) = >>=-ok (level_of c) _ found h in
      let (f, e', h2) = >>=-ok rest _ found h1 in
      subst (λ (f : List Selected × List Excluded). All Classified f.0) (ok-injective _ _ h2)
        (classified-All c level f e (ih f e'))

  select_changes-All :
      (cs : List RawChange) (found : List Selected × List Excluded)
      → select_changes glob patterns cs ≡ ok found
      → All Classified found.0
  unfolding select_changes level_of
  select_changes-All [] found h =
      subst (λ (f : List Selected × List Excluded). All Classified f.0) (ok-injective _ _ h) (tt)
  select_changes-All (c ∷ cs) found h =
      let (included, e, h1) =
        >>=-ok (selected_by_globs glob c patterns.include patterns.exclude) _ found h in
      go included (select_changes-All cs) h1
    where
      go :
          (included : Bool)
          → ((f : List Selected × List Excluded)
              → select_changes glob patterns cs ≡ ok f
              → All Classified f.0)
          → (if not included
              then select_changes glob patterns cs
              else (level_of c >>= λ level.
                  select_changes glob patterns cs >>= λ f. ok (classified c level f)))
            ≡ ok found
          → All Classified found.0
      go false ih h1 = ih found h1
      go true ih h1 = included-All c (select_changes glob patterns cs) found ih h1

  module _ (preapproved : List ChangeIdentity) (approved : Bool) where
    -- A change that is built: harmless, or a candidate that was approved before or now.
    pub Cleared : Marked → Type 0
    Cleared (c, flag) =
        (reason : Str) × (((flag ≡ false) × (level_of c ≡ ok (not_sensitive, reason)))
          ⊎ ((flag ≡ true)
              × (level_of c ≡ ok (sensitive_candidate, reason))
              × ((contains preapproved (raw_identity c) || approved) ≡ true)))

    approve_changes-All :
        (ss : List Selected)
        → All Classified ss
        → All Cleared (approve_changes preapproved approved ss).0
    unfolding Classified class_of approve_changes Cleared
    approve_changes-All [] a = tt
    approve_changes-All (s ∷ ss) (k, a) = go s.candidate k (approve_changes-All ss a)
      where
        go :
            (candidate : Option Candidate)
            → ((reason : Str) × (level_of s.change ≡ ok (class_of candidate, reason)))
            → All Cleared (approve_changes preapproved approved ss).0
            → All Cleared
                (approve_changes preapproved approved (record s { candidate = candidate } ∷ ss)).0
        go none (reason, e) a = ((reason, inl (refl, e)), a)
        go (some c) (reason, e) a =
            elim (Bool-cases (contains preapproved (raw_identity s.change) || approved)) [
              | inl h ↦ rw h ((reason, inr (refl, e, h)), a)
              | inr h ↦ rw h a
            ]

    -- When the selection succeeds, every change that is handed on to be built, and so read, has paths
    -- that are classified as harmless, or as a candidate that an earlier approval or the present
    -- answer covers, and it is marked as sensitive exactly in the second case.
    pub approve_changes-Cleared :
        (raw : List RawChange) (chosen : List Selected) (excluded : List Excluded)
        → select_changes glob patterns raw ≡ ok (chosen, excluded)
        → All Cleared (sort_marked (approve_changes preapproved approved chosen).0)
    approve_changes-Cleared raw chosen excluded h =
        All-sort_marked Cleared _
          (approve_changes-All chosen (select_changes-All raw (chosen, excluded) h))
