-- ===== src/Commitexec/Assigned.antt =====
-- What a run of `Execute` without an error has done.
use mathlib.Core.List
use mathlib.Core.Path.{subst}
use mathlib.Core.Option.{some-injective}
use mathlib.Core.List.{
  Mem, Nodup, Nodup-nil, Nodup-cons, Perm, mem-cons, mem-cons_self, mem-append, not-mem-nil,
  Mem-prop, append-nil, append_assoc,
}
use mathlib.Core.List.Perm
use mathlib.Core.Logic.Or
use commiter_cli.Base.{
  ◌≡◌, refl, sym, ◌∙◌, ap, not, true, false, List, [], ◌∷◌, ◌++◌, map, none, some, arith, inl, inr,
  Option-cases, Bool-cases, ◌==◌, contains, contains-false→not_mem, is_nil, ==_iff,
}
use commiter_cli.Base.Str.{Str, str_eq, lit}
use commiter_cli.Planning.Types.{Commit, subject}
use commiter_cli.Gitstate.Types.{Change}
use commiter_cli.Commitexec.Host.{Host}
use commiter_cli.Commitexec.Paths.{change_paths, parse_paths}
use commiter_cli.Commitexec.Checks.{find_change, verify_hashes, validate_created}
use commiter_cli.Commitexec.Index.{stage_assignment}
use commiter_cli.Commitexec.Run.{require, Run, ok}
use commiter_cli.Commitexec.Execute.{
  interruption, assign, checked, plainly, head, Options, take_ids, commit_paths, execute_commit,
}
use commiter_cli.Commitexec.Steps.{
  >>=-ok, interruption-ok, require-ok, assign-ok, checked-ok, plainly-ok, head-ok, create_commit-ok,
}

abbrev pub change_ids : List Change → List Str
change_ids = map (λ c. c.id)

-- The paths of the changes with the given IDs.
pub paths_of : List Change → List Str → List Str
paths_of changes [] = []
paths_of changes (id ∷ ids) =
    (elim (find_change changes id) [ none ↦ [] | some c ↦ change_paths c ]) ++ paths_of changes ids

paths_of-nil : (changes : List Change) → paths_of changes [] ≡ []
unfolding paths_of
paths_of-nil changes = refl

paths_of-cons :
    (changes : List Change) (id : Str) (ids : List Str) {c : Change}
    → find_change changes id ≡ some c
    → paths_of changes (id ∷ ids) ≡ change_paths c ++ paths_of changes ids
unfolding paths_of
paths_of-cons changes id ids e = rw e

find_change-Mem :
    (changes : List Change) (id : Str) {c : Change}
    → find_change changes id ≡ some c
    → Mem id (change_ids changes)
unfolding find_change
find_change-Mem [] id h = cc
find_change-Mem (x ∷ xs) id h = elim (Bool-cases (x.id == id)) [
  | inl e ↦ mem-cons.1 (Or.inl (sym ((==_iff x.id id).0 e)))
  | inr e ↦ mem-cons.1 (Or.inr (find_change-Mem xs id (rw e at h)))
]

module _ (changes : List Change) where
  take_ids-cons :
      (current : List Change) (assigned paths : List Str) (id : Str) (ids : List Str)
      {a' p' : List Str}
      → take_ids changes current assigned paths (id ∷ ids) ≡ some (a', p')
      → (c : Change) × (find_change changes id ≡ some c)
        × (contains assigned id ≡ false)
        × (take_ids changes (c ∷ current) (id ∷ assigned) (paths ++ change_paths c) ids
            ≡ some (a', p'))
  unfolding take_ids
  take_ids-cons current assigned paths id ids h = elim (Option-cases (find_change changes id)) [
    | inl e ↦ absurd (ground arith)
    | inr (c, e) ↦ (c, e, ground arith, ground arith)
  ]

  take_ids-nil :
      (current : List Change) (assigned paths : List Str) {a' p' : List Str}
      → take_ids changes current assigned paths [] ≡ some (a', p')
      → ◌≡◌ {A = List Str × List Str} (assigned, paths) (a', p')
  unfolding take_ids
  take_ids-nil current assigned paths h = some-injective _ _ h

  pub take_ids-some :
      (current : List Change) (assigned paths ids : List Str) {a' p' : List Str}
      → take_ids changes current assigned paths ids ≡ some (a', p')
      → (a' ≡ List.reverse_aux ids assigned)
        × (p' ≡ paths ++ paths_of changes ids)
        × (Nodup assigned → Nodup a')
        × ((id : Str) → Mem id ids → Mem id (change_ids changes))
  take_ids-some current assigned paths [] {a' = a'} {p' = p'} h =
      let same : ◌≡◌ {A = List Str × List Str} (assigned, paths) (a', p') =
        take_ids-nil current assigned paths h in
      let shape : a' ≡ assigned = sym (ap (λ x. x.0) same) in
      (
        shape,
        sym (ap (λ x. x.1) same)
            ∙ sym (append-nil paths)
            ∙ ap (λ x. paths ++ x) (sym (paths_of-nil changes)),
        λ n. subst Nodup (sym shape) n,
        λ j m. absurd (not-mem-nil m),
      )
  take_ids-some current assigned paths (id ∷ ids) h =
      let (c, e, fresh, rest) = take_ids-cons current assigned paths id ids h in
      let (shape, taken, nodup, known) =
        take_ids-some (c ∷ current) (id ∷ assigned) (paths ++ change_paths c) ids rest in
      (
        shape,
        taken
            ∙ append_assoc paths (change_paths c) _
            ∙ ap (λ x. paths ++ x) (sym (paths_of-cons changes id ids e)),
        λ n. nodup (Nodup-cons.1 (contains-false→not_mem assigned id fresh, n)),
        λ j m.
            Or.elim (Mem-prop) (mem-cons.0 m) (λ p. rw p (find_change-Mem changes id e))
              (λ later. known j later),
      )

  -- What is recorded for a commit of the plan: between the HEAD that was read and the one that was
  -- left, Git made a commit with its subject. The hash is the HEAD that was left, its parent is the
  -- HEAD that was read, and its listed paths are exactly those of the commit's changes.
  pub record Records (H : Host) (c : Commit) (hash : Str) : Type 0 where
    pub before : H.World
    pub parent : Str
    pub listing : Str
    pub head_read : H.read_head before ≡ some parent
    pub succeeded : (H.commit before (subject c)).1 ≡ true
    pub head_left : H.read_head (H.commit before (subject c)).0 ≡ some hash
    pub of_parent : H.parent_of (H.commit before (subject c)).0 hash ≡ some parent
    pub listed : H.diff_tree (H.commit before (subject c)).0 hash ≡ some listing
    pub exact :
        (p : Str) → contains (parse_paths listing) p ≡ contains (paths_of changes c.file_ids) p

  abbrev pub AllRecorded : Host → List Commit → List Str → Type 0
  AllRecorded H [] [] = Unit
  AllRecorded H (c ∷ cs) (h ∷ hs) = Records H c h × AllRecorded H cs hs
  AllRecorded H _ _ = ⊥

-- A commit that Git made with the subject of `c` between two heads and that passed the check.
pub record Created (H : Host) (c : Commit) (paths : List Str) (hash : Str) : Type 0 where
  pub before : H.World
  pub parent : Str
  pub head_read : H.read_head before ≡ some parent
  pub succeeded : (H.commit before (subject c)).1 ≡ true
  pub head_left : H.read_head (H.commit before (subject c)).0 ≡ some hash
  pub valid : validate_created H (H.commit before (subject c)).0 parent hash paths ≡ none

module _ {H : Host} (o : Options) (original : Str) (c : Commit) where
  commit_paths-ok :
      (remaining paths : List Str) (r : Run H) {r' : Run H} {u : Unit {0}}
      → commit_paths o original remaining c paths r ≡ (r', ok u)
      → (r'.assigned ≡ r.assigned)
        × (hash : Str) × (r'.hashes ≡ r.hashes ++ (hash ∷ []))
        × Created H c paths hash
  unfolding commit_paths
  commit_paths-ok remaining paths r h =
      let (r1, _, e1, h1) =
        >>=-ok (checked (verify_hashes H o.changes o.known_unapproved remaining)) _ r h in
      let (r2, _, e2, h2) = >>=-ok (plainly (stage_assignment H original paths)) _ r1 h1 in
      let (r3, parent, e3, h3) = >>=-ok head _ r2 h2 in
      let (succeeded, made) = create_commit-ok r3 original parent paths c h3 in
      let (assigned1, hashes1) = checked-ok r _ e1 in
      let (assigned2, hashes2) = plainly-ok r1 _ e2 in
      let (back, read) = head-ok r2 e3 in
      (
        made.0 ∙ ap (λ (x : Run H). x.assigned) back ∙ assigned2 ∙ assigned1,
        made.1,
        made.2
            ∙ ap (λ (x : Run H). x.hashes ++ (made.1 ∷ [])) back
            ∙ ap (λ x. x ++ (made.1 ∷ [])) (hashes2 ∙ hashes1),
        record {
          before = r3.world;
          parent = parent;
          head_read = ap (λ (x : Run H). H.read_head x.world) back ∙ read;
          succeeded = succeeded;
          head_left = made.3;
          valid = made.4;
        },
      )

  pub execute_commit-ok :
      (remaining : List Str) (r : Run H) {r' : Run H} {u : Unit {0}}
      → execute_commit o original remaining c r ≡ (r', ok u)
      → (paths : List Str) × (take_ids o.changes [] r.assigned [] c.file_ids
          ≡ some (r'.assigned, paths))
        × (hash : Str) × (r'.hashes ≡ r.hashes ++ (hash ∷ []))
        × Created H c paths hash
  unfolding execute_commit
  execute_commit-ok remaining r {r' = r'} h =
      let (r1, _, e1, h1) = >>=-ok interruption _ r h in
      let (r2, _, e2, h2) =
        >>=-ok
          (require (not (is_nil c.file_ids)) (lit "commit plan contains an empty file assignment"))
          _ r1 h1 in
      let (r3, paths, e3, h3) = >>=-ok (assign o.changes c) _ r2 h2 in
      let rest = commit_paths-ok remaining paths r3 h3 in
      let taken = assign-ok r2 o.changes c e3 in
      let back : r2 ≡ r = (require-ok r1 _ _ e2).0 ∙ interruption-ok r e1 in
      (
        paths,
        ap (λ (x : Run H). take_ids o.changes [] x.assigned [] c.file_ids) (sym back)
            ∙ taken.0
            ∙ ap (λ (a : List Str). some (a, paths)) (sym rest.0),
        rest.1,
        rest.2 ∙ ap (λ x. x ++ (rest.1 ∷ [])) (taken.1 ∙ ap (λ (x : Run H). x.hashes) back),
        rest.3,
      )
