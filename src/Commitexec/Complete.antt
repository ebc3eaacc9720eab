-- ===== src/Commitexec/Complete.antt =====
-- A run of `Execute` without an error has committed every change, each in one commit of the plan.
use mathlib.Core.List
use mathlib.Core.List.{
  Mem, Mem-prop, Nodup, Nodup-nil, Perm, mem-append, not-mem-nil, append-nil, append_assoc,
  reverse_perm,
}
use mathlib.Core.List.Perm
use mathlib.Core.Logic.Or
use mathlib.Core.Path.{subst}
use mathlib.Core.Bool.{false≢true}
use commiter_cli.Base.{
  ◌≡◌, refl, sym, ◌∙◌, ap, List, [], ◌∷◌, ◌++◌, Option, none, some, arith, inl, inr, Option-cases,
  contains, length, is_nil, eqb→eq,
}
use commiter_cli.Base.Str.{Str, str_eq, lit}
use commiter_cli.Base.Sets.{add_all, add_all-some, perm_of_subset, perm-length}
use commiter_cli.Planning.Types.{Commit, subject, assigned_ids}
use commiter_cli.Planning.Assignment.{IsPartition}
use commiter_cli.Gitstate.Types.{Change}
use commiter_cli.Commitexec.Host.{Host}
use commiter_cli.Commitexec.FileSet.{validate_created-none}
use commiter_cli.Commitexec.Run.{Run, Outcome, ok, fail, ◌>>◌, safety}
use commiter_cli.Commitexec.Execute.{
  Options, interruption, execute_commit, execute_commits, execute_ids, all_assigned, execute_body,
  finish, start, execute,
}
use commiter_cli.Commitexec.Steps.{>>=-ok, interruption-ok, require-ok}
use commiter_cli.Commitexec.Assigned.{change_ids, take_ids-some, AllRecorded, execute_commit-ok}

-- What the rounds for `cs` do between two states.
abbrev Done : (H : Host) → List Change → List Commit → Run H → Run H → Type 0
Done H changes cs r r' =
    (r'.assigned ≡ List.reverse_aux (assigned_ids cs) r.assigned)
    × (Nodup r.assigned → Nodup r'.assigned)
    × ((id : Str) → Mem id (assigned_ids cs) → Mem id (change_ids changes))
    × (hs : List Str) × (r'.hashes ≡ r.hashes ++ hs)
    × AllRecorded changes H cs hs

module _ {H : Host} (o : Options) (original : Str) where
  round-Done :
      (remaining : List Str) (c : Commit) (cs : List Commit) (r r1 r' : Run H)
      → execute_commit o original remaining c r ≡ (r1, ok tt)
      → Done H o.changes cs r1 r'
      → Done H o.changes (c ∷ cs) r r'
  round-Done remaining c cs r r1 r' h (shape, nodup, known, hs, hashes, recorded) =
      let (paths, taken, hash, one, made) = execute_commit-ok o original c remaining r h in
      let (shape1, paths1, nodup1, known1) =
        take_ids-some o.changes [] r.assigned [] c.file_ids taken in
      let (of_parent, listing, listed, exact) =
        validate_created-none H (H.commit made.before (subject c)).0 made.parent hash paths
          made.valid in
      (
        shape
            ∙ ap (List.reverse_aux (assigned_ids cs)) shape1
            ∙ sym (List.reverse_aux-append c.file_ids (assigned_ids cs) r.assigned),
        λ n. nodup (nodup1 n),
        λ id m. Or.elim Mem-prop (mem-append.0 m) (λ a. known1 id a) (λ b. known id b),
        hash ∷ hs,
        hashes ∙ ap (λ x. x ++ hs) one ∙ append_assoc r.hashes (hash ∷ []) hs,
        (
          record {
            before = made.before;
            parent = made.parent;
            listing = listing;
            head_read = made.head_read;
            succeeded = made.succeeded;
            head_left = made.head_left;
            of_parent = of_parent;
            listed = listed;
            exact = λ p. exact p ∙ ap (λ ps. contains ps p) paths1;
          },
          recorded,
        ),
      )

  execute_commits-Done :
      (cs : List Commit) (r : Run H) {r' : Run H} {u : Unit {0}}
      → execute_commits o original cs r ≡ (r', ok u)
      → Done H o.changes cs r r'
  unfolding execute_commits
  execute_commits-Done [] r {r' = r'} h =
      let e : r ≡ r' = ap (λ x. x.0) h in
      subst (λ x. Done H o.changes [] r x) e
        (refl, λ n. n, λ id m. absurd (not-mem-nil m), [], sym (append-nil r.hashes), tt)
  execute_commits-Done (c ∷ cs) r {r' = r'} h =
      let (r1, _, e1, h1) =
        >>=-ok (execute_commit o original (assigned_ids (c ∷ cs)) c)
          (λ _. execute_commits o original cs) r h in
      round-Done (assigned_ids (c ∷ cs)) c cs r r1 r' e1 (execute_commits-Done cs r1 h1)

  all_assigned-ok :
      (all_ids : List Str) (r : Run H) {r' : Run H} {u : Unit {0}}
      → all_assigned all_ids r ≡ (r', ok u)
      → (r' ≡ r) × (length r.assigned ≡ length all_ids)
  unfolding all_assigned
  all_assigned-ok all_ids r h = let (same, size) = require-ok r _ _ h in (same, eqb→eq _ _ size)

  execute_ids-ok :
      (ids : Option (List Str)) (r : Run H) {r' : Run H} {u : Unit {0}}
      → execute_ids o original ids r ≡ (r', ok u)
      → (all_ids : List Str) × (ids ≡ some all_ids)
        × Done H o.changes o.plan.commits r r'
        × (length r'.assigned ≡ length all_ids)
  unfolding execute_ids
  execute_ids-ok none r h =
      let (r1, _, e1, h1) =
        >>=-ok interruption (λ _. safety (lit "commit plan contains invalid or duplicate file IDs"))
          r h in
      absurd (unfold safety in ground arith)
  execute_ids-ok (some all_ids) r {r' = r'} h =
      let (r1, _, e1, h1) =
        >>=-ok interruption (λ _. execute_commits o original o.plan.commits >> all_assigned all_ids)
          r h in
      let (r2, _, e2, h2) =
        >>=-ok (execute_commits o original o.plan.commits) (λ _. all_assigned all_ids) r1 h1 in
      let (same, size) = all_assigned-ok all_ids r2 h2 in
      (
        all_ids,
        refl,
        subst (λ x. Done H o.changes o.plan.commits x r') (interruption-ok r e1)
            (subst (λ x. Done H o.changes o.plan.commits r1 x) (sym same)
              (execute_commits-Done o.plan.commits r1 e2)),
        ap (λ (x : Run H). length x.assigned) same ∙ size,
      )

  -- From the start, the assigned IDs are a permutation of the changes' IDs.
  execute_body-ok :
      (w : H.World) {r' : Run H} {u : Unit {0}}
      → execute_body o original (start H w) ≡ (r', ok u)
      → IsPartition o.plan (change_ids o.changes) × AllRecorded o.changes H o.plan.commits r'.hashes
  execute_body-ok w {r' = r'} h =
      let (all_ids, e, done, size) =
        execute_ids-ok (add_all is_nil (change_ids o.changes) []) (start H w) {r' = r'}
          (unfold execute_body in h) in
      let (shape, nodup, nonempty) = add_all-some is_nil (change_ids o.changes) [] e Nodup-nil in
      let ids : Perm all_ids (change_ids o.changes) =
        rw shape (reverse_perm (change_ids o.changes)) in
      let flat = assigned_ids o.plan.commits in
      let taken : Perm r'.assigned flat = rw done.0 (reverse_perm flat) in
      (
        record {
          distinct = Perm.nodup ids nodup;
          nonempty = λ m. false≢true (sym (nonempty [] m));
          covers =
              perm_of_subset flat (change_ids o.changes) (Perm.nodup taken (done.1 Nodup-nil))
                done.2 (omega (arith, perm-length ids, perm-length taken));
        },
        subst (λ hs. AllRecorded o.changes H o.plan.commits hs) (sym done.4) done.5,
      )

module _ (H : Host) where
  finish-none :
      (original : Str) (p : Run H × Outcome Unit)
      → (finish original p).1 ≡ none
      → p ≡ ((finish original p).0, ok tt)
  unfolding finish
  finish-none original (r, ok u) h = refl
  finish-none original (r, fail f) h = cc

  execute-none :
      (o : Options) (w : H.World)
      → (execute H o w).1 ≡ none
      → (original : Str) × (execute_body o original (start H w) ≡ ((execute H o w).0, ok tt))
  execute-none o w h = elim (Option-cases (H.read_index w)) [
    | inl e ↦ absurd (unfold execute in ground arith)
    | inr (original, e) ↦
        let same : execute H o w ≡ finish original (execute_body o original (start H w)) =
          unfold execute in ground arith in
        let done =
          finish-none original (execute_body o original (start H w))
            (ap (λ x. x.1) (sym same) ∙ h) in
        (original, done ∙ ap (λ x. (x.0, ok tt)) (sym same))
  ]

  -- If `Execute` returns no error, then the changes have distinct IDs, none empty, and the commits of
  -- the plan name each of them exactly once. There is one hash for each commit, in plan order: a
  -- `git commit` with the subject of that commit succeeded, the hash is the HEAD that it left, the
  -- parent of the hash is the HEAD that was read right before it, and the file set of the hash, as
  -- Git lists it, is exactly the set of the paths of the commit's changes.
  pub execute_complete :
      (o : Options) (w : H.World)
      → (execute H o w).1 ≡ none
      → IsPartition o.plan (change_ids o.changes)
        × AllRecorded o.changes H o.plan.commits (execute H o w).0.hashes
  execute_complete o w h = let (original, e) = execute-none o w h in execute_body-ok o original w e
