-- ===== src/Commitexec/Execute.antt =====
-- internal/commitexec/executor.go: `Execute`.
use commiter_cli.Base.{
  Bool, true, false, not, ◌||◌, List, [], ◌∷◌, ◌++◌, map, Option, none, some, if◌then◌else◌, is_nil,
  ◌==◌, contains, eqb, length,
}
use commiter_cli.Base.Str.{Str, lit, str_eq}
use commiter_cli.Base.Sets.{add_all}
use commiter_cli.Output.{escape}
use commiter_cli.Planning.Types.{Commit, Plan, subject, assigned_ids}
use commiter_cli.Gitstate.Types.{Change, ChangeIdentity}
use commiter_cli.Commitexec.Host.{Host}
use commiter_cli.Commitexec.Paths.{unique, change_paths}
use commiter_cli.Commitexec.Checks.{find_change, verify_hashes, validate_created}
use commiter_cli.Commitexec.Index.{stage_assignment, restore_outside}
use commiter_cli.Commitexec.Run.{
  Run, M, Outcome, ok, fail, Failure, classified, plain, CommitError, an_error, exit_safety,
  exit_interrupted, ◌>>=◌, ◌>>◌, safety, require,
}

pub record Options : Type 0 where
  pub root : Str
  pub changes : List Change
  pub plan : Plan
  pub known_unapproved : List ChangeIdentity

-- The loop over the IDs of one commit, with the `current` map as the changes that it holds: the
-- assigned IDs and the paths to stage, or `none` for an unknown or a repeated ID.
unfoldable pub take_ids :
    List Change → List Change → List Str → List Str → List Str → Option (List Str × List Str)
take_ids changes current assigned paths [] = some (assigned, paths)
take_ids changes current assigned paths (id ∷ ids) = elim (find_change changes id) [
  | none ↦ none
  | some c ↦
      let rest = take_ids changes (c ∷ current) (id ∷ assigned) (paths ++ change_paths c) ids in
      if contains assigned id || contains (map (λ x. x.id) current) id then none else rest
]

abbrev pub with_output : (Str → Str) → Str → CommitError → Failure
with_output quote out e = classified (record e { hook_output = escape quote out })

unfoldable pub mark_restored : Failure → Failure
mark_restored (classified e) = classified (record e { restored = true })
mark_restored plain = plain

module _ {H : Host} where
  -- `interruption`
  unfoldable pub interruption : M H Unit
  interruption r =
      if H.interrupted r.world
      then (r, fail (classified (an_error exit_interrupted (lit "commit execution interrupted"))))
      else (r, ok tt)

  unfoldable pub assign : List Change → Commit → M H (List Str)
  unfolding take_ids
  assign changes commit r = elim (take_ids changes [] r.assigned [] commit.file_ids) [
    | none ↦ safety (lit "commit plan has an invalid or repeated file assignment") r
    | some (assigned, paths) ↦ (record r { assigned = assigned }, ok paths)
  ]

  -- A step on the world that reports an error of the class `safety`, or a plain one.
  unfoldable pub checked : (H.World → H.World × Option Str) → M H Unit
  checked step r =
      let (w, e) = step r.world in
      elim e [
        | none ↦ (record r { world = w }, ok tt)
        | some message ↦ safety message (record r { world = w })
      ]

  unfoldable pub plainly : (H.World → H.World × Bool) → M H Unit
  plainly step r =
      let (w, done) = step r.world in (record r { world = w }, if done then ok tt else fail plain)

  unfoldable pub head : M H Str
  head r = elim (H.read_head r.world) [ none ↦ (r, fail plain) | some h ↦ (r, ok h) ]

  -- The state after a commit is known to exist: its hash, and its paths, are recorded.
  abbrev pub record_commit : H.World → Str → List Str → Run H → Run H
  record_commit w hash paths r = record r {
    world = w;
    hashes = r.hashes ++ (hash ∷ []);
    created = true;
    committed = r.committed ++ paths;
  }

  -- How `Execute` reports a `git commit` that failed.
  unfoldable pub commit_failed : Str → Str → Run H → Run H × Outcome Unit
  commit_failed created out r =
      if H.interrupted r.world
      then (
        r,
        fail (
            with_output H.quote out
              (record (an_error exit_interrupted (lit "commit execution interrupted")) {
                commit_hash = created;
              })),
      )
      else (
        r,
        fail (
            with_output H.quote out
              (record (an_error exit_safety (lit "git commit failed")) { commit_hash = created })),
      )

  -- The error branch of `cmd.Run()`: a hook may have failed after the commit was made.
  unfoldable pub failed_commit : Str → List Str → Str → H.World → M H Unit
  failed_commit parent paths out w r = elim (H.read_head w) [
    | none ↦ commit_failed [] out (record r { world = w })
    | some hash ↦
        if hash == parent
        then commit_failed [] out (record r { world = w })
        else elim (validate_created H w parent hash paths) [
          | some failure ↦ (record_commit w hash paths r, fail (with_output H.quote out failure))
          | none ↦ commit_failed hash out (record_commit w hash paths r)
        ]
  ]

  -- What follows a `git commit` that succeeded.
  unfoldable pub made_commit : Str → Str → List Str → Str → H.World → M H Unit
  made_commit original parent paths out w r = elim (H.read_head w) [
    | none ↦
        safety (lit "commit was created but its hash could not be determined")
          (record r { world = w; created = true; committed = r.committed ++ paths })
    | some hash ↦
        let r' = record_commit w hash paths r in
        elim (validate_created H w parent hash paths) [
          | some failure ↦ (r', fail (with_output H.quote out failure))
          | none ↦
              (plainly (restore_outside H original (unique r'.committed)) >> λ r''.
              if is_nil out || H.write_output (escape H.quote out) then (r'', ok tt) else (
                r'',
                fail (
                    classified
                      (record (an_error exit_safety
                        (lit "commit was created but hook output could not be written")) {
                          commit_hash = hash;
                        })),
              ))
                r'
        ]
  ]

  unfoldable pub create_commit : Str → Str → List Str → Commit → M H Unit
  unfolding commit_failed failed_commit made_commit
  create_commit original parent paths commit r =
      let (w, succeeded, out) = H.commit r.world (subject commit) in
      if succeeded
      then made_commit original parent paths out w r
      else failed_commit parent paths out w r

  -- What follows the assignment in a round: the changes are checked, staged and committed.
  unfoldable pub commit_paths : Options → Str → List Str → Commit → List Str → M H Unit
  commit_paths o original remaining commit paths = do
    checked (verify_hashes H o.changes o.known_unapproved remaining)
    plainly (stage_assignment H original paths)
    parent ← head
    create_commit original parent paths commit

  -- One round of the loop over the commits; `remaining` are the IDs of this commit and the later ones.
  unfoldable pub execute_commit : Options → Str → List Str → Commit → M H Unit
  execute_commit o original remaining commit = do
    interruption
    require (not (is_nil commit.file_ids)) (lit "commit plan contains an empty file assignment")
    paths ← assign o.changes commit
    commit_paths o original remaining commit paths

  unfoldable pub execute_commits : Options → Str → List Commit → M H Unit
  execute_commits o original [] r = (r, ok tt)
  execute_commits o original (c ∷ cs) r =
      (execute_commit o original (assigned_ids (c ∷ cs)) c >>= λ _. execute_commits o original cs) r

  -- The test after the loop.
  unfoldable pub all_assigned : List Str → M H Unit
  all_assigned all_ids r =
      require (eqb (length r.assigned) (length all_ids))
        (lit "commit plan does not assign every change") r

  -- The body of `Execute` over what the loop on the changes found: their IDs, or a bad one.
  unfoldable pub execute_ids : Options → Str → Option (List Str) → M H Unit
  execute_ids o original none =
      interruption >> safety (lit "commit plan contains invalid or duplicate file IDs")
  execute_ids o original (some all_ids) =
      interruption >> (execute_commits o original o.plan.commits >> all_assigned all_ids)

  -- `Execute` between saving the index and the deferred function.
  unfoldable pub execute_body : Options → Str → M H Unit
  execute_body o original = execute_ids o original (add_all is_nil (map (λ c. c.id) o.changes) [])

  -- The deferred function: on an error the index is restored, the whole of it if no commit was made.
  unfoldable pub finish : Str → Run H × Outcome Unit → Run H × Option Failure
  unfolding mark_restored
  finish original (r, ok _) = (r, none)
  finish original (r, fail f) =
      let (w, restored) =
        if r.created
        then restore_outside H original r.committed r.world
        else H.write_index r.world original in
      (
        record r { world = w },
        some (
            if restored
            then mark_restored f
            else classified
                (an_error exit_safety (lit "commit failed and index restoration is unknown"))),
      )

module _ (H : Host) where
  abbrev pub start : H.World → Run H
  start w = record { world = w; hashes = []; created = false; committed = []; assigned = [] }

  unfoldable pub execute : Options → H.World → Run H × Option Failure
  execute o w =
      if is_nil o.root || is_nil o.changes || is_nil o.plan.commits
      then (
        start w,
        some (
            classified (
              an_error exit_safety
                (lit "commit execution requires a non-empty repository, changes, and plan"))),
      )
      else if not (H.absolute o.root)
      then (start w, some plain)
      else elim (H.read_index w) [
        | none ↦ (start w, some plain)
        | some original ↦ finish original (execute_body o original (start w))
      ]
