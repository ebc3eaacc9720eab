-- ===== src/Commitexec/Checks.antt =====
-- internal/commitexec/executor.go: `verifyHashes` before staging and `validateCreatedCommit` after a
-- commit.
use commiter_cli.Base.{
  Bool, true, false, not, ◌&&◌, ◌||◌, List, [], ◌∷◌, Option, none, some, if◌then◌else◌, is_nil,
  ◌==◌, contains,
}
use commiter_cli.Base.Str.{Str, lit, str_eq}
use commiter_cli.Gitstate.Types.{
  Change, ChangeIdentity, identity_eq, Excluded, candidate_not_approved,
}
use commiter_cli.Commitexec.Host.{Host}
use commiter_cli.Commitexec.Paths.{
  change_key, all_planned_paths, path_set, same_set, symmetric_difference, parse_paths,
}
use commiter_cli.Commitexec.Run.{CommitError, exit_safety, an_error}

-- The first change with an ID.
unfoldable pub find_change : List Change → Str → Option Change
find_change [] id = none
find_change (c ∷ cs) id = if c.id == id then some c else find_change cs id

-- Whether a current change has the key and the hash of the expected one.
hash_found : List Change → Change → Bool
hash_found [] expected = false
hash_found (c ∷ cs) expected =
    change_key c == change_key expected && c.change_hash == expected.change_hash
    || hash_found cs expected

-- Whether a change is left out for want of an approval that was not known to be missing.
newly_unapproved : List ChangeIdentity → List Excluded → Bool
newly_unapproved known [] = false
newly_unapproved known (e ∷ es) =
    e.reason == candidate_not_approved
      && (elim e.identity [ none ↦ true | some i ↦ not (contains known i) ])
    || newly_unapproved known es

-- The loop over the IDs that are still to be committed.
unfoldable pub hashes_current : List Change → List Change → List Str → Bool
unfolding hash_found
hashes_current changes current [] = true
hashes_current changes current (id ∷ ids) =
    (elim (find_change changes id) [
      | none ↦ false
      | some e ↦ not (is_nil e.id) && hash_found current e
    ])
    && hashes_current changes current ids

module _ (H : Host) where
  -- `verifyHashes`: an error's message, or `none`.
  unfoldable pub verify_hashes :
      List Change → List ChangeIdentity → List Str → H.World → H.World × Option Str
  unfolding newly_unapproved hashes_current
  verify_hashes changes known ids w =
      let (w', c) = H.collect w (all_planned_paths changes) in
      elim c [
        | none ↦ (w', some (lit "cannot revalidate changes before staging"))
        | some (current, excluded) ↦
            if newly_unapproved known excluded || not (hashes_current changes current ids)
            then (w', some (lit "change hash changed before staging"))
            else (w', none)
      ]

  commit_error : Str → Str → List Str → CommitError
  commit_error message hash paths = record (an_error exit_safety message) {
    commit_hash = hash;
    paths = paths;
  }

  -- `validateCreatedCommit`
  unfoldable pub validate_created : H.World → Str → Str → List Str → Option CommitError
  unfolding commit_error
  validate_created w parent hash paths = elim (H.parent_of w hash) [
    | none ↦ some (commit_error (lit "cannot inspect created commit parent") hash [])
    | some actual ↦
        if not (actual == parent)
        then some (commit_error (lit "created commit parent does not match expected HEAD") hash [])
        else elim (H.diff_tree w hash) [
          | none ↦ some (commit_error (lit "cannot inspect created commit file set") hash [])
          | some listing ↦
              if not (same_set (parse_paths listing) (path_set paths))
              then some (
                  commit_error (lit "commit file set does not match its assignment") hash
                    (symmetric_difference (parse_paths listing) (path_set paths)))
              else none
        ]
  ]
