-- ===== src/Commitexec/Tests.antt =====
-- The executor over a small host, and its theorems at concrete runs.
use commiter_cli.Base.{
  ◌≡◌, refl, ◌⊎◌, Bool, true, false, List, [], ◌∷◌, ◌++◌, Option, none, some, ap, sym, option_eq,
  contains,
}
use commiter_cli.Base.Str.{Str, lit, str_eq}
use commiter_cli.Base.Sets.{add_all}
use commiter_cli.Base.Int.{pos}
use commiter_cli.Output.{escape}
use commiter_cli.Planning.Types.{subject}
use commiter_cli.Planning.Assignment.{IsPartition}
use commiter_cli.Gitstate.Types.{Change, identity_eq}
use commiter_cli.Commitexec.Host.{Host}
use commiter_cli.Commitexec.Paths.{
  change_paths, change_key, all_planned_paths, path_set, same_set, parse_paths, parse_tree_entry,
}
use commiter_cli.Commitexec.Run.{Run, Failure, classified, an_error, exit_safety, ◌>>=◌, require}
use commiter_cli.Commitexec.Checks.{find_change, verify_hashes, validate_created}
use commiter_cli.Commitexec.FileSet.{validate_created-none}
use commiter_cli.Commitexec.Index.{stage_assignment, restore_outside}
use commiter_cli.Commitexec.Execute.{
  Options, interruption, assign, checked, plainly, head, create_commit, commit_paths,
  execute_commit, execute_commits, all_assigned, execute_ids, execute_body, finish, execute,
}
use commiter_cli.Commitexec.Restore.{KeepsIndex, restoration_unknown, execute-restores}
use commiter_cli.Commitexec.Assigned.{change_ids, AllRecorded}
use commiter_cli.Commitexec.Complete.{execute_complete}

-- A repository with an index and a HEAD, and the changes that a collection finds.
record Repo : Type 0 where
  index : Str
  head : Str
  found : List Change

abbrev change : Change
change = record {
  id = lit "F001";
  status = lit "modified";
  old_path = some (lit "a.go");
  new_path = some (lit "a.go");
  old_mode = none;
  new_mode = none;
  head_identity = none;
  worktree_kind = lit "file";
  worktree_id = none;
  language = lit "Go";
  size = 1;
  binary = false;
  vendor = false;
  opaque = false;
  sensitive = false;
  staged = false;
  unstaged = true;
  change_hash = lit "c1";
}

abbrev edited : Change
edited = record change { change_hash = lit "c2" }

abbrev small_host : Host
small_host = record {
  World = Repo;
  read_index = λ w. some w.index;
  write_index = λ w bytes. (record w { index = bytes }, true);
  create_temp = λ w. (w, true);
  read_tree = λ w index. (w, some w.head);
  add_path = λ w index path. (w, some (index ++ path));
  remove_entry = λ w index path. (w, some index);
  cache_entry = λ w index mode object path. (w, some (index ++ object));
  ls_tree = λ w path. some (lit "100644 blob 0f" ++ (9 ∷ (path ++ (0 ∷ []))));
  read_head = λ w. some w.head;
  parent_of = λ w hash. some (lit "h0");
  diff_tree = λ w hash. some (lit "a.go" ++ (0 ∷ []));
  commit = λ w message. (record w { head = lit "h1" }, true, []);
  interrupted = λ w. false;
  collect = λ w paths. (w, some (w.found, []));
  write_output = λ out. true;
  absolute = λ root. true;
  quote = λ s. s;
}

abbrev repo : Repo
repo = record { index = lit "i0"; head = lit "h0"; found = change ∷ [] }

abbrev stale : Repo
stale = record { index = lit "i0"; head = lit "h0"; found = edited ∷ [] }

abbrev options : Options
options = record {
  root = lit "/r";
  changes = change ∷ [];
  plan = record {
    schema_version = pos 1;
    commits =
        record {
          type = lit "fix";
          scope = lit "core";
          breaking = false;
          summary = lit "guard";
          file_ids = lit "F001" ∷ [];
        }
        ∷ [];
  };
  known_unapproved = [];
}

small_host-KeepsIndex : KeepsIndex small_host
small_host-KeepsIndex = record {
  read-write = λ w w' bytes h. ap (λ (p : Repo × Bool). some p.0.index) (sym h);
}

runs : Repo → Run small_host × Option Failure
unfolding execute execute_body execute_ids execute_commits execute_commit commit_paths interruption
    assign checked plainly head create_commit all_assigned finish require escape str_eq add_all
    subject change_key change_paths all_planned_paths find_change verify_hashes validate_created
    stage_assignment restore_outside ◌>>=◌ identity_eq same_set parse_paths parse_tree_entry
runs w = execute small_host options w

completed : (runs repo).1 ≡ none
unfolding runs
completed = refl

one_hash : (runs repo).0.hashes ≡ lit "h1" ∷ []
unfolding runs
one_hash = refl

-- The collected change no longer has its hash: nothing is committed.
refused :
    (runs stale).1
    ≡ some (
        classified (record (an_error exit_safety (lit "change hash changed before staging")) {
          restored = true;
        }))
unfolding runs
refused = refl

execute_complete_example :
    IsPartition options.plan (change_ids options.changes)
    × AllRecorded options.changes small_host options.plan.commits
        (execute small_host options repo).0.hashes
execute_complete_example = execute_complete small_host options repo (unfold runs in completed)

execute-restores_example :
    (classified (record (an_error exit_safety (lit "change hash changed before staging")) {
      restored = true;
    })
      ≡ restoration_unknown)
    ⊎ (small_host.read_index (execute small_host options stale).0.world ≡ some (lit "i0"))
execute-restores_example =
    execute-restores small_host small_host-KeepsIndex options stale (lit "i0") _ refl
      (unfold runs in refused) (unfold runs in refl)

abbrev committed : Repo
committed = record repo { head = lit "h1" }

created : validate_created small_host committed (lit "h0") (lit "h1") (lit "a.go" ∷ []) ≡ none
unfolding validate_created str_eq same_set parse_paths path_set
created = refl

validate_created-none_example :
    (small_host.parent_of committed (lit "h1") ≡ some (lit "h0"))
    × (listing : Str) × (small_host.diff_tree committed (lit "h1") ≡ some listing)
    × ((p : Str) → contains (parse_paths listing) p ≡ contains (lit "a.go" ∷ []) p)
validate_created-none_example =
    validate_created-none small_host committed (lit "h0") (lit "h1") (lit "a.go" ∷ []) created
