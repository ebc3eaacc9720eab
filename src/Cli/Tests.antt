-- ===== src/Cli/Tests.antt =====
-- A run of the command line in a repository with one change, and options as arguments.
use commiter_cli.Base.{
  ℕ, ◌≡◌, refl, ◌≤◌, ◌⊎◌, Bool, true, false, List, [], ◌∷◌, ◌++◌, map, Option, none, some,
  if◌then◌else◌,
}
use commiter_cli.Base.Int.{pos}
use commiter_cli.Base.Result.{ok}
use commiter_cli.Base.Str.{Str, lit}
use commiter_cli.Cli.Cycle.{run_collection}
use commiter_cli.Cli.Cycle.Allowed.{AllAllowed, regenerations}
use commiter_cli.Cli.Cycle.Safe.{run_collection-AllAllowed, run_collection-ends, AgainAndAgain}
use commiter_cli.Cli.Host.{
  Calls, Event, Session, Planned, planned, Authorization, authorized, collected, captured, proposed,
  reviewed, cleared, verified, again_confirmed, committing, made_commits, push_confirmed, pushing,
}
use commiter_cli.Cli.Options.{Flags, no_flags, parse}
use commiter_cli.Cli.Options.Printed.{arguments, parse-arguments}
use commiter_cli.Cli.Snapshots.{Collected}
use commiter_cli.Config.Values.{defaults}
use commiter_cli.Gitstate.Errors
use commiter_cli.Gitstate.Types.{Change}
use commiter_cli.Interaction.Push.{pushed}
use commiter_cli.Interaction.PushTarget.{PushTarget}
use commiter_cli.Interaction.Review.{Decision, approve, regenerate}
use commiter_cli.Planning.Types.{Plan}
use commiter_cli.Verification.State.{RepositoryState}

abbrev readme : Change
readme = record {
  id = lit "F001";
  status = lit "modified";
  old_path = some (lit "README.md");
  new_path = some (lit "README.md");
  old_mode = none;
  new_mode = none;
  head_identity = none;
  worktree_kind = lit "file";
  worktree_id = none;
  language = lit "Markdown";
  size = 3;
  binary = false;
  vendor = false;
  opaque = false;
  sensitive = false;
  staged = false;
  unstaged = true;
  change_hash = lit "c0";
}

abbrev one_change : Collected
one_change = record {
  root = lit "/r";
  head = lit "h0";
  branch = lit "main";
  index_identity = lit "i0";
  snapshot = record { changes = readme ∷ []; untracked = []; excluded = [] };
}

abbrev clean_state : RepositoryState
clean_state = record {
  head = lit "h0";
  index_path = lit "/r/.git/index";
  index_mode = 0;
  index_data = lit "i0";
  files = [];
}

abbrev one_commit : Plan
one_commit = record {
  schema_version = pos 1;
  commits =
      record {
        type = lit "docs";
        scope = lit "readme";
        breaking = false;
        summary = lit "say more";
        file_ids = lit "F001" ∷ [];
      }
      ∷ [];
}

abbrev origin_main : PushTarget
origin_main = record {
  remote = lit "origin";
  branch = lit "main";
  resolved = true;
  set_upstream = false;
  reason = [];
}

-- Everything succeeds, each question gets the next line of the input, and the review a decision.
abbrev working : Decision → Calls
working decision = record {
  World = List Str;
  interrupted = λ w. (w, false);
  lines = λ text w. (w, true);
  prompt_lines = λ text w. (w, true);
  value = λ document w. (w, true);
  print_error = λ e w. w;
  read_line = elim [ [] ↦ ([], none) | l ∷ ls ↦ (ls, some l) ];
  collect = λ approved callback w. (w, Errors.ok one_change);
  capture = λ policy w. (w, ok clean_state);
  write_index = λ s w. (w, true);
  resolve_definition = λ w. (w, ok none);
  resolve_push_target = λ w. (w, origin_main);
  plan = λ c supplement w. (w, planned one_commit);
  render = λ request w. (w, true);
  review = λ request w. (w, (decision, lit "shorter", none));
  authorize = λ d callback w. (w, authorized);
  run_verification = λ d timeout policy w. (w, ([], none));
  commit = λ request w. (w, record { hashes = lit "h1" ∷ []; failure = none; hook_output = [] });
  push = λ t w. (w, pushed);
  equal_fold = λ s t. false;
  decimal = λ n. [];
  marshal = λ argv. some [];
}

abbrev start : (d : Decision) → List Str → Session (working d)
start d input = record { world = input; log = []; repeated = [] }

-- What kind of call an event is.
abbrev kind : Event → Str
kind (collected c) = lit "collect"
kind (captured s) = lit "capture"
kind (proposed p) = lit "plan"
kind (reviewed q d) = lit "review"
kind (cleared d) = lit "authorize"
kind (verified d e) = lit "verify"
kind again_confirmed = lit "again"
kind (committing r) = lit "commit"
kind (made_commits hs) = lit "made"
kind (push_confirmed t) = lit "confirm"
kind (pushing t) = lit "push"

abbrev kinds : List Event → List Str
kinds [] = []
kinds (e ∷ es) = kind e ∷ kinds es

whole_run :
    kinds
      (run_collection
        (working approve)
        no_flags
        defaults.values
        1
        1
        (start approve (lit "y" ∷ []))).0.log
    ≡ lit "push"
      ∷ lit "confirm"
      ∷ lit "made"
      ∷ lit "commit"
      ∷ lit "collect"
      ∷ lit "capture"
      ∷ lit "verify"
      ∷ lit "authorize"
      ∷ lit "review"
      ∷ lit "plan"
      ∷ lit "capture"
      ∷ lit "collect"
      ∷ []
unfolding run_collection defaults commiter_cli.Cli.Host.◌>>=◌ commiter_cli.Cli.Verify.changes_found
    commiter_cli.Base.Str.sort_strings commiter_cli.Verification.State.changed_paths
    commiter_cli.Base.Str.str_eq commiter_cli.Cli.Snapshots.changed_snapshot_paths
    commiter_cli.Cli.Snapshots.any_sensitive commiter_cli.Base.Str.trim_space
whole_run = refl

push_declined :
    (run_collection (working approve) no_flags defaults.values 1 1 (start approve (lit "n" ∷ []))).1
    ≡ some 3
unfolding run_collection defaults commiter_cli.Cli.Host.◌>>=◌ commiter_cli.Cli.Verify.changes_found
    commiter_cli.Base.Str.sort_strings commiter_cli.Verification.State.changed_paths
    commiter_cli.Base.Str.str_eq commiter_cli.Cli.Snapshots.changed_snapshot_paths
    commiter_cli.Cli.Snapshots.any_sensitive commiter_cli.Base.Str.trim_space
push_declined = refl

run_collection-AllAllowed_example :
    AllAllowed no_flags defaults.values
      (run_collection
        (working approve)
        no_flags
        defaults.values
        1
        1
        (start approve (lit "y" ∷ []))).0.log
run_collection-AllAllowed_example =
    run_collection-AllAllowed (working approve) no_flags defaults.values 1 1
      (start approve (lit "y" ∷ [])) tt

always_again :
    (run_collection (working regenerate) no_flags defaults.values 2 1 (start regenerate [])).1
    ≡ none
unfolding run_collection defaults commiter_cli.Cli.Host.◌>>=◌
always_again = refl

run_collection-ends_example :
    (2
      ≤ regenerations
          (run_collection
            (working regenerate)
            no_flags
            defaults.values
            2
            1
            (start regenerate [])).0.log)
    ⊎ AgainAndAgain
        (working regenerate)
        no_flags
        defaults.values
        2
        1
        (start regenerate [])
        (run_collection (working regenerate) no_flags defaults.values 2 1 (start regenerate [])).0
run_collection-ends_example =
    run_collection-ends (working regenerate) no_flags defaults.values 2 1 (start regenerate []) tt
      always_again

abbrev dashing : Flags
dashing = record no_flags {
  dry_run = true;
  language = some (lit "ja");
  pathspecs = lit "--json" ∷ lit "init" ∷ [];
}

parse-arguments_example : parse no_flags (arguments dashing) ≡ ok dashing
parse-arguments_example = parse-arguments dashing refl refl
