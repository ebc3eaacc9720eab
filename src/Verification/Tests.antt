-- ===== src/Verification/Tests.antt =====
-- internal/verification: small inputs, a repository and processes kept in memory.
use commiter_cli.Base.{
  ◌≡◌, ◌↔◌, ℕ, refl, ap, sym, Bool, true, false, List, [], ◌∷◌, Option, none, some, ◌+◌, eqb, suc,
  Bool-cases, inl, inr, ◌++◌, ◌∙◌, if◌then◌else◌, ◌==◌, ==_iff,
}
use commiter_cli.Base.Int.{pos}
use commiter_cli.Base.Result.{ok, ok-injective}
use commiter_cli.Base.Str.{Str, lit, str_eq, split, split_n, trim_suffix}
use commiter_cli.Gitstate.Errors
use commiter_cli.Gitstate.Sensitive.{Glob, Sensitivity, automatically_excluded, classify_sensitive}
use commiter_cli.Trust.Store.{Entry, Storage, matches}
use commiter_cli.Verification.Definition.{
  Command, Definition, CanonicalDefinition, CanonicalCommand, repo, Encoding, source_repo_config,
  canonical, hash, argvs,
}
use commiter_cli.Verification.Definition.Canonical.{restore, restore-canonical}
use commiter_cli.Verification.Approval.{Confirm, authorize}
use commiter_cli.Verification.Approval.Remembered.{Approved, authorize-Approved}
use commiter_cli.Verification.State.{
  FileState, RepositoryState, WorkTree, Meta, found, StatePolicy, changed_paths, status_file_states,
}
use commiter_cli.Verification.State.Unchanged.{IsUnchanged, changed_paths-nil_iff}
use commiter_cli.Verification.State.Blind.{
  SameMetadata, IsReadable, IsShown, Shows, record_of, status_file_states-blind,
}
use commiter_cli.Verification.Records.{Visible, renamed_record}
use commiter_cli.Gitstate.Sensitive.Policy.{MayRead}
use mathlib.Core.Path.{subst}
use mathlib.Core.Option.{some-injective}
use commiter_cli.Verification.Runner.{Processes, run_commands}
use commiter_cli.Verification.Runner.Stops.{Ended, run_commands-Ended}

abbrev go_test : Command
go_test = record {
  name = lit "test";
  cwd = lit ".";
  argv = lit "go" ∷ lit "test" ∷ [];
  manifest_path = [];
  script_name = [];
  script_body = [];
  implicit_lifecycle_scripts = [];
}

abbrev definition : Definition
definition = record {
  schema_version = pos 1;
  source_type = source_repo_config;
  commands = go_test ∷ [];
}

abbrev definition_canonical : CanonicalDefinition
definition_canonical = record {
  schema_version = pos 1;
  source_type = source_repo_config;
  commands = repo (lit "test") (lit ".") (lit "go" ∷ lit "test" ∷ []) ∷ [];
}

is_canonical : canonical definition ≡ ok definition_canonical
unfolding canonical commiter_cli.Base.Int.int_eq commiter_cli.Verification.Definition.encoder str_eq
    commiter_cli.Verification.Definition.canonical_commands
    commiter_cli.Verification.Definition.repo_command
    commiter_cli.Verification.Definition.valid_common_command
is_canonical = refl

restore-canonical_example : restore definition_canonical ≡ definition
restore-canonical_example = restore-canonical definition definition_canonical is_canonical

abbrev disk : Storage
disk = record {
  Disk = List Entry;
  canonical = λ path. some path;
  read = λ d. ok d;
  write = λ d es. (es, none);
  read-write = λ d d' es h. ap (λ (p : List Entry × Option Str). ok p.0) (sym h);
}

abbrev plain : Encoding
plain = record { marshal = λ c. c.source_type; sha256_hex = λ s. s }

abbrev agree_to_all : Option Confirm
agree_to_all = some (λ r. ok true)

abbrev approved_entry : Entry
approved_entry = record {
  repo_path = lit "/r";
  definition_hash = source_repo_config;
  source_type = source_repo_config;
  commands = (lit "go" ∷ lit "test" ∷ []) ∷ [];
}

authorized :
    authorize disk plain [] (lit "/r") (some definition) agree_to_all
    ≡ (approved_entry ∷ [], ok true)
unfolding authorize hash canonical commiter_cli.Base.Int.int_eq
    commiter_cli.Verification.Definition.encoder str_eq
    commiter_cli.Verification.Definition.canonical_commands
    commiter_cli.Verification.Definition.repo_command
    commiter_cli.Verification.Definition.valid_common_command matches
    commiter_cli.Trust.Store.matching commiter_cli.Trust.Store.approve argvs
    commiter_cli.Trust.Store.sort_entries commiter_cli.Trust.Store.replace_entry
authorized = refl

authorize-Approved_example :
    (h : Str) × (hash plain definition ≡ ok h)
    × (matches disk (approved_entry ∷ []) (lit "/r") h ≡ ok true)
    × Approved disk plain [] (approved_entry ∷ []) (lit "/r") definition h agree_to_all
authorize-Approved_example =
    authorize-Approved disk plain [] (approved_entry ∷ []) (lit "/r") definition agree_to_all
      authorized

abbrev a_file : FileState
a_file = record {
  line = lit "1 .M";
  mode = 420;
  size = 3;
  mod_time = 7;
  content_identity = lit "aa";
}

abbrev a_state : RepositoryState
a_state = record {
  head = lit "c1";
  index_path = lit "/r/.git/index";
  index_mode = 420;
  index_data = lit "DIRC";
  files = (lit "a", a_file) ∷ [];
}

abbrev another_state : RepositoryState
another_state = record a_state {
  files = (lit "a", record a_file { content_identity = lit "bb" }) ∷ [];
}

content_is_seen : changed_paths a_state another_state ≡ lit "a" ∷ []
unfolding changed_paths str_eq commiter_cli.Base.Str.sort_strings commiter_cli.Base.option_eq
    commiter_cli.Verification.State.file_state_eq
content_is_seen = refl

changed_paths-nil_iff_example :
    (changed_paths a_state another_state ≡ []) ↔ IsUnchanged a_state another_state
changed_paths-nil_iff_example = changed_paths-nil_iff a_state another_state

-- Two runs: the process succeeds in the world 0, and fails behind it.
abbrev counter : Processes
counter = record {
  World = ℕ;
  capture = λ w. ok a_state;
  run = λ w c. (suc w, lit "out", eqb w 0);
  deadline_exceeded = λ w. false;
  canceled = λ w. false;
}

run_commands-Ended_example :
    Ended counter 0
      (go_test ∷ go_test ∷ go_test ∷ [])
      (run_commands counter 0 (go_test ∷ go_test ∷ go_test ∷ []))
run_commands-Ended_example = run_commands-Ended counter 0 (go_test ∷ go_test ∷ go_test ∷ [])

abbrev literal : Glob
literal = λ pattern path. some (pattern == path)

abbrev tree : Str → WorkTree
tree secret = record {
  lstat = λ p.
      found (record { mode = 420; is_symlink = false; is_regular = true; size = 3; mod_time = 7 });
  readlink = λ p. none;
  read_file = λ p. some (if p == lit "notes.txt" then secret else lit "text");
  sha256_hex = λ s. s;
}

abbrev no_policy : StatePolicy
no_policy = record {
  target_untracked = lit ".env" ∷ [];
  approved_sensitive = [];
  additional_sensitive = [];
}

env_is_excluded :
    classify_sensitive literal (lit ".env") []
    ≡ Errors.ok (automatically_excluded, lit "environment file")
unfolding classify_sensitive commiter_cli.Gitstate.Sensitive.matches_additional str_eq
    commiter_cli.Base.Str.split commiter_cli.Gitstate.Sensitive.ascii_lower
env_is_excluded = refl

-- Two work trees whose secret stands in a file that was renamed from an excluded one.
SameMetadata-tree : (secret other : Str) → SameMetadata (tree secret) (tree other)
SameMetadata-tree secret other = record { lstat = λ p. refl; sha256_hex = refl }

abbrev renamed_status : Str
renamed_status =
    lit "2 R. N... 100644 100644 100644 aa bb R100 notes.txt" ++ 0 ∷ lit ".env" ++ 0 ∷ []

abbrev renamed_visible : Visible
renamed_visible = record {
  line = lit "2 R. N... 100644 100644 100644 aa bb R100 notes.txt";
  path = lit "notes.txt";
  old_path = lit ".env";
  identity = record { status = lit "renamed"; old_path = lit ".env"; new_path = lit "notes.txt" };
}

env-unreadable : (b : Bool) → ¬ IsReadable literal [] b (lit ".env")
unfolding MayRead
env-unreadable b (c, e, may) =
    subst (λ (l : Sensitivity). MayRead l b)
      (ap (λ x. x.0) (Errors.ok-injective _ _ (sym e ∙ env_is_excluded))) may

renamed-hidden :
    (v : Visible) → ok (some renamed_visible) ≡ ok (some v) → ¬ IsShown literal no_policy v
renamed-hidden v e s =
    let same : renamed_visible ≡ v = some-injective _ _ (ok-injective _ _ e) in
    env-unreadable _ ((subst (IsShown literal no_policy) (sym same) s).old (λ h. cc))

nothing-Shows :
    (p : Str) → ¬ Shows literal no_policy (split 0 (trim_suffix renamed_status (0 ∷ []))) p
unfolding Shows record_of renamed_record split split_n trim_suffix
nothing-Shows p (inl (v, e, _, s)) = renamed-hidden v e s
nothing-Shows p (inr h) = h

status_file_states-blind_example :
    status_file_states (tree (lit "a")) literal no_policy renamed_status
    ≡ status_file_states (tree (lit "b")) literal no_policy renamed_status
status_file_states-blind_example =
    status_file_states-blind literal no_policy (tree (lit "a")) (tree (lit "b"))
      (SameMetadata-tree (lit "a") (lit "b")) renamed_status (λ p h. absurd (nothing-Shows p h))
