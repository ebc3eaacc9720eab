-- ===== src/Cli/Snapshots.antt =====
-- internal/cli/collection.go: what the cycle computes from snapshots, states and results.
use commiter_cli.Base.{
  Bool, false, not, ◌&&◌, ◌||◌, List, [], ◌∷◌, ◌++◌, map, Option, none, some, if◌then◌else◌, ◌==◌,
  is_nil, option_eq,
}
use commiter_cli.Base.Dict.{lookup, insert}
use commiter_cli.Base.Str.{Str, lit, str_eq, sort_strings}
use commiter_cli.Config.Values.{Values}
use commiter_cli.Gitstate.Types.{
  Change, ChangeIdentity, Excluded, candidate_not_approved, pointer_value,
  approved_sensitive_changes,
}
use commiter_cli.Gitstate.Collect.{Snapshot}
use commiter_cli.Interaction.PushTarget.{PushTarget}
use commiter_cli.Planning.Types.{Plan}
use commiter_cli.Verification.Definition.{Definition, Command}
use commiter_cli.Verification.Runner.{CommandResult}
use commiter_cli.Verification.State.{StatePolicy, to_set}

-- `gitstate.Snapshot` whole: what `Collect` looks up around its changes, and these.
pub record Collected : Type 0 where
  pub root : Str
  pub head : Str
  pub branch : Str
  pub index_identity : Str
  pub snapshot : Snapshot
  pub open snapshot use {changes, untracked, excluded}

-- `snapshotContainsSensitive`
unfoldable pub any_sensitive : List Change → Bool
any_sensitive [] = false
any_sensitive (c ∷ cs) = c.sensitive || any_sensitive cs

-- `knownUnapprovedSensitiveChanges`, by the loop over what is excluded.
unfoldable pub known_unapproved_changes : List Excluded → List ChangeIdentity
known_unapproved_changes [] = []
known_unapproved_changes (e ∷ es) =
    let rest = known_unapproved_changes es in
    if e.reason == candidate_not_approved
    then elim e.identity [ none ↦ rest | some i ↦ i ∷ rest ]
    else rest

-- `verificationStatePolicy`
unfoldable pub state_policy : Collected → Values → StatePolicy
unfolding approved_sensitive_changes
state_policy c v = record {
  target_untracked = c.untracked;
  approved_sensitive = approved_sensitive_changes c.changes;
  additional_sensitive = v.sensitive_patterns;
}

-- `snapshotChangeKey`
unfoldable pub snapshot_change_key : Change → Str
snapshot_change_key c = c.status ++ (0 ∷ pointer_value c.old_path) ++ (0 ∷ pointer_value c.new_path)

new_path_unless : Option Str → Option Str → List Str
new_path_unless old none = []
new_path_unless none (some p) = p ∷ []
new_path_unless (some q) (some p) = if p == q then [] else p ∷ []

-- `snapshotChangePaths`
unfoldable pub snapshot_change_paths : Change → List Str
unfolding new_path_unless
snapshot_change_paths c =
    elim c.old_path [ none ↦ [] | some p ↦ p ∷ [] ] ++ new_path_unless c.old_path c.new_path

-- The maps by key of `changedSnapshotPaths`: the last change with a key stands.
unfoldable pub by_key : List Change → List (Str × Change) → List (Str × Change)
unfolding snapshot_change_key
by_key [] m = m
by_key (c ∷ cs) m = by_key cs (insert m (snapshot_change_key c) c)

-- The paths of the changes that are gone or differ: the loop over the first map.
unfoldable pub gone_or_other : List (Str × Change) → List (Str × Change) → List Str
unfolding snapshot_change_paths
gone_or_other [] after = []
gone_or_other ((k, prior) ∷ m) after =
    elim (lookup after k) [
      | none ↦ snapshot_change_paths prior
      | some current ↦
          if current.change_hash == prior.change_hash
          then []
          else snapshot_change_paths prior ++ snapshot_change_paths current
    ]
    ++ gone_or_other m after

-- The paths of the changes that are new: the loop over the second map.
unfoldable pub newly_there : List (Str × Change) → List (Str × Change) → List Str
unfolding snapshot_change_paths
newly_there before [] = []
newly_there before ((k, current) ∷ m) =
    elim (lookup before k) [ none ↦ snapshot_change_paths current | some prior ↦ [] ]
    ++ newly_there before m

-- `uniqueStrings`
unfoldable pub unique_strings : List Str → List Str
unfolding to_set
unique_strings values = sort_strings (to_set values)

unfoldable pub changed_changes : Collected → Collected → List Str
unfolding by_key gone_or_other newly_there
changed_changes before after =
    let prior = by_key before.changes [] in
    let current = by_key after.changes [] in
    (gone_or_other prior current ++ newly_there prior current)
    ++ (if before.head == after.head then [] else lit "HEAD" ∷ [])

-- `changedSnapshotPaths`
unfoldable pub changed_snapshot_paths : Collected → Collected → List Str
unfolding changed_changes unique_strings
changed_snapshot_paths before after =
    let changed = changed_changes before after in
    unique_strings (
      if not (before.index_identity == after.index_identity) && is_nil changed
      then lit "<index>" ∷ []
      else changed)

-- `mutatingVerificationCommands`
unfoldable pub mutating_names : List CommandResult → List Str
mutating_names [] = []
mutating_names (r ∷ rs) =
    if is_nil r.changed_paths then mutating_names rs else r.name ∷ mutating_names rs

-- `lastVerificationCommand`
unfoldable pub last_verification_command : List CommandResult → Str
last_verification_command [] = []
last_verification_command (r ∷ []) = r.name
last_verification_command (r ∷ (q ∷ rs)) = last_verification_command (q ∷ rs)

-- The commands that a change after verification is laid to.
unfoldable pub mutation_commands : List CommandResult → List Str
unfolding mutating_names last_verification_command unique_strings
mutation_commands rs =
    let named = unique_strings (mutating_names rs) in
    if is_nil named
    then (if is_nil (last_verification_command rs) then [] else last_verification_command rs ∷ [])
    else named

pub record ShownCommand : Type 0 where
  pub name : Str
  pub cwd : Str
  pub argv : List Str

-- `interaction.ReviewRequest`
pub record ReviewRequest : Type 0 where
  pub plan : Plan
  pub files : List (Str × Str)
  pub excluded : List (Str × Str)
  pub verification : List ShownCommand
  pub push_target : PushTarget

shown_path : Option Str → Option Str → Str
shown_path (some q) (some p) = if q == p then p else q ++ lit " -> " ++ p
shown_path none (some p) = p
shown_path (some q) none = q
shown_path none none = []

unfoldable pub shown_files : List Change → List (Str × Str) → List (Str × Str)
unfolding shown_path
shown_files [] m = m
shown_files (c ∷ cs) m = shown_files cs (insert m c.id (shown_path c.old_path c.new_path))

shown_command : Command → ShownCommand
shown_command c = record { name = c.name; cwd = c.cwd; argv = c.argv }

shown_commands : Option Definition → List ShownCommand
shown_commands none = []
shown_commands (some d) = map shown_command d.commands

-- `reviewRequest`
unfoldable pub review_request : Collected → Plan → Option Definition → PushTarget → ReviewRequest
unfolding shown_files shown_commands shown_command
review_request c plan definition target = record {
  plan = plan;
  files = shown_files c.changes [];
  excluded = map (λ e. (e.path, e.reason)) c.excluded;
  verification = shown_commands definition;
  push_target = target;
}
