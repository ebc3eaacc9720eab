-- ===== src/Gitstate/Types.antt =====
-- internal/gitstate/types.go: changes, their identities, and what is left out of a snapshot.
use commiter_cli.Base.{ℕ, Bool, Option, none, some, List, [], ◌∷◌, if◌then◌else◌, Eq}
use commiter_cli.Base.Str.{Str, lit}
use native.Mathlib.Decide.{ℕ_discrete}

pub record Change : Type 0 where
  pub id : Str
  pub status : Str
  pub old_path : Option Str
  pub new_path : Option Str
  pub old_mode : Option Str
  pub new_mode : Option Str
  pub head_identity : Option Str
  pub worktree_kind : Str
  pub worktree_id : Option Str
  pub language : Str
  pub size : ℕ
  pub binary : Bool
  pub vendor : Bool
  pub opaque : Bool
  pub sensitive : Bool
  pub staged : Bool
  pub unstaged : Bool
  pub change_hash : Str

-- `ChangeIdentity`, compared field by field as a map key.
pub record ChangeIdentity : Type 0 where
  pub status : Str
  pub old_path : Str
  pub new_path : Str

identity_dec : Discrete ChangeIdentity
identity_dec = hlevel ℕ_discrete

instance unfoldable pub identity_eq : Eq ChangeIdentity
unfolding identity_dec ℕ_discrete
identity_eq = record { dec = identity_dec }

pub record Excluded : Type 0 where
  pub path : Str
  pub reason : Str
  pub identity : Option ChangeIdentity

abbrev pub candidate_not_approved : Str
candidate_not_approved = lit "sensitive candidate was not approved"

-- `pointerValue`: an absent string reads as the empty one.
abbrev pub pointer_value : Option Str → Str
pointer_value none = []
pointer_value (some s) = s

-- `Identity`
unfoldable pub identity : Change → ChangeIdentity
identity c = record {
  status = c.status;
  old_path = pointer_value c.old_path;
  new_path = pointer_value c.new_path;
}

-- `ApprovedSensitiveChanges`
unfoldable pub approved_sensitive_changes : List Change → List ChangeIdentity
unfolding identity
approved_sensitive_changes [] = []
approved_sensitive_changes (c ∷ cs) =
    if c.sensitive
    then identity c ∷ approved_sensitive_changes cs
    else approved_sensitive_changes cs
