-- ===== src/Interaction/PushTarget.antt =====
-- internal/interaction/interaction.go: `ResolvePushTarget`, over the Git commands that it reads, and
-- internal/pushexec/executor.go: the arguments of the push. Names are sequences of code points.
use commiter_cli.Base.{
  Bool, true, false, not, ◌&&◌, ◌||◌, List, [], ◌∷◌, ◌++◌, if◌then◌else◌, ◌==◌, eqb, ltb, is_nil,
}
use commiter_cli.Base.Str.{
  Str, lit, str_eq, any, has_prefix, trim_prefix, trim_space, fields_func, is_space,
}

pub record PushTarget : Type 0 where
  pub remote : Str
  pub branch : Str
  pub resolved : Bool
  pub set_upstream : Bool
  pub reason : Str

-- What Git prints for arguments, empty on an error, and whether `git check-ref-format` accepts a name.
pub record Git : Type 0 where
  pub output : List Str → Str
  pub check_ref_format : Str → Bool

-- `safeName`
unfoldable pub safe_name : Str → Bool
safe_name value =
    if is_nil value
      || any (λ c. eqb c 13 || eqb c 10 || eqb c 0) value
      || not (trim_space value == value)
    then false
    else not (any (λ c. ltb c 0x20 || eqb c 0x7f) value)

-- `safeRemote`
unfoldable pub safe_remote : Str → Bool
unfolding safe_name
safe_remote remote = safe_name remote && not (has_prefix remote (lit "-"))

unfoldable pub unresolved : Str → PushTarget
unresolved reason = record {
  remote = [];
  branch = [];
  resolved = false;
  set_upstream = false;
  reason = reason;
}

module _ (G : Git) where
  -- `git`: the output without white space around it.
  unfoldable pub git : List Str → Str
  git args = trim_space (G.output args)

  -- `validBranch`
  unfoldable pub valid_branch : Str → Bool
  valid_branch branch =
      if not (safe_name branch) || has_prefix branch (lit "-")
      then false
      else G.check_ref_format (lit "refs/heads/" ++ branch)

-- `contains`
unfoldable pub contains_remote : List Str → Str → Bool
contains_remote [] target = false
contains_remote (v ∷ vs) target =
    if v == target && safe_remote v then true else contains_remote vs target

module _ (G : Git) where
  -- The remote of a repository that has just one, for a branch without an upstream.
  unfoldable pub only_remote : Str → List Str → PushTarget
  only_remote branch (remote ∷ []) =
      if safe_remote remote
      then record {
        remote = remote;
        branch = branch;
        resolved = true;
        set_upstream = true;
        reason = [];
      }
      else unresolved
          (lit "push target is ambiguous: configure an upstream or leave exactly one remote")
  only_remote branch _ =
      unresolved (lit "push target is ambiguous: configure an upstream or leave exactly one remote")

  unfoldable pub upstream_or : Str → List Str → Str → Str → PushTarget
  upstream_or branch remotes upstream_remote upstream_merge =
      let upstream_branch = trim_prefix upstream_merge (lit "refs/heads/") in
      if contains_remote remotes upstream_remote
        && valid_branch G upstream_branch
        && (upstream_merge == lit "refs/heads/" ++ upstream_branch)
      then record {
        remote = upstream_remote;
        branch = upstream_branch;
        resolved = true;
        set_upstream = false;
        reason = [];
      }
      else only_remote branch remotes

  unfoldable pub configured : Str → Str → Str
  configured branch key = git G (lit "config" ∷ lit "--get" ∷ (lit "branch." ++ branch ++ key) ∷ [])

  unfoldable pub resolve_branch : Str → PushTarget
  unfolding configured
  resolve_branch branch =
      if valid_branch G branch
      then upstream_or branch (fields_func is_space (git G (lit "remote" ∷ [])))
          (configured branch (lit ".remote")) (configured branch (lit ".merge"))
      else unresolved (lit "push target cannot be resolved from detached or unsafe HEAD")

  -- `ResolvePushTarget`
  unfoldable pub resolve_push_target : PushTarget
  unfolding resolve_branch
  resolve_push_target =
      resolve_branch (git G (lit "symbolic-ref" ∷ lit "--quiet" ∷ lit "--short" ∷ lit "HEAD" ∷ []))
