-- ===== src/Interaction/Safe.antt =====
-- A push goes to names that Git cannot take for options.
use commiter_cli.Base.{
  Bool, true, false, ◌&&◌, List, [], ◌∷◌, ◌++◌, ◌≡◌, refl, arith, if◌then◌else◌, ◌==◌, ==_iff,
  Bool-cases, inl, inr,
}
use commiter_cli.Base.Str.{Str, lit, str_eq, trim_prefix, fields_func, is_space}
use commiter_cli.Interaction.PushTarget.{
  PushTarget, Git, safe_remote, valid_branch, contains_remote, only_remote, upstream_or,
  resolve_push_target, unresolved, git, configured, resolve_branch,
}
use mathlib.Core.Path.{subst}

-- The names of a target: both are safe, neither begins with a dash, and Git accepts the branch.
pub IsSafe : Git → PushTarget → Type 0
IsSafe G t = (safe_remote t.remote ≡ true) × (valid_branch G t.branch ≡ true)

SafeIfResolved : Git → PushTarget → Type 0
SafeIfResolved G t = t.resolved ≡ true → IsSafe G t

contains_remote-safe :
    (vs : List Str) (t : Str) → contains_remote vs t ≡ true → safe_remote t ≡ true
unfolding contains_remote
contains_remote-safe [] t h = cc
contains_remote-safe (v ∷ vs) t h = elim (Bool-cases (v == t && safe_remote v)) [
  | inl e ↦
      subst (λ s. safe_remote s ≡ true) ((==_iff v t).0 (ground (arith, e))) (ground (arith, e))
  | inr e ↦ contains_remote-safe vs t (ground (arith, e, h))
]

module _ (G : Git) where
  only_remote_safe :
      (branch : Str) (remotes : List Str)
      → valid_branch G branch ≡ true
      → SafeIfResolved G (only_remote G branch remotes)
  unfolding IsSafe SafeIfResolved only_remote unresolved
  only_remote_safe branch [] b h = cc
  only_remote_safe branch (r ∷ []) b h = go (safe_remote r) refl h
    where
      target : Bool → PushTarget
      target ok =
          if ok
          then record {
            remote = r;
            branch = branch;
            resolved = true;
            set_upstream = true;
            reason = [];
          }
          else unresolved
              (lit "push target is ambiguous: configure an upstream or leave exactly one remote")

      go :
          (ok : Bool)
          → safe_remote r ≡ ok
          → (target ok).resolved ≡ true
          → (safe_remote (target ok).remote ≡ true) × (valid_branch G (target ok).branch ≡ true)
      go true e p = (e, b)
      go false e p = cc
  only_remote_safe branch (r ∷ (s ∷ rs)) b h = cc

  upstream_or_safe :
      (branch : Str) (remotes : List Str) (remote merge : Str)
      → valid_branch G branch ≡ true
      → SafeIfResolved G (upstream_or G branch remotes remote merge)
  unfolding upstream_or
  upstream_or_safe branch remotes remote merge b = go _ refl
    where
      upstream : Str
      upstream = trim_prefix merge (lit "refs/heads/")

      go :
          (ok : Bool)
          → (contains_remote remotes remote
              && valid_branch G upstream
              && (merge == lit "refs/heads/" ++ upstream))
            ≡ ok
          → SafeIfResolved G (
              if ok
              then record {
                remote = remote;
                branch = upstream;
                resolved = true;
                set_upstream = false;
                reason = [];
              }
              else only_remote G branch remotes)
      go true e =
          unfold SafeIfResolved in
          λ _.
            unfold IsSafe in
            (contains_remote-safe remotes remote (ground (arith, e)), ground (arith, e))
      go false e = only_remote_safe branch remotes b

  resolve_branch_safe : (branch : Str) → SafeIfResolved G (resolve_branch G branch)
  unfolding resolve_branch
  resolve_branch_safe branch = go (valid_branch G branch) refl
    where
      target : PushTarget
      target =
          upstream_or G branch (fields_func is_space (git G (lit "remote" ∷ [])))
            (configured G branch (lit ".remote")) (configured G branch (lit ".merge"))

      go :
          (ok : Bool)
          → valid_branch G branch ≡ ok
          → SafeIfResolved G (
              if ok
              then target
              else unresolved (lit "push target cannot be resolved from detached or unsafe HEAD"))
      go true b = upstream_or_safe branch _ _ _ b
      go false b = unfold SafeIfResolved in λ h. unfold unresolved in cc

  -- When a push target is resolved, its remote is a safe name that does not begin with a dash, and
  -- its branch is a safe name that does not begin with a dash either and that Git accepts, whatever
  -- the configuration of the repository says.
  pub resolve_push_target-IsSafe :
      (resolve_push_target G).resolved ≡ true → IsSafe G (resolve_push_target G)
  unfolding resolve_push_target SafeIfResolved
  resolve_push_target-IsSafe =
      resolve_branch_safe
        (git G (lit "symbolic-ref" ∷ lit "--quiet" ∷ lit "--short" ∷ lit "HEAD" ∷ []))
