-- ===== src/Config/Check/Accepted.antt =====
-- internal/config/config.go: `validateValues` as a predicate.
use commiter_cli.Base.{
  Bool, true, false, not, ◌||◌, List, [], ◌∷◌, ◌++◌, none, some, if◌then◌else◌, ◌==◌, ==_iff,
  is_nil, contains, ◌≡◌, ◌≢◌, ◌↔◌, inl, inr, refl, All, Bool-cases,
}
use commiter_cli.Base.FilePaths.{FilePaths}
use commiter_cli.Base.Int.{int_eq}
use commiter_cli.Base.Str.{Str, lit, str_eq, has_prefix, split}
use commiter_cli.Config.Values.{Values, VerificationCommand}
use commiter_cli.Config.Check.Supported.{
  IsSupported, checks-IsSupported, IsSupported-checks, require-none, require-nil, or_else-none,
  first_error-none,
}
use commiter_cli.Config.Check.{
  require, first_error, scalar_checks, pattern_checks, validate_repo_pattern, validate_command_cwd,
  validate_commands, validate_values,
}

-- A glob that stays below the root of the repository.
pub record IsRelative (F : FilePaths) (valid_glob : Str → Bool) (pattern : Str) : Type 0 where
  pub has_text : pattern ≢ []
  pub not_absolute : F.is_abs pattern ≡ false
  pub no_slash : has_prefix pattern (lit "/") ≡ false
  pub no_parent : contains (split b'/' (F.to_slash pattern)) (lit "..") ≡ false
  pub valid : valid_glob pattern ≡ true

pub record IsAccepted (F : FilePaths) (valid_glob : Str → Bool) (root : Str) (v : Values)
    : Type 0 where
  pub supported : IsSupported v
  pub patterns : All (IsRelative F valid_glob) (v.include ++ v.exclude)
  pub commands :
      v.commands_set ≡ true
      → (v.commands ≢ [])
        × All (λ c. validate_command_cwd F valid_glob c.cwd root ≡ none) v.commands

none_of : (a b c : Bool) → (not (a || b || c) ≡ true) ↔ ((a ≡ false) × (b ≡ false) × (c ≡ false))
none_of true b c = (λ h. cc, λ (p, q, r). cc)
none_of false true c = (λ h. cc, λ (p, q, r). cc)
none_of false false true = (λ h. cc, λ (p, q, r). cc)
none_of false false false = (λ h. (refl, refl, refl), λ h. refl)

not-true : (b : Bool) → (not b ≡ true) ↔ (b ≡ false)
not-true true = (λ h. cc, λ h. cc)
not-true false = (λ h. refl, λ h. refl)

empty-false : (s : Str) → ((s == []) ≡ false) ↔ (s ≢ [])
empty-false s = (
  λ h e. let found = (==_iff s []).1 e in cc,
  λ n. elim (Bool-cases (s == [])) [ inl e ↦ absurd (n ((==_iff s []).0 e)) | inr e ↦ e ],
)

module _ (F : FilePaths) (valid_glob : Str → Bool) (root : Str) where
  pattern_checks-none :
      (p : Str) → (require (pattern_checks F valid_glob p) ≡ none) ↔ IsRelative F valid_glob p
  unfolding pattern_checks
  pattern_checks-none p =
      let first = none_of (p == []) (F.is_abs p) (has_prefix p (lit "/")) in
      let second = not-true (contains (split b'/' (F.to_slash p)) (lit "..")) in
      (
        λ h.
            let (c1, r1) = (require-none _ _ _).0 h in
            let (c2, r2) = (require-none _ _ _).0 r1 in
            let (c3, _) = (require-none _ _ _).0 r2 in
            let (t, a, s) = first.0 c1 in
            record {
              has_text = (empty-false p).0 t;
              not_absolute = a;
              no_slash = s;
              no_parent = second.0 c2;
              valid = c3;
            },
        λ r. (require-none _ _ _).1 (
          first.1 ((empty-false p).1 r.has_text, r.not_absolute, r.no_slash),
          (require-none _ _ _).1
              (second.1 r.no_parent, (require-none _ _ _).1 (r.valid, require-nil)),
        ),
      )

  validate_repo_pattern-none :
      (p : Str) → (validate_repo_pattern F valid_glob p ≡ none) ↔ IsRelative F valid_glob p
  unfolding validate_repo_pattern
  validate_repo_pattern-none p = pattern_checks-none p

  commands-none :
      (set : Bool) (cs : List VerificationCommand) (m : Str)
      → ((if not set
            then none
            else if is_nil cs
            then some m
            else first_error (λ c. validate_command_cwd F valid_glob c.cwd root) cs)
          ≡ none)
        ↔ (set ≡ true
            → (cs ≢ []) × All (λ c. validate_command_cwd F valid_glob c.cwd root ≡ none) cs)
  commands-none false cs m = (λ _ h. cc, λ _. refl)
  commands-none true [] m = (λ h. cc, λ p. absurd ((p refl).0 refl))
  commands-none true (c ∷ cs) m =
      let each = first_error-none (λ c. validate_command_cwd F valid_glob c.cwd root) (c ∷ cs) in
      (λ h _. (λ e. cc, each.0 h), λ p. each.1 (p refl).1)

  All-iff :
      {A : Type 0} {P Q : A → Type 0} (xs : List A) → ((x : A) → P x ↔ Q x) → All P xs ↔ All Q xs
  All-iff [] h = (λ _. tt, λ _. tt)
  All-iff (x ∷ xs) h =
      let (there, back) = All-iff xs h in
      (λ (p, ps). ((h x).0 p, there ps), λ (q, qs). ((h x).1 q, back qs))

  -- The values are accepted exactly when each single value is supported, which leaves two models,
  -- each with one revision, and one window; when every glob stays below the root; and when commands
  -- that are set are not empty and run below the root.
  pub validate_values_iff :
      (v : Values) → (validate_values F valid_glob root v ≡ none) ↔ IsAccepted F valid_glob root v
  unfolding validate_values validate_commands
  validate_values_iff v =
      let outer = or_else-none (require (scalar_checks v)) _ in
      let inner =
        or_else-none (first_error (validate_repo_pattern F valid_glob) (v.include ++ v.exclude))
          _ in
      let globs = first_error-none (validate_repo_pattern F valid_glob) (v.include ++ v.exclude) in
      let each = All-iff (v.include ++ v.exclude) validate_repo_pattern-none in
      let commands = commands-none v.commands_set v.commands _ in
      (
        λ h.
            let (s, r) = outer.0 h in
            let (g, c) = inner.0 r in
            record {
              supported = checks-IsSupported v s;
              patterns = each.0 (globs.0 g);
              commands = commands.0 c;
            },
        λ a. outer.1 (
          IsSupported-checks v a.supported,
          inner.1 (globs.1 (each.1 a.patterns), commands.1 a.commands),
        ),
      )
