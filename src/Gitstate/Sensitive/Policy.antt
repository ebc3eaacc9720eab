-- ===== src/Gitstate/Sensitive/Policy.antt =====
-- internal/gitstate/sensitive.go: when the content of a path may be read.
use commiter_cli.Base.{◌≤◌, Bool, true, false, ◌↔◌, Option, none, some, List, ◌≡◌, refl, ap, sym}
use mathlib.Core.Path.{subst}
use commiter_cli.Base.{arith, [], leb→le, leb, if◌then◌else◌}
use commiter_cli.Base.Str.{Str}
use commiter_cli.Gitstate.Errors.{Result, ok, err, ◌>>=◌, ok-injective}
use commiter_cli.Gitstate.Sensitive.{
  Sensitivity, not_sensitive, sensitive_candidate, automatically_excluded, Glob, rank,
  classify_sensitive, content_read_allowed, classify_change_paths, raise_level,
}
use native.Mathlib.Omega.{arith}

-- What `content_read_allowed` asks of a class and an approval.
unfoldable pub MayRead : Sensitivity → Bool → Type 0
MayRead not_sensitive approved = Unit
MayRead sensitive_candidate approved = approved ≡ true
MayRead automatically_excluded approved = ⊥

class_of : Result (Sensitivity × Str) → Sensitivity
class_of (ok c) = c.0
class_of (err k m) = not_sensitive

verdict :
    (r : Result (Sensitivity × Str)) (approved : Bool)
    → ((r >>= λ found. elim found.0 [
      | not_sensitive ↦ ok true
      | sensitive_candidate ↦ ok approved
      | automatically_excluded ↦ ok false
    ])
        ≡ ok true)
      ↔ ((c : Sensitivity × Str) × (r ≡ ok c) × MayRead c.0 approved)
unfolding MayRead class_of
verdict (err k m) approved = (λ h. cc, λ (c, h, m). cc)
verdict (ok (not_sensitive, s)) approved = (λ h. ((not_sensitive, s), refl, tt), λ _. refl)
verdict (ok (sensitive_candidate, s)) true =
    (λ h. ((sensitive_candidate, s), refl, refl), λ _. refl)
verdict (ok (sensitive_candidate, s)) false =
    (λ h. cc, λ (c, h, m). ap ok (subst (λ l. MayRead l false) (ap class_of (sym h)) m))
verdict (ok (automatically_excluded, s)) approved =
    (λ h. cc, λ (c, h, m). absurd (subst (λ l. MayRead l approved) (ap class_of (sym h)) m))

-- The content of a path may be read exactly when the path is classified, as not sensitive or as a
-- candidate that the user approved: no approval opens what is excluded automatically.
pub content_read_allowed_iff :
    (glob : Glob) (path : Str) (additional : List Str) (approved : Bool)
    → content_read_allowed glob path additional approved ≡ ok true ↔ (
        (c : Sensitivity × Str) × (classify_sensitive glob path additional ≡ ok c)
        × MayRead c.0 approved)
unfolding content_read_allowed
content_read_allowed_iff glob path additional approved =
    verdict (classify_sensitive glob path additional) approved

-- The level of every path of a change that is present is at most the level found for the change.
pub Bounded : Glob → List Str → Option Str → Sensitivity × Str → Type 0
Bounded glob additional none found = Unit
Bounded glob additional (some path) found =
    (c : Sensitivity × Str) × (classify_sensitive glob path additional ≡ ok c)
    × (rank c.0 ≤ rank found.0)

module _ (glob : Glob) (additional : List Str) where
  Bounded-mono :
      (path : Option Str) (f g : Sensitivity × Str)
      → Bounded glob additional path f
      → rank f.0 ≤ rank g.0
      → Bounded glob additional path g
  unfolding Bounded
  Bounded-mono none f g b h = tt
  Bounded-mono (some path) f g (c, e, b) h = (c, e, omega (arith, b, h))

  raised :
      (r : Result (Sensitivity × Str)) (f g : Sensitivity × Str)
      → (r >>= λ new. ok (if leb (rank new.0) (rank f.0) then f else new)) ≡ ok g
      → ((c : Sensitivity × Str) × (r ≡ ok c) × (rank c.0 ≤ rank g.0)) × (rank f.0 ≤ rank g.0)
  raised (err k m) f g h = cc
  raised (ok new) f g h = ((new, refl, bounds.0), bounds.1)
    where
      higher :
          (b : Bool)
          → leb (rank new.0) (rank f.0) ≡ b
          → (if b then f else new) ≡ g
          → (rank new.0 ≤ rank g.0) × (rank f.0 ≤ rank g.0)
      higher true e p =
          let q = ap (λ c. rank c.0) p in
          (omega (arith, leb→le (rank new.0) (rank f.0) e, q), omega (arith, q))
      higher false e p = let q = ap (λ c. rank c.0) p in (omega (arith, q), ground arith)

      bounds : (rank new.0 ≤ rank g.0) × (rank f.0 ≤ rank g.0)
      bounds = higher (leb (rank new.0) (rank f.0)) refl (ok-injective _ _ h)

  raise_level-Bounded :
      (path : Option Str) (f g : Sensitivity × Str)
      → raise_level glob additional path f ≡ ok g
      → Bounded glob additional path g × (rank f.0 ≤ rank g.0)
  unfolding raise_level Bounded
  raise_level-Bounded none f g h = (tt, omega (arith, ap (λ c. rank c.0) (ok-injective _ _ h)))
  raise_level-Bounded (some path) f g h = raised (classify_sensitive glob path additional) f g h

-- When the classification of a change succeeds, each of its paths that is present is classified,
-- and the change is at least as sensitive as that path: a rename to a harmless name does not lower
-- the level.
pub classify_change_paths-Bounded :
    (glob : Glob) (additional : List Str) (old_path new_path : Option Str)
    (found : Sensitivity × Str)
    → classify_change_paths glob additional old_path new_path ≡ ok found
    → Bounded glob additional old_path found × Bounded glob additional new_path found
unfolding classify_change_paths
classify_change_paths-Bounded glob additional old_path new_path found h =
    go (raise_level glob additional old_path (not_sensitive, [])) refl h
  where
    go :
        (r : Result (Sensitivity × Str))
        → raise_level glob additional old_path (not_sensitive, []) ≡ r
        → (r >>= raise_level glob additional new_path) ≡ ok found
        → Bounded glob additional old_path found × Bounded glob additional new_path found
    go (err k m) e p = cc
    go (ok f) e p =
        let old = raise_level-Bounded glob additional old_path (not_sensitive, []) f e in
        let new = raise_level-Bounded glob additional new_path f found p in
        (Bounded-mono glob additional old_path f found old.0 new.1, new.0)
