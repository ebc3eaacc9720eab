-- ===== src/Base/Sets.antt =====
-- Go's `map[K]bool` used as a set, as the list of its keys, and the loop that fills one while it
-- refuses a bad or a repeated key.
use mathlib.Core.List.{
  Mem, mem-cons, mem-cons_self, not-mem-nil, Nodup, Nodup-cons, Perm, Subset, reverse_perm,
}
use mathlib.Core.List.Nodup
use mathlib.Core.List.Perm
use mathlib.Core.List.Subperm
use mathlib.Core.List
use mathlib.Core.Logic.Or
use native.Mathlib.Bridge.{from_ℕ, from_le⁻¹}
use commiter_cli.Base.Equality.{Eq, contains, contains-false→not_mem, not_mem→contains}
use commiter_cli.Base.Tests.{if◌then◌else◌, ◌>>=◌}
use commiter_cli.Base.Lists.{length}
use Prim.Native.Nat.{suc, ◌≤◌}
use mathlib.Core.Path.{◌≡◌, refl, ap, sym, subst, ◌∙◌}
use mathlib.Core.Bool.{Bool, false, ◌||◌, Bool-set}
use mathlib.Core.Option.{Option, none, some, some-injective}
use mathlib.Core.List.{List, [], ◌∷◌, ◌++◌, reverse}
use native.Mathlib.Omega.{arith}

from_ℕ-length {ℓ} : {A : Type ℓ} (xs : List A) → from_ℕ (List.length xs) ≡ length xs
from_ℕ-length [] = refl
from_ℕ-length (x ∷ xs) = ap suc (from_ℕ-length xs)

module _ {ℓ} {A : Type ℓ} where
  -- A list with no repetition that lies in one no longer than it is a permutation of it.
  pub perm_of_subset :
      (xs ys : List A) → Nodup xs → Subset xs ys → length ys ≤ length xs → Perm xs ys
  perm_of_subset xs ys n s l =
      Subperm.perm_of_length_le (Nodup.subperm n s)
        (from_le⁻¹ _ _ (rw (from_ℕ-length ys, from_ℕ-length xs) l))

  pub perm-length : {xs ys : List A} → Perm xs ys → length xs ≡ length ys
  perm-length {xs} {ys} p = sym (from_ℕ-length xs) ∙ ap from_ℕ (Perm.length-eq p) ∙ from_ℕ-length ys

  pub reverse_aux-perm : (xs ys : List A) → Perm (List.reverse_aux xs ys) (xs ++ ys)
  reverse_aux-perm xs ys = rw (List.reverse_aux-eq xs ys) (Perm.append_right ys (reverse_perm xs))

module _ {ℓ} {A : Type ℓ} ⦃e : Eq A⦄ where
  -- `m[k] = true`
  abbrev pub add : List A → A → List A
  add m k = if contains m k then m else k ∷ m

  -- `for _, k := range ks { if bad(k) || m[k] { fail }; m[k] = true }`
  unfoldable pub add_all : (A → Bool) → List A → List A → Option (List A)
  add_all bad [] m = some m
  add_all bad (k ∷ ks) m =
      let rest = add_all bad ks (add m k) in if bad k || contains m k then none else rest

  add_all-cons :
      (bad : A → Bool) (k : A) (ks m : List A) {r : List A}
      → add_all bad (k ∷ ks) m ≡ some r
      → (bad k ≡ false) × (contains m k ≡ false) × (add_all bad ks (k ∷ m) ≡ some r)
  unfolding add_all
  add_all-cons bad k ks m h = ground arith

  pub add_all-some :
      (bad : A → Bool) (ks m : List A) {r : List A}
      → add_all bad ks m ≡ some r
      → Nodup m
      → (r ≡ List.reverse_aux ks m) × Nodup r × ((k : A) → Mem k ks → bad k ≡ false)
  add_all-some bad [] m {r} h n =
      let same : m ≡ r = unfold add_all in some-injective _ _ h in
      (sym same, subst Nodup same n, λ k mem. absurd (not-mem-nil mem))
  add_all-some bad (k ∷ ks) m h n =
      let (good, fresh, rest) = add_all-cons bad k ks m h in
      let (shape, nodup, goods) =
        add_all-some bad ks (k ∷ m) rest (Nodup-cons.1 (contains-false→not_mem m k fresh, n)) in
      (
        shape,
        nodup,
        λ j mem. Or.elim (Bool-set _ _) (mem-cons.0 mem) (λ p. rw p good) (λ later. goods j later),
      )

  pub add_all-accepts :
      (bad : A → Bool) (ks m : List A)
      → Nodup (List.reverse_aux ks m)
      → ((k : A) → Mem k ks → bad k ≡ false)
      → add_all bad ks m ≡ some (List.reverse_aux ks m)
  unfolding add_all
  add_all-accepts bad [] m n g = refl
  add_all-accepts bad (k ∷ ks) m n g =
      let fresh : contains m k ≡ false =
        not_mem→contains m k
          (Nodup-cons.0
            (Nodup.of_append_right ks (Perm.nodup (reverse_aux-perm ks (k ∷ m)) n))).0 in
      rw (g k mem-cons_self, fresh)
        (add_all-accepts bad ks (k ∷ m) n (λ j mem. g j (mem-cons.1 (Or.inr mem))))

  pub add_all-append :
      (bad : A → Bool) (ks js m : List A)
      → add_all bad (ks ++ js) m ≡ (add_all bad ks m >>= add_all bad js)
  unfolding add_all
  add_all-append bad [] js m = refl
  add_all-append bad (k ∷ ks) js m = ground (arith, add_all-append bad ks js (add m k))
