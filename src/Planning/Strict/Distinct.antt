-- ===== src/Planning/Strict/Distinct.antt =====
-- internal/planning/three_phase.go: what the check of the keys decides.
use mathlib.Core.List.{Mem, mem-cons, mem-cons_self, not-mem-nil, Nodup, Nodup-nil, Nodup-cons}
use mathlib.Core.Logic.Or
use mathlib.Core.Path.{subst}
use commiter_cli.Base.{
  ◌≡◌, refl, Bool, true, false, not, ◌&&◌, List, [], ◌∷◌, contains, ◌↔◌, contains-false→not_mem,
  not_mem→contains,
}
use commiter_cli.Base.Str.{Str, str_eq}
use commiter_cli.Planning.Strict.{
  JsonTree, json_scalar, json_array, json_object, Elements, no_elements, element, Members,
  no_members, member, walk, walk_elements, walk_members,
}

-- The keys of an object, in order.
abbrev member_keys : Members → List Str
member_keys no_members = []
member_keys (member key t ms) = key ∷ member_keys ms

-- At every depth, the keys of an object are distinct.
unfoldable mutual
  pub HasDistinctKeys : JsonTree → Type 0
  HasDistinctKeys json_scalar = Unit
  HasDistinctKeys (json_array xs) = AllDistinct xs
  HasDistinctKeys (json_object ms) = Nodup (member_keys ms) × EachDistinct ms

  pub AllDistinct : Elements → Type 0
  AllDistinct no_elements = Unit
  AllDistinct (element t xs) = HasDistinctKeys t × AllDistinct xs

  pub EachDistinct : Members → Type 0
  EachDistinct no_members = Unit
  EachDistinct (member key t ms) = HasDistinctKeys t × EachDistinct ms

-- No key of the object is among those seen, and they are distinct.
abbrev IsFresh : List Str → Members → Type 0
IsFresh seen ms = Nodup (member_keys ms) × ((k : Str) → Mem k (member_keys ms) → ¬ Mem k seen)

and-true : (a b : Bool) → (a && b) ≡ true → (a ≡ true) × (b ≡ true)
and-true true b h = (refl, h)
and-true false b h = cc

not-true : (a : Bool) → not a ≡ true → a ≡ false
not-true false h = refl
not-true true h = cc

IsFresh-cons :
    (seen : List Str) (key : Str) (t : JsonTree) (ms : Members)
    → contains seen key ≡ false
    → IsFresh (key ∷ seen) ms
    → IsFresh seen (member key t ms)
IsFresh-cons seen key t ms new (distinct, fresh) = (
  Nodup-cons.1 (λ m. fresh key m mem-cons_self, distinct),
  λ k m s.
      Or.elim (λ a. absurd a) (mem-cons.0 m)
        (λ p. contains-false→not_mem seen key new (subst (λ x. Mem x seen) p s))
        (λ later. fresh k later (mem-cons.1 (Or.inr s))),
)

IsFresh-tail :
    (seen : List Str) (key : Str) (t : JsonTree) (ms : Members)
    → IsFresh seen (member key t ms)
    → IsFresh (key ∷ seen) ms
IsFresh-tail seen key t ms (distinct, fresh) = (
  (Nodup-cons.0 distinct).1,
  λ k m s.
      Or.elim (λ a. absurd a) (mem-cons.0 s)
        (λ p. (Nodup-cons.0 distinct).0 (subst (λ x. Mem x (member_keys ms)) p m))
        (λ old. fresh k (mem-cons.1 (Or.inr m)) old),
)

mutual
  unfolding HasDistinctKeys walk

  walk-HasDistinctKeys : (t : JsonTree) → walk t ≡ true → HasDistinctKeys t
  walk-HasDistinctKeys json_scalar h = tt
  walk-HasDistinctKeys (json_array xs) h = walk_elements-AllDistinct xs h
  walk-HasDistinctKeys (json_object ms) h = let r = walk_members-IsFresh [] ms h in (r.0.0, r.1)

  walk_elements-AllDistinct : (xs : Elements) → walk_elements xs ≡ true → AllDistinct xs
  walk_elements-AllDistinct no_elements h = tt
  walk_elements-AllDistinct (element t xs) h =
      let r = and-true (walk t) (walk_elements xs) h in
      (walk-HasDistinctKeys t r.0, walk_elements-AllDistinct xs r.1)

  walk_members-IsFresh :
      (seen : List Str) (ms : Members)
      → walk_members seen ms ≡ true
      → IsFresh seen ms × EachDistinct ms
  walk_members-IsFresh seen no_members h = ((Nodup-nil, λ k m. absurd (not-mem-nil m)), tt)
  walk_members-IsFresh seen (member key t ms) h =
      let a = and-true (not (contains seen key)) (walk t && walk_members (key ∷ seen) ms) h in
      let b = and-true (walk t) (walk_members (key ∷ seen) ms) a.1 in
      let r = walk_members-IsFresh (key ∷ seen) ms b.1 in
      (
        IsFresh-cons seen key t ms (not-true (contains seen key) a.0) r.0,
        (walk-HasDistinctKeys t b.0, r.1),
      )

mutual
  unfolding HasDistinctKeys walk

  HasDistinctKeys-walk : (t : JsonTree) → HasDistinctKeys t → walk t ≡ true
  HasDistinctKeys-walk json_scalar h = refl
  HasDistinctKeys-walk (json_array xs) h = AllDistinct-walk_elements xs h
  HasDistinctKeys-walk (json_object ms) h =
      IsFresh-walk_members [] ms (h.0, λ k m s. not-mem-nil s) h.1

  AllDistinct-walk_elements : (xs : Elements) → AllDistinct xs → walk_elements xs ≡ true
  AllDistinct-walk_elements no_elements h = refl
  AllDistinct-walk_elements (element t xs) h =
      rw (HasDistinctKeys-walk t h.0) (AllDistinct-walk_elements xs h.1)

  IsFresh-walk_members :
      (seen : List Str) (ms : Members)
      → IsFresh seen ms
      → EachDistinct ms
      → walk_members seen ms ≡ true
  IsFresh-walk_members seen no_members f h = refl
  IsFresh-walk_members seen (member key t ms) f h =
      rw (not_mem→contains seen key (f.1 key mem-cons_self), HasDistinctKeys-walk t h.0)
        (IsFresh-walk_members (key ∷ seen) ms (IsFresh-tail seen key t ms f) h.1)

-- An answer passes the walk exactly when the keys of each of its objects, at every depth, are
-- distinct.
pub walk_iff : (t : JsonTree) → (walk t ≡ true) ↔ HasDistinctKeys t
walk_iff t = (walk-HasDistinctKeys t, HasDistinctKeys-walk t)
