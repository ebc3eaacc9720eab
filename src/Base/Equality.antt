-- ===== src/Base/Equality.antt =====
-- `==` for every type whose equality is decidable, and membership in a list by it.
use mathlib.Core.Path.{◌≡◌, refl, ap}
use mathlib.Core.Logic.{◌↔◌, ite, dite, inl, inr}
use mathlib.Core.Logic.Or
use mathlib.Core.Bool.{Bool, true, false, ◌||◌, Bool-set}
use mathlib.Core.Option.{Option, none, some, none-ne-some, some-ne-none, some-injective}
use mathlib.Core.List.{List, [], ◌∷◌, Mem, not-mem-nil, mem-cons}
use native.Mathlib.Omega.{arith}
use commiter_cli.Base.Tests.{Bool-cases}

pub record Eq {ℓ} (A : Type ℓ) : Type ℓ where
  pub dec : Discrete A

module _ {ℓ} {A : Type ℓ} ⦃e : Eq A⦄ where
  infix 50 ◌==◌
  abbrev pub ◌==◌ : A → A → Bool
  a == b = ite (e.dec a b) true false

  abbrev pub contains : List A → A → Bool
  contains [] a = false
  contains (x ∷ xs) a = a == x || contains xs a

  pub ==_iff : (a b : A) → ((a == b) ≡ true) ↔ (a ≡ b)
  ==_iff a b = ground arith

  pub ==_refl : (a : A) → (a == a) ≡ true
  ==_refl a = (==_iff a a).1 refl

  pub ne→== : (a b : A) → ¬ (a ≡ b) → (a == b) ≡ false
  ne→== a b n = ground arith

  pub contains→Mem : (xs : List A) (a : A) → contains xs a ≡ true → Mem a xs
  contains→Mem [] a h = cc
  contains→Mem (x ∷ xs) a h = elim (e.dec a x) [
    | yes p ↦ mem-cons.1 (Or.inl p)
    | no n ↦ mem-cons.1 (Or.inr (contains→Mem xs a (ground arith)))
  ]

  pub Mem→contains : (xs : List A) (a : A) → Mem a xs → contains xs a ≡ true
  Mem→contains [] a h = absurd (not-mem-nil h)
  Mem→contains (x ∷ xs) a h =
      Or.elim (Bool-set _ _) (mem-cons.0 h) (λ p. ground arith)
        (λ m. ground (arith, Mem→contains xs a m))

  pub contains-false→not_mem : (xs : List A) (a : A) → contains xs a ≡ false → ¬ Mem a xs
  contains-false→not_mem xs a h m = cc (Mem→contains xs a m)

  pub not_mem→contains : (xs : List A) (a : A) → ¬ Mem a xs → contains xs a ≡ false
  not_mem→contains xs a n = elim (Bool-cases (contains xs a)) [
    | inl h ↦ absurd (n (contains→Mem xs a h))
    | inr h ↦ h
  ]

  option_dec : Discrete (Option A)
  option_dec none none = yes refl
  option_dec none (some b) = no (none-ne-some b)
  option_dec (some a) none = no (some-ne-none a)
  option_dec (some a) (some b) =
      dite (e.dec a b) (λ p. yes (ap some p)) (λ n. no (λ p. n (some-injective a b p)))

  instance unfoldable pub option_eq : Eq (Option A)
  unfolding option_dec
  option_eq = record { dec = option_dec }
