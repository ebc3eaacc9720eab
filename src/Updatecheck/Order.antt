-- ===== src/Updatecheck/Order.antt =====
-- internal/updatecheck/updatecheck.go: `compare` orders versions, so no two are newer than each other.
use commiter_cli.Base.{ℕ, not, List, [], ◌∷◌, Option, none, some, ◌≡◌, refl, ap, arith}
use commiter_cli.Base.Int.{ℤ, pos, negsuc}
use commiter_cli.Base.Str.{Str, str_eq, str_lt}
use commiter_cli.Base.Atoi.{atoi}
use commiter_cli.Updatecheck.Version.{
  Order, less, equal, greater, flip, compare_nat, compare_int, compare_text, compare_identifier,
  or_else, compare_identifiers, compare_prerelease, compare, SemanticVersion, when_greater,
  by_number, newer, parse_version,
}

or_else-flip : (a b c d : Order) → b ≡ flip a → d ≡ flip c → or_else b d ≡ flip (or_else a c)
unfolding or_else flip
or_else-flip less b c d p q = ground arith
or_else-flip equal b c d p q = ground arith
or_else-flip greater b c d p q = ground arith

compare_nat-flip : (m n : ℕ) → compare_nat n m ≡ flip (compare_nat m n)
unfolding compare_nat flip
compare_nat-flip m n = ground arith

compare_int-flip : (m n : ℤ) → compare_int n m ≡ flip (compare_int m n)
unfolding compare_int flip
compare_int-flip (pos m) (pos n) = compare_nat-flip m n
compare_int-flip (pos m) (negsuc n) = refl
compare_int-flip (negsuc m) (pos n) = refl
compare_int-flip (negsuc m) (negsuc n) = compare_nat-flip n m

-- Of two different texts exactly one is before the other.
str_lt-total : (s t : Str) → ¬ (s ≡ t) → str_lt t s ≡ not (str_lt s t)
unfolding str_lt
str_lt-total [] [] n = absurd (n refl)
str_lt-total [] (d ∷ t) n = refl
str_lt-total (c ∷ s) [] n = refl
str_lt-total (c ∷ s) (d ∷ t) n = ground (arith, str_lt-total s t)

compare_text-flip : (l r : Str) → compare_text r l ≡ flip (compare_text l r)
unfolding compare_text flip
compare_text-flip l r = ground (arith, str_lt-total l r)

by_number-flip :
    (p q : Option ℤ) (o o' : Order) → o' ≡ flip o → by_number q p o' ≡ flip (by_number p q o)
unfolding by_number
by_number-flip (some m) (some n) o o' h = or_else-flip _ _ _ _ (compare_int-flip m n) h
by_number-flip (some m) none o o' h = unfold flip in refl
by_number-flip none (some n) o o' h = unfold flip in refl
by_number-flip none none o o' h = h

compare_identifier-flip : (l r : Str) → compare_identifier r l ≡ flip (compare_identifier l r)
unfolding compare_identifier
compare_identifier-flip l r = by_number-flip (atoi l) (atoi r) _ _ (compare_text-flip l r)

compare_identifiers-flip :
    (l r : List Str) → compare_identifiers r l ≡ flip (compare_identifiers l r)
unfolding compare_identifiers flip
compare_identifiers-flip [] [] = refl
compare_identifiers-flip [] (r ∷ rs) = refl
compare_identifiers-flip (l ∷ ls) [] = refl
compare_identifiers-flip (l ∷ ls) (r ∷ rs) =
    or_else-flip _ _ _ _ (compare_identifier-flip l r) (compare_identifiers-flip ls rs)

compare_prerelease-flip : (l r : List Str) → compare_prerelease r l ≡ flip (compare_prerelease l r)
unfolding compare_prerelease flip
compare_prerelease-flip [] [] = refl
compare_prerelease-flip [] (r ∷ rs) = refl
compare_prerelease-flip (l ∷ ls) [] = refl
compare_prerelease-flip (l ∷ ls) (r ∷ rs) = compare_identifiers-flip (l ∷ ls) (r ∷ rs)

-- To compare two versions the other way around gives the opposite sign, prereleases included.
pub compare-flip : (l r : SemanticVersion) → compare r l ≡ flip (compare l r)
unfolding compare
compare-flip l r = or_else-flip _ _ _ _ (compare_int-flip l.major r.major) (
    or_else-flip _ _ _ _ (compare_int-flip l.minor r.minor) (
      or_else-flip _ _ _ _ (compare_int-flip l.patch r.patch)
        (compare_prerelease-flip l.prerelease r.prerelease)))

one_way :
    (o o' : Order) → o' ≡ flip o → (a b : Str) → ¬ (when_greater o' b ≡ []) → when_greater o a ≡ []
unfolding when_greater flip
one_way less o' e a b h = refl
one_way equal o' e a b h = refl
one_way greater o' e a b h = absurd (h (ap (λ o. when_greater o b) e))

-- When one version is reported as newer than another, the other is not reported as newer than it.
pub newer-asymmetric : (a b : Str) → ¬ (newer a b ≡ []) → newer b a ≡ []
unfolding newer
newer-asymmetric a b h =
    one_way (compare (parse_version a).0 (parse_version b).0) _
      (compare-flip (parse_version a).0 (parse_version b).0) a b h
