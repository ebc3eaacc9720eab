-- ===== src/Updatecheck/Version.antt =====
-- internal/updatecheck/updatecheck.go: `parseVersion`, `compare` and `newer`.
use commiter_cli.Base.{
  ℕ, Bool, true, false, not, ◌&&◌, ◌||◌, List, [], ◌∷◌, Option, none, some, ltb, leb, eqb,
  if◌then◌else◌, ◌==◌, is_nil,
}
use commiter_cli.Base.Int.{ℤ, pos, negsuc}
use commiter_cli.Base.Str.{Str, lit, str_eq, str_lt, trim_prefix, cut_byte, split, split_n, any}
use commiter_cli.Base.Atoi.{atoi, digit}

pub record SemanticVersion : Type 0 where
  pub major : ℤ
  pub minor : ℤ
  pub patch : ℤ
  pub prerelease : List Str

identifier_byte : ℕ → Bool
identifier_byte c =
    digit c || (leb b'A' c && leb c b'Z') || (leb b'a' c && leb c b'z') || eqb c b'-'

every : (ℕ → Bool) → Str → Bool
every test s = not (any (λ c. not (test c)) s)

-- `0|[1-9][0-9]*`
numeric : Str → Bool
unfolding every digit
numeric [] = false
numeric (c ∷ s) = (eqb c b'0' && is_nil s) || (not (eqb c b'0') && every digit (c ∷ s))

-- `[0-9A-Za-z-]+(?:\.[0-9A-Za-z-]+)*`
all_identifiers : List Str → Bool
all_identifiers [] = true
all_identifiers (s ∷ ss) = not (is_nil s) && every identifier_byte s && all_identifiers ss

identifiers : Str → Bool
identifiers s = all_identifiers (split b'.' s)

-- A text before the first `sep`, and what is behind it when there is one.
cut : ℕ → Str → Str × Option Str
cut sep s = elim (cut_byte sep s) [ none ↦ (s, none) | some (a, b) ↦ (a, some b) ]

absent_or : (Str → Bool) → Option Str → Bool
absent_or test none = true
absent_or test (some s) = test s

-- `versionPattern`: build metadata is behind the first plus, which nothing before it may hold, and
-- the prerelease is behind the first dash before that, which no number may hold.
version_pattern : Str → Bool
version_pattern value =
    let build = cut b'+' (trim_prefix value (lit "v")) in
    let pre = cut b'-' build.0 in
    absent_or identifiers build.1 && absent_or identifiers pre.1 && elim (split b'.' pre.0) [
      | a ∷ (b ∷ (c ∷ [])) ↦ numeric a && numeric b && numeric c
      | _ ↦ false
    ]

number_part : Str → Option ℤ
number_part part = atoi (cut b'+' (cut b'-' part).0).0

-- `len(identifier) > 1 && identifier[0] == '0' && strings.Trim(identifier, "0123456789") == ""`,
-- where nothing is left of a trim exactly when every byte is in the cut set.
leading_zero : Str → Bool
leading_zero (c ∷ (d ∷ s)) = eqb c b'0' && every digit (c ∷ (d ∷ s))
leading_zero _ = false

any_identifier : (Str → Bool) → List Str → Bool
any_identifier test [] = false
any_identifier test (s ∷ ss) = test s || any_identifier test ss

-- The identifiers of the third part, and whether none of them has a leading zero.
prerelease_of : Str → List Str × Bool
prerelease_of part = elim (cut b'-' part).1 [
  | none ↦ ([], true)
  | some text ↦
      let found = split b'.' (cut b'+' text).0 in (found, not (any_identifier leading_zero found))
]

abbrev version : ℤ → ℤ → ℤ → List Str → SemanticVersion
version a b c p = record { major = a; minor = b; patch = c; prerelease = p }

unfoldable pub zero_version : SemanticVersion
zero_version = version (pos 0) (pos 0) (pos 0) []

parse_parts : Str → Str → Str → SemanticVersion × Bool
parse_parts a b c = elim (number_part a) [
  | none ↦ (zero_version, false)
  | some major ↦ elim (number_part b) [
    | none ↦ (version major (pos 0) (pos 0) [], false)
    | some minor ↦ elim (number_part c) [
      | none ↦ (version major minor (pos 0) [], false)
      | some patch ↦ let found = prerelease_of c in (version major minor patch found.0, found.1)
    ]
  ]
]

-- `parseVersion`: what it returns, and whether without an error. Beside an error stands what was
-- read before it, which `newer` compares all the same.
unfoldable pub parse_version : Str → SemanticVersion × Bool
unfolding version_pattern absent_or cut identifiers all_identifiers identifier_byte numeric every
    digit number_part prerelease_of any_identifier leading_zero parse_parts zero_version
parse_version value =
    if not (version_pattern value)
    then (zero_version, false)
    else elim (split_n 3 b'.' (trim_prefix value (lit "v"))) [
      | a ∷ (b ∷ (c ∷ [])) ↦ parse_parts a b c
      | _ ↦ (zero_version, false)
    ]

-- The sign of Go's result: -1, 0 or 1.
pub data Order : Type 0 where
  less equal greater : Order

unfoldable pub flip : Order → Order
flip less = greater
flip equal = equal
flip greater = less

unfoldable pub compare_nat : ℕ → ℕ → Order
compare_nat m n = if ltb m n then less else if ltb n m then greater else equal

unfoldable pub compare_int : ℤ → ℤ → Order
unfolding compare_nat
compare_int (pos m) (pos n) = compare_nat m n
compare_int (pos m) (negsuc n) = greater
compare_int (negsuc m) (pos n) = less
compare_int (negsuc m) (negsuc n) = compare_nat n m

unfoldable pub compare_text : Str → Str → Order
compare_text l r = if l == r then equal else if str_lt r l then greater else less

-- The first comparison that decides.
unfoldable pub or_else : Order → Order → Order
or_else equal o = o
or_else less o = less
or_else greater o = greater

-- Numbers before texts, and numbers by their values when these differ.
unfoldable pub by_number : Option ℤ → Option ℤ → Order → Order
unfolding compare_int or_else
by_number (some m) (some n) text = or_else (compare_int m n) text
by_number (some m) none text = less
by_number none (some n) text = greater
by_number none none text = text

-- One round of the loop over the identifiers, `equal` when it goes on.
unfoldable pub compare_identifier : Str → Str → Order
unfolding by_number compare_text
compare_identifier l r = by_number (atoi l) (atoi r) (compare_text l r)

-- The loop over the identifiers, and the comparison of the lengths behind it.
unfoldable pub compare_identifiers : List Str → List Str → Order
unfolding compare_identifier or_else
compare_identifiers [] [] = equal
compare_identifiers [] (r ∷ rs) = less
compare_identifiers (l ∷ ls) [] = greater
compare_identifiers (l ∷ ls) (r ∷ rs) = or_else (compare_identifier l r) (compare_identifiers ls rs)

-- A version without a prerelease is behind every prerelease of it.
unfoldable pub compare_prerelease : List Str → List Str → Order
unfolding compare_identifiers
compare_prerelease [] [] = equal
compare_prerelease [] (r ∷ rs) = greater
compare_prerelease (l ∷ ls) [] = less
compare_prerelease (l ∷ ls) (r ∷ rs) = compare_identifiers (l ∷ ls) (r ∷ rs)

-- `compare`
unfoldable pub compare : SemanticVersion → SemanticVersion → Order
unfolding compare_int or_else compare_prerelease
compare l r = or_else (compare_int l.major r.major) (
    or_else (compare_int l.minor r.minor)
      (or_else (compare_int l.patch r.patch) (compare_prerelease l.prerelease r.prerelease)))

unfoldable pub when_greater : Order → Str → Str
when_greater greater s = s
when_greater less s = []
when_greater equal s = []

-- `newer`
unfoldable pub newer : Str → Str → Str
newer current latest =
    when_greater (compare (parse_version latest).0 (parse_version current).0) latest
