-- ===== src/Base/Str.antt =====
-- Go's strings, as byte sequences where the program walks bytes and as code points where it walks
-- runes, with the functions of package strings that the program calls. Literals are ASCII texts.
use Prim.Native.Char.{code}
use Prim.Native.String.{String}
use Prim.Native.Nat.{ℕ, zero, suc, ◌+◌, ◌-◌, ◌/◌, ◌%◌}
use mathlib.Core.Option.{Option, none, some}
use commiter_cli.Base.Lists.{length, take, drop, is_nil}
use mathlib.Core.Bool.{Bool, true, false, ◌&&◌, ◌||◌}
use mathlib.Core.List.{List, [], ◌∷◌, ◌++◌, reverse}
use native.Mathlib.Decide.{ℕ_discrete}
use commiter_cli.Base.Equality.{Eq}
use commiter_cli.Base.Tests.{eqb, leb, ltb, if◌then◌else◌}

abbrev pub Str : Type 0
Str = List ℕ

abbrev pub lit : String → Str
lit String.[] = []
lit (String.◌∷◌ c s) = code c ∷ lit s

str_dec : Discrete Str
str_dec = hlevel ℕ_discrete

instance unfoldable pub str_eq : Eq Str
unfolding str_dec ℕ_discrete
str_eq = record { dec = str_dec }

-- strings.HasPrefix
unfoldable pub has_prefix : Str → Str → Bool
has_prefix s [] = true
has_prefix [] (p ∷ ps) = false
has_prefix (c ∷ s) (p ∷ ps) = eqb c p && has_prefix s ps

-- strings.HasSuffix
unfoldable pub has_suffix : Str → Str → Bool
unfolding has_prefix
has_suffix s p = has_prefix (reverse s) (reverse p)

-- strings.Contains, bytes.Contains
unfoldable pub has_infix : Str → Str → Bool
unfolding has_prefix
has_infix [] p = has_prefix [] p
has_infix (c ∷ s) p = has_prefix (c ∷ s) p || has_infix s p

-- strings.ContainsAny, and `for _, r := range s { if test(r) { return true } }`
unfoldable pub any : (ℕ → Bool) → Str → Bool
any test [] = false
any test (c ∷ s) = test c || any test s

-- unicode.IsSpace
unfoldable pub is_space : ℕ → Bool
is_space c =
    eqb c 9
    || eqb c 10
    || eqb c 11
    || eqb c 12
    || eqb c 13
    || eqb c 32
    || eqb c 0x85
    || eqb c 0xa0
    || eqb c 0x1680
    || (leb 0x2000 c && leb c 0x200a)
    || eqb c 0x2028
    || eqb c 0x2029
    || eqb c 0x202f
    || eqb c 0x205f
    || eqb c 0x3000

unfoldable pub trim_left : (ℕ → Bool) → Str → Str
trim_left cut [] = []
trim_left cut (c ∷ s) = let rest = trim_left cut s in if cut c then rest else c ∷ s

-- strings.TrimSpace, of a sequence of code points
unfoldable pub trim_space : Str → Str
unfolding trim_left is_space
trim_space s = reverse (trim_left is_space (reverse (trim_left is_space s)))

-- The UTF-8 encoding of code points: the conversion `[]byte(s)`.
utf8_rune : ℕ → List ℕ
utf8_rune c =
    if ltb c 0x80
    then c ∷ []
    else if ltb c 0x800
    then (0xc0 + c / 64) ∷ (0x80 + c % 64) ∷ []
    else if ltb c 0x10000
    then (0xe0 + c / 4096) ∷ (0x80 + c / 64 % 64) ∷ (0x80 + c % 64) ∷ []
    else (0xf0 + c / 262144) ∷ (0x80 + c / 4096 % 64) ∷ (0x80 + c / 64 % 64) ∷ (0x80 + c % 64) ∷ []

unfoldable pub utf8 : List ℕ → List ℕ
unfolding utf8_rune
utf8 [] = []
utf8 (c ∷ s) = utf8_rune c ++ utf8 s

-- `<` of strings, the order of sort.Strings.
unfoldable pub str_lt : Str → Str → Bool
str_lt s [] = false
str_lt [] (d ∷ t) = true
str_lt (c ∷ s) (d ∷ t) = ltb c d || (eqb c d && str_lt s t)

unfoldable pub insert_sorted : Str → List Str → List Str
insert_sorted s [] = s ∷ []
insert_sorted s (t ∷ ts) = if str_lt t s then t ∷ insert_sorted s ts else s ∷ (t ∷ ts)

-- sort.Strings
unfoldable pub sort_strings : List Str → List Str
unfolding insert_sorted str_lt
sort_strings [] = []
sort_strings (s ∷ ss) = insert_sorted s (sort_strings ss)

-- strings.IndexByte and a cut there: the parts before and behind the first `sep`.
unfoldable pub cut_byte : ℕ → Str → Option (Str × Str)
cut_byte sep [] = none
cut_byte sep (c ∷ s) =
    let rest = cut_byte sep s in
    if eqb c sep then some ([], s) else elim rest [ none ↦ none | some (a, b) ↦ some (c ∷ a, b) ]

unfoldable pub prepend : ℕ → List Str → List Str
prepend c [] = (c ∷ []) ∷ []
prepend c (s ∷ ss) = (c ∷ s) ∷ ss

-- strings.Split and bytes.Split at a separator of one byte.
unfoldable pub split : ℕ → Str → List Str
unfolding prepend
split sep [] = [] ∷ []
split sep (c ∷ s) = let rest = split sep s in if eqb c sep then [] ∷ rest else prepend c rest

-- strings.SplitN at a separator of one byte: at most `n` parts.
unfoldable pub split_n : ℕ → ℕ → Str → List Str
unfolding prepend
split_n zero sep s = []
split_n (suc zero) sep s = s ∷ []
split_n (suc (suc n)) sep [] = [] ∷ []
split_n (suc (suc n)) sep (c ∷ s) =
    let cut = split_n (suc n) sep s in
    let rest = split_n (suc (suc n)) sep s in if eqb c sep then [] ∷ cut else prepend c rest

-- strings.TrimSuffix and strings.TrimPrefix
unfoldable pub trim_prefix : Str → Str → Str
unfolding has_prefix
trim_prefix s p = if has_prefix s p then drop (length p) s else s

unfoldable pub trim_suffix : Str → Str → Str
unfolding has_suffix
trim_suffix s p = if has_suffix s p then take (length s - length p) s else s

-- strings.FieldsFunc: the maximal runs of what `sep` does not hold of, none of them empty.
fields_from : (ℕ → Bool) → Str → Str → List Str
fields_from sep run [] = if is_nil run then [] else run ∷ []
fields_from sep run (c ∷ s) =
    let cut = fields_from sep [] s in
    let more = fields_from sep (run ++ (c ∷ [])) s in
    if sep c then (if is_nil run then cut else run ∷ cut) else more

unfoldable pub fields_func : (ℕ → Bool) → Str → List Str
unfolding fields_from
fields_func sep s = fields_from sep [] s
