-- ===== src/Gitstate/RepoPath.antt =====
-- internal/gitstate/status.go: `normalizeRepoPath`, over path.Clean and utf8.ValidString.
pub mod Elements
pub mod Inside
use commiter_cli.Base.{
  ℕ, ◌+◌, ◌-◌, Bool, true, false, not, ◌&&◌, ◌||◌, List, [], ◌∷◌, ◌++◌, reverse, if◌then◌else◌,
  ◌==◌, zero, suc, Option, none, some, eqb, leb, ltb, is_nil,
}
use commiter_cli.Base.Str.{Str, lit, str_eq, has_prefix, split, any}
use commiter_cli.Gitstate.Errors.{Result, ok, err, ErrorKind}

abbrev between : ℕ → ℕ → ℕ → Bool
between lo hi c = leb lo c && leb c hi

abbrev tail_byte : ℕ → Bool
tail_byte = between 0x80 0xbf

-- What a byte may begin, by the bytes that must follow it: the ranges of package utf8.
pub data Lead : Type 0 where
  single : Lead
  two : Lead
  three : ℕ → ℕ → Lead
  four : ℕ → ℕ → Lead
  bad : Lead

lead : ℕ → Lead
lead a =
    if ltb a 0x80
    then single
    else if between 0xc2 0xdf a
    then two
    else if eqb a 0xe0
    then three 0xa0 0xbf
    else if eqb a 0xed
    then three 0x80 0x9f
    else if between 0xe1 0xef a
    then three 0x80 0xbf
    else if eqb a 0xf0
    then four 0x90 0xbf
    else if eqb a 0xf4
    then four 0x80 0x8f
    else if between 0xf1 0xf3 a
    then four 0x80 0xbf
    else bad

-- The bytes that are still awaited: the range of the next one, and how many follow it.
pub record Awaited : Type 0 where
  pub lo : ℕ
  pub hi : ℕ
  pub more : ℕ

-- utf8.ValidString
valid_from : Option Awaited → Str → Bool
valid_from none [] = true
valid_from (some _) [] = false
valid_from none (a ∷ s) = elim (lead a) [
  | single ↦ valid_from none s
  | two ↦ valid_from (some (record { lo = 0x80; hi = 0xbf; more = 0 })) s
  | three lo hi ↦ valid_from (some (record { lo = lo; hi = hi; more = 1 })) s
  | four lo hi ↦ valid_from (some (record { lo = lo; hi = hi; more = 2 })) s
  | bad ↦ false
]
valid_from (some w) (a ∷ s) = elim (between w.lo w.hi a) [
  | false ↦ false
  | true ↦ elim w.more [
    | zero ↦ valid_from none s
    | suc n ↦ valid_from (some (record { lo = 0x80; hi = 0xbf; more = n })) s
  ]
]

unfoldable pub valid_utf8 : Str → Bool
unfolding valid_from lead
valid_utf8 s = valid_from none s

-- What `..` does to the kept elements, the last one first: `rooted` drops it at the root.
push_parent : Bool → List Str → List Str
push_parent rooted [] = if rooted then [] else lit ".." ∷ []
push_parent rooted (top ∷ below) = if top == lit ".." then lit ".." ∷ (top ∷ below) else below

-- The elements that path.Clean keeps.
push_element : Bool → List Str → Str → List Str
unfolding push_parent
push_element rooted kept e =
    if is_nil e || e == lit "."
    then kept
    else if not (e == lit "..")
    then e ∷ kept
    else push_parent rooted kept

push_elements : Bool → List Str → List Str → List Str
push_elements rooted kept [] = kept
push_elements rooted kept (e ∷ es) = push_elements rooted (push_element rooted kept e) es

-- strings.Join with a slash
unfoldable pub join : List Str → Str
join [] = []
join (e ∷ []) = e
join (e ∷ (f ∷ es)) = e ++ (b'/' ∷ join (f ∷ es))

unfoldable pub clean_elements : Bool → Str → List Str
unfolding push_elements push_element push_parent
clean_elements rooted s = reverse (push_elements rooted [] (split b'/' s))

-- path.Clean
unfoldable pub clean : Str → Str
unfolding clean_elements join
clean s =
    let rooted = has_prefix s (lit "/") in
    let text = join (clean_elements rooted s) in
    if rooted then b'/' ∷ text else if is_nil text then lit "." else text

-- `normalizeRepoPath`
unfoldable pub normalize_repo_path : Str → Result Str
unfolding clean valid_utf8
normalize_repo_path value =
    if is_nil value || not (valid_utf8 value) || any (λ c. eqb c 0) value
    then err ErrorKind.safety (lit "Git returned an invalid repository path")
    else let normalized = clean value in
      if normalized == lit "."
        || normalized == lit ".."
        || has_prefix normalized (lit "../")
        || has_prefix normalized (lit "/")
      then err ErrorKind.safety (lit "Git returned a path outside the repository")
      else ok normalized
