-- ===== src/Gitstate/Sensitive.antt =====
-- internal/gitstate/sensitive.go: the sensitivity of a path, which decides before any content is read.
pub mod Policy
pub mod Names
use commiter_cli.Base.{
  ℕ, ◌+◌, ◌-◌, Bool, true, false, not, ◌&&◌, ◌||◌, List, [], ◌∷◌, ◌++◌, map, reverse, Option, none,
  some, if◌then◌else◌, ◌==◌, contains, eqb, leb, is_nil,
}
use commiter_cli.Base.Str.{Str, lit, str_eq, has_prefix, split, trim_suffix, fields_func, cut_byte}
use commiter_cli.Gitstate.Errors.{Result, ok, err, ErrorKind, ◌>>=◌}

pub data Sensitivity : Type 0 where
  not_sensitive sensitive_candidate automatically_excluded : Sensitivity

unfoldable pub candidate_tokens : List Str
candidate_tokens =
    lit "auth"
    ∷ lit "credential"
    ∷ lit "credentials"
    ∷ lit "secret"
    ∷ lit "secrets"
    ∷ lit "token"
    ∷ lit "tokens"
    ∷ lit "password"
    ∷ lit "passwd"
    ∷ []

unfoldable pub private_key_names : List Str
private_key_names = lit "id_rsa" ∷ lit "id_dsa" ∷ lit "id_ecdsa" ∷ lit "id_ed25519" ∷ []

unfoldable pub configuration_names : List Str
configuration_names = lit ".npmrc" ∷ lit ".pypirc" ∷ lit ".netrc" ∷ lit "kubeconfig" ∷ []

-- `asciiLower`, of a path in valid UTF-8.
lower_byte : ℕ → ℕ
lower_byte c = if leb b'A' c && leb c b'Z' then c + 32 else c

unfoldable pub ascii_lower : Str → Str
unfolding lower_byte
ascii_lower = map lower_byte

-- The text from the last dot on, or nothing: path.Ext of a name without a slash.
unfoldable pub ext : Str → Str
unfolding cut_byte
ext name = elim (cut_byte b'.' (reverse name)) [ none ↦ [] | some (tail, _) ↦ b'.' ∷ reverse tail ]

-- The last of the components of a path.
last_or : Str → List Str → Str
last_or d [] = d
last_or d (s ∷ ss) = last_or s ss

separator : ℕ → Bool
separator c = eqb c b'.' || eqb c b'-' || eqb c b'_'

first_token : List Str → Option Str
first_token [] = none
first_token (t ∷ ts) = if contains candidate_tokens t then some t else first_token ts

-- The loop over the components: the last one is taken without its extension.
component_token : List Str → Option Str
component_token [] = none
component_token (c ∷ []) = first_token (fields_func separator (trim_suffix c (ext c)))
component_token (c ∷ (d ∷ cs)) = elim (first_token (fields_func separator c)) [
  | some t ↦ some t
  | none ↦ component_token (d ∷ cs)
]

-- doublestar.PathMatch, a pattern and a path: `none` for a bad pattern.
abbrev pub Glob : Type 0
Glob = Str → Str → Option Bool

unfoldable pub matches_additional : Glob → List Str → Str → Result Bool
matches_additional glob [] path = ok false
matches_additional glob (p ∷ ps) path = elim (glob p path) [
  | none ↦ err ErrorKind.usage (lit "invalid additional sensitive pattern")
  | some true ↦ ok true
  | some false ↦ matches_additional glob ps path
]

-- `classifySensitive` after the additional patterns.
unfoldable pub classify_name : Str → Sensitivity × Str
unfolding component_token first_token separator last_or
classify_name path =
    let lower = ascii_lower path in
    let components = split b'/' lower in
    let base = last_or [] components in
    if base == lit ".env" || has_prefix base (lit ".env.")
    then (automatically_excluded, lit "environment file")
    else if ext base == lit ".pem" || ext base == lit ".key"
    then (automatically_excluded, lit "private key file extension")
    else if contains private_key_names base
    then (automatically_excluded, lit "known SSH private key name")
    else if contains configuration_names base || lower == lit ".docker/config.json"
    then (sensitive_candidate, lit "known credential-bearing configuration path")
    else elim (component_token components) [
      | some token ↦ (sensitive_candidate, lit "path component contains sensitive token " ++ token)
      | none ↦ (not_sensitive, [])
    ]

unfoldable pub classify_sensitive : Glob → Str → List Str → Result (Sensitivity × Str)
unfolding classify_name
classify_sensitive glob path additional = matches_additional glob additional path >>= λ matched.
    if matched
    then ok (automatically_excluded, lit "matches an additional sensitive pattern")
    else ok (classify_name path)

-- `ContentReadAllowed`
unfoldable pub content_read_allowed : Glob → Str → List Str → Bool → Result Bool
unfolding classify_sensitive
content_read_allowed glob path additional approved =
    classify_sensitive glob path additional >>= λ found. elim found.0 [
      | not_sensitive ↦ ok true
      | sensitive_candidate ↦ ok approved
      | automatically_excluded ↦ ok false
    ]

abbrev pub rank : Sensitivity → ℕ
rank not_sensitive = 0
rank sensitive_candidate = 1
rank automatically_excluded = 2

-- One path of the loop of `classifyChangePaths` (internal/gitstate/collect.go).
raise_level : Glob → List Str → Option Str → Sensitivity × Str → Result (Sensitivity × Str)
raise_level glob additional none found = ok found
raise_level glob additional (some path) found = classify_sensitive glob path additional >>= λ new.
    ok (if leb (rank new.0) (rank found.0) then found else new)

-- `classifyChangePaths`
unfoldable pub classify_change_paths :
    Glob → List Str → Option Str → Option Str → Result (Sensitivity × Str)
unfolding raise_level
classify_change_paths glob additional old_path new_path =
    raise_level glob additional old_path (not_sensitive, [])
    >>= raise_level glob additional new_path
