-- ===== src/Gitstate/Sensitive/Names.antt =====
-- internal/gitstate/sensitive.go: the names that hide a file wherever it lies and however they are
-- written.
use mathlib.Core.List
use mathlib.Core.Path.{subst}
use commiter_cli.Base.{
  ℕ, Bool, true, false, ◌||◌, List, [], ◌∷◌, ◌++◌, Option, none, some, ◌≡◌, ◌≢◌, ◌⊎◌, inl, inr,
  refl, ap, sym, ◌∙◌, arith, eqb, contains, ◌==◌, if◌then◌else◌, Bool-cases,
}
use commiter_cli.Base.Str.{Str, lit, str_eq, any, has_prefix, split, prepend, cut_byte}
use commiter_cli.Gitstate.Errors.{Result, ok, err, ◌>>=◌}
use commiter_cli.Gitstate.Sensitive.{
  Glob, Sensitivity, automatically_excluded, sensitive_candidate, not_sensitive, ascii_lower,
  lower_byte, last_or, ext, private_key_names, classify_name, classify_sensitive,
  content_read_allowed, matches_additional,
}

-- The path of a name in a directory, or at the root.
abbrev pub in_directory : Option Str → Str → Str
in_directory none name = name
in_directory (some directory) name = directory ++ b'/' ∷ name

abbrev pub ssh_keys : List Str
ssh_keys = lit "id_rsa" ∷ lit "id_dsa" ∷ lit "id_ecdsa" ∷ lit "id_ed25519" ∷ []

-- The names, in lower case, of environment files, private keys and SSH keys.
abbrev pub IsProtected : Str → Type 0
IsProtected name =
    (name ≡ lit ".env")
    ⊎ (((rest : Str) × (name ≡ lit ".env." ++ rest))
        ⊎ (((stem : Str) × (name ≡ stem ++ lit ".pem"))
            ⊎ (((stem : Str) × (name ≡ stem ++ lit ".key")) ⊎ (contains ssh_keys name ≡ true))))

slash : Str → Bool
slash = any (λ c. eqb c b'/')

lower-slash : (c : ℕ) → eqb (lower_byte c) b'/' ≡ eqb c b'/'
unfolding lower_byte
lower-slash c = ground arith

ascii_lower-append : (s t : Str) → ascii_lower (s ++ t) ≡ ascii_lower s ++ ascii_lower t
unfolding ascii_lower
ascii_lower-append [] t = refl
ascii_lower-append (c ∷ s) t = ap (λ r. lower_byte c ∷ r) (ascii_lower-append s t)

slash-ascii_lower : (s : Str) → slash (ascii_lower s) ≡ slash s
unfolding slash ascii_lower any
slash-ascii_lower [] = refl
slash-ascii_lower (c ∷ s) = rw (lower-slash c, slash-ascii_lower s) refl

split-whole : (s : Str) → slash s ≡ false → split b'/' s ≡ s ∷ []
unfolding split slash any prepend
split-whole [] h = refl
split-whole (c ∷ s) h =
    let no : eqb c b'/' ≡ false = ground arith in rw (no, split-whole s (ground arith)) refl

-- Behind a directory, the last component is the name.
split-behind :
    (directory name : Str)
    → slash name ≡ false
    → (first : Str) × (others : List Str) × (split b'/' (directory ++ b'/' ∷ name) ≡ first ∷ others)
      × ((s : Str) → last_or s others ≡ name)
unfolding split prepend last_or
split-behind [] name h = ([], name ∷ [], ap (λ cs. [] ∷ cs) (split-whole name h), λ s. refl)
split-behind (c ∷ directory) name h =
    let (first, others, e, last) = split-behind directory name h in
    elim (Bool-cases (eqb c b'/')) [
      | inl y ↦ ([], first ∷ others, rw (y, e) refl, λ s. last first)
      | inr n ↦ (c ∷ first, others, rw (n, e) refl, last)
    ]

lower-in_directory :
    (directory name : Str)
    → ascii_lower (directory ++ b'/' ∷ name) ≡ ascii_lower directory ++ b'/' ∷ ascii_lower name
unfolding ascii_lower lower_byte
lower-in_directory directory name = ascii_lower-append directory (b'/' ∷ name)

last-in_directory :
    (directory : Option Str) (name : Str)
    → slash name ≡ false
    → last_or [] (split b'/' (ascii_lower (in_directory directory name))) ≡ ascii_lower name
unfolding last_or
last-in_directory none name h =
    rw (split-whole (ascii_lower name) (slash-ascii_lower name ∙ h)) refl
last-in_directory (some directory) name h =
    let (first, others, e, last) =
      split-behind (ascii_lower directory) (ascii_lower name) (slash-ascii_lower name ∙ h) in
    ap (λ p. last_or [] (split b'/' p)) (lower-in_directory directory name)
    ∙ ap (last_or []) e
    ∙ last first

-- What the classification asks of the last component.
hides : Str → Bool
hides base =
    (base == lit ".env" || has_prefix base (lit ".env."))
    || ((ext base == lit ".pem" || ext base == lit ".key") || contains private_key_names base)

pem-ext : (stem : Str) → ext (stem ++ lit ".pem") ≡ lit ".pem"
unfolding ext cut_byte
pem-ext stem = rw (ext, List.reverse-append stem (lit ".pem")) refl

key-ext : (stem : Str) → ext (stem ++ lit ".key") ≡ lit ".key"
unfolding ext cut_byte
key-ext stem = rw (ext, List.reverse-append stem (lit ".key")) refl

ext-hides :
    (name : Str) → (ext name == lit ".pem" || ext name == lit ".key") ≡ true → hides name ≡ true
unfolding hides
ext-hides name h = ground (arith, h)

IsProtected-hides : (name : Str) → IsProtected name → hides name ≡ true
unfolding hides has_prefix str_eq private_key_names
IsProtected-hides name (inl e) = subst (λ n. hides n ≡ true) (sym e) refl
IsProtected-hides name (inr (inl (rest, e))) = subst (λ n. hides n ≡ true) (sym e) refl
IsProtected-hides name (inr (inr (inl (stem, e)))) = ext-hides name (rw (e, pem-ext stem) refl)
IsProtected-hides name (inr (inr (inr (inl (stem, e))))) =
    ext-hides name (rw (e, key-ext stem) refl)
IsProtected-hides name (inr (inr (inr (inr h)))) = ground (arith, h)

classify_name-hidden :
    (path : Str)
    → hides (last_or [] (split b'/' (ascii_lower path))) ≡ true
    → (classify_name path).0 ≡ automatically_excluded
unfolding hides classify_name
classify_name-hidden path h = ground (arith, h)

-- The verdict on what is classified so, or cannot be.
excluded-unread :
    (matched : Result Bool) (found : Sensitivity × Str) (approved : Bool)
    → found.0 ≡ automatically_excluded
    → ((matched >>= λ m.
          if m
          then ok (automatically_excluded, lit "matches an additional sensitive pattern")
          else ok found)
        >>= λ f. elim f.0 [
          | not_sensitive ↦ ok true
          | sensitive_candidate ↦ ok approved
          | automatically_excluded ↦ ok false
        ])
      ≢ ok true
excluded-unread (err k m) found approved h e = cc
excluded-unread (ok true) found approved h e = cc
excluded-unread (ok false) (not_sensitive, s) approved h e = cc
excluded-unread (ok false) (sensitive_candidate, s) approved h e = cc
excluded-unread (ok false) (automatically_excluded, s) approved h e = cc

-- An environment file, a private key or an SSH key is never read: not in any directory, not under a
-- name in capital letters, and whatever patterns were added and whatever the user approved.
pub content_read_allowed-protected :
    (glob : Glob) (directory : Option Str) (name : Str) (additional : List Str) (approved : Bool)
    → any (λ c. eqb c b'/') name ≡ false
    → IsProtected (ascii_lower name)
    → content_read_allowed glob (in_directory directory name) additional approved ≢ ok true
unfolding content_read_allowed classify_sensitive slash
content_read_allowed-protected glob directory name additional approved plain h =
    let path = in_directory directory name in
    excluded-unread (matches_additional glob additional path) (classify_name path) approved (
      classify_name-hidden path (
        ap hides (last-in_directory directory name plain) ∙ IsProtected-hides (ascii_lower name) h))
