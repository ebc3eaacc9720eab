-- ===== src/Repository/Init/Lines.antt =====
-- internal/repository/init.go: the lines of .gitignore after an addition.
pub mod Added
use commiter_cli.Base.{
  ℕ, zero, suc, Bool, true, false, not, ◌||◌, List, [], ◌∷◌, ◌++◌, Option, none, some,
  if◌then◌else◌, ◌==◌, ==_iff, eqb, eqb→eq, is_nil, map, reverse, contains, ◌≡◌, ◌≢◌, ◌⊎◌, inl, inr,
  refl, ap, ap₂, sym, ◌∙◌, arith, All, Bool-cases, take, length, ◌-◌,
}
use mathlib.Core.Path.{subst}
use mathlib.Core.List.{reverse-append, reverse-reverse, append_assoc, map-append}
use commiter_cli.Base.Str.{Str, str_eq, any, split, prepend, trim_suffix, has_suffix, has_prefix}
use commiter_cli.Repository.Init.{
  existing_lines, missing_from, missing_gitignore_patterns, joined, ends_line, addition,
}

-- A pattern that `normalizeGitignorePatterns` lets through: one line of text.
pub record IsLine (p : Str) : Type 0 where
  pub has_text : p ≢ []
  pub one_line : any (λ c. eqb c 13 || eqb c 10) p ≡ false

prepend-append : (c : ℕ) (xs ys : List Str) → xs ≢ [] → prepend c (xs ++ ys) ≡ prepend c xs ++ ys
unfolding prepend
prepend-append c [] ys n = absurd (n refl)
prepend-append c (x ∷ xs) ys n = refl

split-ne_nil : (s : Str) → split 10 s ≢ []
unfolding split prepend
split-ne_nil [] h = cc
split-ne_nil (c ∷ s) h = go (eqb c 10) (split 10 s) h
  where
    go : (b : Bool) (rest : List Str) → (if b then [] ∷ rest else prepend c rest) ≡ [] → ⊥
    go true rest q = cc
    go false [] q = cc
    go false (x ∷ xs) q = cc

pub split-append : (s t : Str) → split 10 (s ++ 10 ∷ t) ≡ split 10 s ++ split 10 t
unfolding split
split-append [] t = refl
split-append (c ∷ s) t = go (eqb c 10) (split-append s t)
  where
    go :
        (b : Bool)
        → split 10 (s ++ 10 ∷ t) ≡ split 10 s ++ split 10 t
        → (if b then [] ∷ split 10 (s ++ 10 ∷ t) else prepend c (split 10 (s ++ 10 ∷ t)))
          ≡ (if b then [] ∷ split 10 s else prepend c (split 10 s)) ++ split 10 t
    go true h = ap (λ xs. [] ∷ xs) h
    go false h = ap (prepend c) h ∙ prepend-append c (split 10 s) (split 10 t) (split-ne_nil s)

any-cons :
    (c : ℕ) (s : Str)
    → any (λ d. eqb d 13 || eqb d 10) (c ∷ s) ≡ false
    → (eqb c 13 ≡ false) × (eqb c 10 ≡ false) × (any (λ d. eqb d 13 || eqb d 10) s ≡ false)
unfolding any
any-cons c s h = go (eqb c 13) (eqb c 10) (any (λ d. eqb d 13 || eqb d 10) s) h
  where
    go : (a b r : Bool) → (a || b || r) ≡ false → (a ≡ false) × (b ≡ false) × (r ≡ false)
    go true b r h = cc
    go false true r h = cc
    go false false r h = (refl, refl, h)

split-line : (p : Str) → any (λ c. eqb c 13 || eqb c 10) p ≡ false → split 10 p ≡ p ∷ []
unfolding split prepend
split-line [] h = refl
split-line (c ∷ p) h = let (_, n, rest) = any-cons c p h in rw (n, split-line p rest) refl

any-last : (test : ℕ → Bool) (s : Str) (c : ℕ) → any test (s ++ c ∷ []) ≡ false → test c ≡ false
unfolding any
any-last test [] c h = go (test c) h
  where
    go : (b : Bool) → (b || false) ≡ false → b ≡ false
    go true q = cc
    go false q = refl
any-last test (d ∷ s) c h = go (test d) (any test (s ++ c ∷ [])) (any-last test s c) h
  where
    go : (a b : Bool) → (b ≡ false → test c ≡ false) → (a || b) ≡ false → test c ≡ false
    go true b rec q = cc
    go false b rec q = rec q

pub or_true : (b : Bool) → (b || true) ≡ true
or_true true = refl
or_true false = refl

-- The carriage return that is cut off is none of a pattern's.
trim_suffix-line :
    (p : Str) → any (λ c. eqb c 13 || eqb c 10) p ≡ false → trim_suffix p (13 ∷ []) ≡ p
unfolding trim_suffix has_suffix has_prefix
trim_suffix-line p h = go (reverse p) (reverse-reverse p)
  where
    left : (a b : Bool) → (a || b) ≡ false → a ≡ false
    left true b q = cc
    left false b q = refl

    go :
        (r : Str)
        → reverse r ≡ p
        → (if has_prefix r (13 ∷ []) then take (length p - 1) p else p) ≡ p
    go [] e = refl
    go (c ∷ r) e =
        let clean =
          ap (any (λ d. eqb d 13 || eqb d 10)) (sym (reverse-append (c ∷ []) r) ∙ e) ∙ h in
        rw (left (eqb c 13) _ (any-last _ (reverse r) c clean)) refl

contains-append :
    (xs ys : List Str) (p : Str) → contains (xs ++ ys) p ≡ (contains xs p || contains ys p)
contains-append [] ys p = refl
contains-append (x ∷ xs) ys p =
    ap (λ b. p == x || b) (contains-append xs ys p) ∙ assoc (p == x) (contains xs p) (contains ys p)
  where
    assoc : (a b c : Bool) → (a || (b || c)) ≡ ((a || b) || c)
    assoc true b c = refl
    assoc false b c = refl

unfoldable pub trimmed : List Str → List Str
trimmed = map (λ line. trim_suffix line (13 ∷ []))

-- Lines are found where they are added, and stay where they were.
pub found_left :
    (xs ys : List Str) (p : Str)
    → contains (trimmed xs) p ≡ true
    → contains (trimmed (xs ++ ys)) p ≡ true
unfolding trimmed
found_left xs ys p h =
    ap (λ zs. contains zs p) (map-append (λ line. trim_suffix line (13 ∷ [])) xs ys)
    ∙ contains-append (trimmed xs) (trimmed ys) p
    ∙ ap (λ b. b || contains (trimmed ys) p) h

pub found_right :
    (xs ys : List Str) (p : Str)
    → contains (trimmed ys) p ≡ true
    → contains (trimmed (xs ++ ys)) p ≡ true
unfolding trimmed
found_right xs ys p h =
    ap (λ zs. contains zs p) (map-append (λ line. trim_suffix line (13 ∷ [])) xs ys)
    ∙ contains-append (trimmed xs) (trimmed ys) p
    ∙ ap (λ b. contains (trimmed xs) p || b) h
    ∙ or_true (contains (trimmed xs) p)

-- The lines of what is joined are the entries.
pub split-joined : (es : List Str) → es ≢ [] → All IsLine es → split 10 (joined es) ≡ es
split-joined [] n all = absurd (n refl)
split-joined (e ∷ []) n (l, _) = split-line e l.one_line
split-joined (e ∷ (f ∷ es)) n (l, all) =
    split-append e (joined (f ∷ es))
    ∙ ap₂ (λ xs ys. xs ++ ys) (split-line e l.one_line) (split-joined (f ∷ es) (λ h. cc) all)

pub trimmed-lines : (es : List Str) → All IsLine es → trimmed es ≡ es
unfolding trimmed
trimmed-lines [] all = refl
trimmed-lines (e ∷ es) (l, all) =
    ap₂ (λ x xs. x ∷ xs) (trim_suffix-line e l.one_line) (trimmed-lines es all)

pub missing_from-All :
    (existing ps : List Str) → All IsLine ps → All IsLine (missing_from existing ps)
unfolding missing_from
missing_from-All existing [] all = tt
missing_from-All existing (p ∷ ps) (l, all) =
    go (contains existing p) (missing_from-All existing ps all)
  where
    go :
        (b : Bool)
        → All IsLine (missing_from existing ps)
        → All IsLine (if b then missing_from existing ps else p ∷ missing_from existing ps)
    go true rest = rest
    go false rest = (l, rest)

-- With a line break where it needs one, the content keeps its lines, and what follows is read as lines.
unfoldable pub Ended : Str → Bool → Str → Type 0
Ended content whole t =
    (xs : List Str) × (split 10 (content ++ ((if whole then [] else 10 ∷ []) ++ t))
      ≡ xs ++ split 10 t)
    × ((p : Str)
        → p ≢ []
        → contains (trimmed (split 10 content)) p ≡ true
        → contains (trimmed xs) p ≡ true)

ends_line-reverse : (r : Str) → ends_line (reverse r) ≡ elim r [ [] ↦ true | c ∷ _ ↦ eqb c 10 ]
unfolding ends_line
ends_line-reverse r = ap (λ (x : Str). elim x [ [] ↦ true | c ∷ _ ↦ eqb c 10 ]) (reverse-reverse r)

not_empty_line : (b : Bool) (p : Str) → p ≢ [] → (b || (p == [] || false)) ≡ true → b ≡ true
not_empty_line true p n h = refl
not_empty_line false p n h = elim (Bool-cases (p == [])) [
  | inl e ↦ absurd (n ((==_iff p []).0 e))
  | inr e ↦ sym (ap (λ b. b || false) e) ∙ h
]

found_ended :
    (s p : Str)
    → p ≢ []
    → contains (trimmed (split 10 (s ++ 10 ∷ []))) p ≡ true
    → contains (trimmed (split 10 s)) p ≡ true
unfolding trimmed trim_suffix has_suffix has_prefix split
found_ended s p n h = not_empty_line (contains (trimmed (split 10 s)) p) p n (
    sym (contains-append (trimmed (split 10 s)) ([] ∷ []) p)
    ∙ ap (λ zs. contains zs p)
        (sym (map-append (λ line. trim_suffix line (13 ∷ [])) (split 10 s) ([] ∷ [])))
    ∙ ap (λ zs. contains (trimmed zs) p) (sym (split-append s []))
    ∙ h)

whole_line : (s t : Str) → Ended (s ++ 10 ∷ []) true t
unfolding Ended
whole_line s t =
    (split 10 s, ap (split 10) (append_assoc s (10 ∷ []) t) ∙ split-append s t, found_ended s)

no_line :
    (p : Str) → p ≢ [] → contains (trimmed (split 10 [])) p ≡ true → contains (trimmed []) p ≡ true
unfolding trimmed trim_suffix has_suffix has_prefix split
no_line p n h = not_empty_line false p n h

pub ended : (content t : Str) → Ended content (ends_line content) t
unfolding Ended
ended content t =
    subst (λ c. Ended c (ends_line c) t) (reverse-reverse content) (go (reverse content))
  where
    last : (c : ℕ) (r : Str) (b : Bool) → eqb c 10 ≡ b → Ended (reverse (c ∷ r)) b t
    last c r true e =
        subst (λ s. Ended s true t)
          (ap (λ d. reverse r ++ d ∷ []) (sym (eqb→eq c 10 e)) ∙ sym (reverse-append (c ∷ []) r))
          (whole_line (reverse r) t)
    last c r false e = (split 10 (reverse (c ∷ r)), split-append (reverse (c ∷ r)) t, λ p n h. h)

    go : (r : Str) → Ended (reverse r) (ends_line (reverse r)) t
    go [] = subst (λ b. Ended [] b t) (sym (ends_line-reverse [])) ([], refl, no_line)
    go (c ∷ r) =
        subst (λ b. Ended (reverse (c ∷ r)) b t) (sym (ends_line-reverse (c ∷ r)))
          (last c r (eqb c 10) refl)
