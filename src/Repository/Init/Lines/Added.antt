-- ===== src/Repository/Init/Lines/Added.antt =====
-- internal/repository/init.go: after an addition to .gitignore no pattern is missing.
use commiter_cli.Base.{
  Bool, true, false, ◌||◌, List, [], ◌∷◌, ◌++◌, if◌then◌else◌, ◌==◌, ==_iff, eqb, contains, ◌≡◌,
  ◌≢◌, inl, inr, refl, ap, sym, ◌∙◌, All, Bool-cases,
}
use mathlib.Core.Path.{subst}
use mathlib.Core.List.{append_assoc}
use commiter_cli.Base.Result.{ok, err, ◌>>=◌, >>=-ok, ok-injective}
use commiter_cli.Base.Str.{Str, lit, str_eq, any, split}
use commiter_cli.Repository.Init.{
  normalize_from, normalize_gitignore_patterns, existing_lines, missing_from,
  missing_gitignore_patterns, joined, ends_line, addition,
}
use commiter_cli.Repository.Init.Lines.{
  IsLine, or_true, trimmed, found_left, found_right, split-joined, trimmed-lines, missing_from-All,
  Ended, ended, split-append,
}

normalize_from-All : (seen ps qs : List Str) → normalize_from seen ps ≡ ok qs → All IsLine qs
unfolding normalize_from
normalize_from-All seen [] qs h = subst (All IsLine) (ok-injective _ _ h) tt
normalize_from-All seen (p ∷ ps) qs h =
    go (p == []) refl (any (λ c. eqb c 13 || eqb c 10) p) refl (contains seen p)
      (normalize_from-All seen ps) (normalize_from-All (p ∷ seen) ps) h
  where
    go :
        (a : Bool)
        → (p == []) ≡ a
        → (b : Bool) → any (λ c. eqb c 13 || eqb c 10) p ≡ b
        → (d : Bool) → ((rs : List Str) → normalize_from seen ps ≡ ok rs → All IsLine rs)
        → ((rs : List Str) → normalize_from (p ∷ seen) ps ≡ ok rs → All IsLine rs)
        → (if a
            then err (lit "gitignore pattern must not be empty")
            else if b
            then err (lit "gitignore pattern must be a single line")
            else if d
            then normalize_from seen ps
            else normalize_from (p ∷ seen) ps >>= λ rs. ok (p ∷ rs))
          ≡ ok qs
        → All IsLine qs
    go true e b e' d again rest q = cc
    go false e true e' d again rest q = cc
    go false e false e' true again rest q = again qs q
    go false e false e' false again rest q =
        let (rs, q1, q2) = >>=-ok (normalize_from (p ∷ seen) ps) (λ rs. ok (p ∷ rs)) qs q in
        subst (All IsLine) (ok-injective _ _ q2) (
          record { has_text = λ empty. let yes = (==_iff p []).1 empty in cc; one_line = e' },
          rest rs q1,
        )

All-contains : (ps : List Str) (p : Str) → All IsLine ps → contains ps p ≡ true → IsLine p
All-contains [] p all h = cc
All-contains (q ∷ ps) p (l, all) h = go (p == q) refl h (All-contains ps p all)
  where
    go :
        (b : Bool)
        → (p == q) ≡ b
        → (b || contains ps p) ≡ true
        → (contains ps p ≡ true → IsLine p)
        → IsLine p
    go true e _ rec = subst IsLine (sym ((==_iff p q).0 e)) l
    go false e k rec = rec k

contains-missing_from :
    (existing ps : List Str) (p : Str)
    → contains ps p ≡ true
    → contains existing p ≡ false
    → contains (missing_from existing ps) p ≡ true
unfolding missing_from
contains-missing_from existing [] p h n = cc
contains-missing_from existing (q ∷ ps) p h n =
    go (p == q) refl (contains existing q) refl h (λ k. contains-missing_from existing ps p k n)
  where
    go :
        (a : Bool)
        → (p == q) ≡ a
        → (b : Bool) → contains existing q ≡ b
        → (a || contains ps p) ≡ true
        → (contains ps p ≡ true → contains (missing_from existing ps) p ≡ true)
        → contains (if b then missing_from existing ps else q ∷ missing_from existing ps) p ≡ true
    go true e true e' k rec = absurd (cc (sym n ∙ ap (contains existing) ((==_iff p q).0 e) ∙ e'))
    go true e false e' k rec = ap (λ b. b || contains (missing_from existing ps) p) e
    go false e true e' k rec = rec k
    go false e false e' k rec = ap (λ b. b || contains (missing_from existing ps) p) e ∙ rec k

missing_from-nil :
    (existing ps : List Str)
    → ((p : Str) → contains ps p ≡ true → contains existing p ≡ true)
    → missing_from existing ps ≡ []
unfolding missing_from
missing_from-nil existing [] h = refl
missing_from-nil existing (q ∷ ps) h =
    ap (λ b. if b then missing_from existing ps else q ∷ missing_from existing ps)
      (h q (ap (λ b. b || contains ps q) ((==_iff q q).1 refl)))
    ∙ missing_from-nil existing ps (λ p k. h p (ap (λ b. p == q || b) k ∙ or_true (p == q)))

-- The entries are the lines of what is appended.
among :
    (es : List Str) (p : Str)
    → All IsLine es
    → contains es p ≡ true
    → contains (trimmed (split 10 (joined es ++ 10 ∷ []))) p ≡ true
among es p all h =
    ap (λ zs. contains (trimmed zs) p)
      (split-append (joined es) [] ∙ ap (λ xs. xs ++ split 10 []) (split-joined es some_entry all))
    ∙ found_left es (split 10 []) p (ap (λ zs. contains zs p) (trimmed-lines es all) ∙ h)
  where
    some_entry : es ≢ []
    some_entry e = let none_found = sym h ∙ ap (λ zs. contains zs p) e in cc

-- When a list of patterns is accepted, .gitignore misses none of them once the missing ones are
-- appended to it, whether its last line was ended or not.
pub addition-missing :
    (content : Str) (patterns ps : List Str)
    → normalize_gitignore_patterns patterns ≡ ok ps
    → missing_gitignore_patterns
        (content ++ addition content (missing_gitignore_patterns content ps))
        ps
      ≡ []
unfolding normalize_gitignore_patterns missing_gitignore_patterns existing_lines addition trimmed
    Ended
addition-missing content patterns ps h = missing_from-nil _ ps every
  where
    es : List Str
    es = missing_from (trimmed (split 10 content)) ps

    lines : All IsLine ps
    lines = normalize_from-All [] patterns ps h

    entries : All IsLine es
    entries = missing_from-All (trimmed (split 10 content)) ps lines

    grown : Ended content (ends_line content) (joined es ++ 10 ∷ [])
    grown = ended content (joined es ++ 10 ∷ [])

    new : Str
    new = content ++ ((if ends_line content then [] else 10 ∷ []) ++ joined es ++ 10 ∷ [])

    every : (p : Str) → contains ps p ≡ true → contains (trimmed (split 10 new)) p ≡ true
    every p k =
        let (xs, parts, kept) = grown in
        let line = All-contains ps p lines k in
        let whole =
          ap (λ t. split 10 (content ++ t))
            (append_assoc (if ends_line content then [] else 10 ∷ []) (joined es) (10 ∷ []))
          ∙ parts in
        ap (λ zs. contains (trimmed zs) p) whole
        ∙ elim (Bool-cases (contains (trimmed (split 10 content)) p)) [
          | inl old ↦ found_left xs (split 10 (joined es ++ 10 ∷ [])) p (kept p line.has_text old)
          | inr fresh ↦
              found_right xs (split 10 (joined es ++ 10 ∷ [])) p (
                among es p entries
                  (contains-missing_from (trimmed (split 10 content)) ps p k fresh))
        ]
