-- ===== src/Repository/Init/Ancestors.antt =====
-- internal/repository/init.go: the search through the parents of a directory.
use commiter_cli.Base.{
  ℕ, zero, suc, ◌+◌, ◌≤◌, ◌<◌, Bool, true, false, [], ◌∷◌, Option, none, some, if◌then◌else◌, ◌==◌,
  ==_iff, eqb, is_nil, reverse, length, ◌≡◌, ◌≢◌, refl, ap, sym, ◌∙◌, arith,
}
use mathlib.Core.List.{reverse_aux}
use mathlib.Core.Option.{some-injective}
use commiter_cli.Base.Result.{Result, ok, err}
use commiter_cli.Base.Str.{Str, lit, str_eq, cut_byte}
use commiter_cli.Repository.Init.{Git, Lstat, found, missing, failed, dir, join, find_git_metadata}

-- What the search answers: for the nearest directory, from the path upwards, that has metadata or
-- cannot be inspected, or for the top.
module _ (G : Git) (repos : G.Repos) where
  pub data Answers : Str → Result (Option Str) → Type 0 where
    here :
        {p : Str}
        → G.lstat repos (join p (lit ".git")) ≡ found
        → Answers p (ok (some (join p (lit ".git"))))
    fails :
        {p : Str}
        → G.lstat repos (join p (lit ".git")) ≡ failed
        → Answers p (err (lit "cannot inspect .git metadata"))
    top :
        {p : Str} → G.lstat repos (join p (lit ".git")) ≡ missing → dir p ≡ p → Answers p (ok none)
    above :
        {p : Str} {r : Result (Option Str)}
        → G.lstat repos (join p (lit ".git")) ≡ missing
        → dir p ≢ p
        → Answers (dir p) r
        → Answers p r

length-reverse_aux : (s t : Str) → length (reverse_aux s t) ≡ length s + length t
length-reverse_aux [] t = omega arith
length-reverse_aux (c ∷ s) t = omega (arith, length-reverse_aux s (c ∷ t))

length-reverse : (s : Str) → length (reverse s) ≡ length s
length-reverse s = omega (arith, length-reverse_aux s [])

cut_byte-shorter : (sep : ℕ) (s a b : Str) → cut_byte sep s ≡ some (a, b) → length b < length s
unfolding cut_byte
cut_byte-shorter sep [] a b h = cc
cut_byte-shorter sep (c ∷ s) a b h = go (eqb c sep) (cut_byte sep s) (cut_byte-shorter sep s) h
  where
    go :
        (here : Bool) (o : Option (Str × Str))
        → ((a b : Str) → o ≡ some (a, b) → length b < length s)
        → if◌then◌else◌ {A = Option (Str × Str)} here
            (some ([], s))
            (elim o [ none ↦ none | some (a, b) ↦ some (c ∷ a, b) ])
          ≡ some (a, b)
        → length b < length (c ∷ s)
    go true o rec q = let e = ap (λ t. length t.1) (some-injective _ _ q) in omega (arith, e)
    go false none rec q = cc
    go false (some (a', b')) rec q =
        let e = ap (λ t. length t.1) (some-injective _ _ q) in omega (arith, e, rec a' b' refl)

-- How many parents a path may still have.
rank : Str → ℕ
rank p = if p == lit "." then 0 else if p == lit "/" then 1 else suc (length p)

rank-bound : (p : Str) → rank p ≤ suc (length p)
unfolding rank
rank-bound p = ground arith

dot : dir (lit ".") ≡ lit "."
unfolding dir
dot = refl

slash : dir (lit "/") ≡ lit "/"
unfolding dir
slash = refl

rank-moved : (p : Str) → dir p ≢ p → rank p ≡ suc (length p)
unfolding rank
rank-moved p n = go (p == lit ".") refl (p == lit "/") refl
  where
    fixed : (q : Str) → dir q ≡ q → p ≡ q → ⊥
    fixed q d e = n (ap dir e ∙ d ∙ sym e)

    go :
        (a : Bool)
        → (p == lit ".") ≡ a
        → (b : Bool) → (p == lit "/") ≡ b
        → (if a then 0 else if b then 1 else suc (length p)) ≡ suc (length p)
    go true e b e' = absurd (fixed (lit ".") dot ((==_iff p (lit ".")).0 e))
    go false e true e' = absurd (fixed (lit "/") slash ((==_iff p (lit "/")).0 e'))
    go false e false e' = refl

rank-dot : rank (lit ".") ≡ 0
unfolding rank str_eq
rank-dot = refl

rank-slash : rank (lit "/") ≡ 1
unfolding rank str_eq
rank-slash = refl

rank-dir : (p : Str) → rank (dir p) ≤ length p
unfolding dir
rank-dir p = go (cut_byte b'/' (reverse p)) refl
  where
    go :
        (o : Option (Str × Str))
        → cut_byte b'/' (reverse p) ≡ o
        → rank (elim o [
          | none ↦ lit "."
          | some (name, parent) ↦ if is_nil parent then lit "/" else reverse parent
        ])
          ≤ length p
    go none e = omega (arith, rank-dot)
    go (some (name, [])) e =
        omega (arith, rank-slash, cut_byte-shorter b'/' (reverse p) name [] e, length-reverse p)
    go (some (name, c ∷ parent)) e = omega (
      arith,
      rank-bound (reverse (c ∷ parent)),
      length-reverse (c ∷ parent),
      cut_byte-shorter b'/' (reverse p) name (c ∷ parent) e,
      length-reverse p,
    )

module _ (G : Git) (repos : G.Repos) where
  search-Answers :
      (fuel : ℕ) (p : Str)
      → rank p < fuel
      → (r : Result (Option Str)) × (find_git_metadata G fuel repos p ≡ some r)
        × Answers G repos p r
  unfolding find_git_metadata
  search-Answers zero p h = absurd (omega (arith, h))
  search-Answers (suc fuel) p h =
      go (G.lstat repos (join p (lit ".git"))) refl (dir p == p) refl (search-Answers fuel (dir p))
    where
      go :
          (l : Lstat)
          → G.lstat repos (join p (lit ".git")) ≡ l
          → (stay : Bool) → (dir p == p) ≡ stay
          → (rank (dir p) < fuel
              → (r : Result (Option Str)) × (find_git_metadata G fuel repos (dir p) ≡ some r)
                × Answers G repos (dir p) r)
          → (r : Result (Option Str)) × ((elim l [
            | found ↦ some (ok (some (join p (lit ".git"))))
            | failed ↦ some (err (lit "cannot inspect .git metadata"))
            | missing ↦ if stay then some (ok none) else find_git_metadata G fuel repos (dir p)
          ])
              ≡ some r)
            × Answers G repos p r
      go found e stay d rec = (_, refl, here e)
      go failed e stay d rec = (_, refl, fails e)
      go missing e true d rec = (_, refl, top e ((==_iff (dir p) p).0 d))
      go missing e false d rec =
          let moved : dir p ≢ p = λ same. let yes = (==_iff (dir p) p).1 same in cc in
          let (r, q, a) = rec (omega (arith, h, rank-dir p, rank-moved p moved)) in
          (r, q, above e moved a)

  -- The search for metadata ends, with the fuel that it is given, for every path, and its answer is
  -- that of the nearest directory from the path upwards that has metadata or cannot be inspected, or
  -- that there is none up to the top.
  pub find_git_metadata-Answers :
      (p : Str)
      → (r : Result (Option Str)) × (find_git_metadata G (suc (suc (length p))) repos p ≡ some r)
        × Answers G repos p r
  find_git_metadata-Answers p =
      search-Answers (suc (suc (length p))) p (omega (arith, rank-bound p))
