-- ===== src/Gitstate/RepoPath/Inside.antt =====
-- internal/gitstate/status.go: a normalized path stays inside the repository.
use commiter_cli.Base.{
  Bool, true, false, ◌||◌, inl, inr, List, [], ◌∷◌, ◌≡◌, ◌≢◌, refl, ap, sym, if◌then◌else◌, ◌==◌,
  is_nil, arith,
}
use commiter_cli.Base.Str.{Str, lit, str_eq, has_prefix}
use commiter_cli.Gitstate.Errors.{Result, ok, err, ErrorKind, ok-injective}
use commiter_cli.Gitstate.RepoPath.{clean_elements, clean, join, normalize_repo_path}
use commiter_cli.Gitstate.RepoPath.Elements.{AllNames, clean_elements-cases}

-- The tests on the cleaned path.
outside : Str → Bool
outside p = p == lit "." || p == lit ".." || has_prefix p (lit "../") || has_prefix p (lit "/")

-- A path whose first element is `..` is refused.
outside-parent : (rest : List Str) → outside (join (lit ".." ∷ rest)) ≡ true
unfolding outside join has_prefix str_eq
outside-parent [] = refl
outside-parent (f ∷ fs) = refl

checked : Str → Result Str
checked t =
    if outside t
    then err ErrorKind.safety (lit "Git returned a path outside the repository")
    else ok t

checked-ok : (t p : Str) → checked t ≡ ok p → (outside t ≡ false) × (p ≡ t)
unfolding checked
checked-ok t p h = go (outside t) h
  where
    go :
        (b : Bool)
        → (if b
            then err ErrorKind.safety (lit "Git returned a path outside the repository")
            else ok t)
          ≡ ok p
        → (b ≡ false) × (p ≡ t)
    go true q = cc
    go false q = (refl, sym (ok-injective t p q))

outside-dot : outside (lit ".") ≡ true
unfolding outside str_eq
outside-dot = refl

-- A path with a root is refused.
outside-rooted : (t : Str) → outside (b'/' ∷ t) ≡ true
unfolding outside has_prefix
outside-rooted t =
    go ((b'/' ∷ t) == lit ".") ((b'/' ∷ t) == lit "..") (has_prefix (b'/' ∷ t) (lit "../"))
  where
    go : (a b c : Bool) → (a || b || c || true) ≡ true
    go a b c = ground arith

inside_elements :
    (v p : Str)
    → is_nil (join (clean_elements false v)) ≡ false
    → checked (join (clean_elements false v)) ≡ ok p
    → (es : List Str) × (es ≢ []) × (p ≡ join es) × AllNames es
inside_elements v p n h =
    let (o, q) = checked-ok _ p h in
    elim (clean_elements-cases v) [
      | inl a ↦
          (clean_elements false v, (λ e. cc (ap (λ es. is_nil (join es)) e, n, empty_join)), q, a)
      | inr (rest, r) ↦ absurd (cc (ap (λ es. outside (join es)) r, outside-parent rest, o))
    ]
  where
    empty_join : is_nil (join []) ≡ true
    empty_join = unfold join in refl

inside :
    (rooted : Bool) (v p : Str)
    → checked (
        if rooted
        then b'/' ∷ join (clean_elements rooted v)
        else if is_nil (join (clean_elements rooted v))
        then lit "."
        else join (clean_elements rooted v))
      ≡ ok p
    → (es : List Str) × (es ≢ []) × (p ≡ join es) × AllNames es
inside true v p h =
    absurd (cc (outside-rooted (join (clean_elements true v)), (checked-ok _ p h).0))
inside false v p h = go (is_nil (join (clean_elements false v))) refl h
  where
    go :
        (b : Bool)
        → is_nil (join (clean_elements false v)) ≡ b
        → checked (if b then lit "." else join (clean_elements false v)) ≡ ok p
        → (es : List Str) × (es ≢ []) × (p ≡ join es) × AllNames es
    go true n q = absurd (cc (outside-dot, (checked-ok _ p q).0))
    go false n q = inside_elements v p n q

-- A path that is accepted is the join of one or more names, none of them empty, `.` or `..`, so it
-- lies inside the repository, whatever the path was that Git reported.
pub normalize_repo_path-AllNames :
    (v p : Str)
    → normalize_repo_path v ≡ ok p
    → (es : List Str) × (es ≢ []) × (p ≡ join es) × AllNames es
unfolding normalize_repo_path clean outside checked
normalize_repo_path-AllNames v p h = go _ h
  where
    go :
        (b : Bool)
        → (if b
            then err ErrorKind.safety (lit "Git returned an invalid repository path")
            else checked (clean v))
          ≡ ok p
        → (es : List Str) × (es ≢ []) × (p ≡ join es) × AllNames es
    go true q = cc
    go false q = inside (has_prefix v (lit "/")) v p q
