-- ===== src/Gitstate/RepoPath/Elements.antt =====
-- internal/gitstate/status.go: the elements that path.Clean keeps of a path.
use commiter_cli.Base.{
  ℕ, Bool, true, false, not, ◌&&◌, ◌||◌, ◌⊎◌, inl, inr, List, [], ◌∷◌, ◌++◌, reverse, ◌≡◌, ◌≢◌,
  refl, ap, sym, ◌∙◌, if◌then◌else◌, ◌==◌, ==_iff, eqb, is_nil, arith,
}
use commiter_cli.Base.Str.{Str, lit, str_eq, split, prepend}
use mathlib.Core.Path.{subst}
use mathlib.Core.List.{reverse-append}
use commiter_cli.Gitstate.RepoPath.{push_parent, push_element, push_elements, clean_elements}

-- No byte is a slash.
pub no_slash : Str → Bool
no_slash [] = true
no_slash (c ∷ s) = not (eqb c b'/') && no_slash s

-- A name of a file or a directory: not empty, no dot or two, no slash.
pub IsName : Str → Type 0
IsName e = (e ≢ []) × (e ≢ lit ".") × (e ≢ lit "..") × (no_slash e ≡ true)

pub AllNames : List Str → Type 0
AllNames [] = Unit
AllNames (e ∷ es) = IsName e × AllNames es

NoSlashes : List Str → Type 0
NoSlashes [] = Unit
NoSlashes (e ∷ es) = (no_slash e ≡ true) × NoSlashes es

NoSlashes-prepend :
    (c : ℕ) (es : List Str) → eqb c b'/' ≡ false → NoSlashes es → NoSlashes (prepend c es)
unfolding NoSlashes prepend no_slash
NoSlashes-prepend c [] h n = (rw h refl, tt)
NoSlashes-prepend c (e ∷ es) h (p, n) = (rw h p, n)

NoSlashes-split : (s : Str) → NoSlashes (split b'/' s)
unfolding NoSlashes split no_slash
NoSlashes-split [] = (refl, tt)
NoSlashes-split (c ∷ s) = go (eqb c b'/') refl (NoSlashes-split s)
  where
    go :
        (b : Bool)
        → eqb c b'/' ≡ b
        → NoSlashes (split b'/' s)
        → NoSlashes (if b then [] ∷ split b'/' s else prepend c (split b'/' s))
    go true h n = (refl, n)
    go false h n = NoSlashes-prepend c (split b'/' s) h n

-- The kept elements of a path without a root, the last one first: names above, and only `..` below.
Parents : List Str → Type 0
Parents [] = Unit
Parents (e ∷ es) = (e ≡ lit "..") × Parents es

Kept : List Str → Type 0
Kept [] = Unit
Kept (e ∷ es) = (IsName e × Kept es) ⊎ Parents (e ∷ es)

push_parent-Kept : (kept : List Str) → Kept kept → Kept (push_parent false kept)
unfolding push_parent Kept Parents IsName
push_parent-Kept [] k = inr (refl, tt)
push_parent-Kept (top ∷ below) k = go (top == lit "..") refl k
  where
    go :
        (b : Bool)
        → (top == lit "..") ≡ b
        → (IsName top × Kept below) ⊎ ((top ≡ lit "..") × Parents below)
        → Kept (if b then lit ".." ∷ (top ∷ below) else below)
    go true h (inl (n, k)) = absurd (n.2 ((==_iff top (lit "..")).0 h))
    go true h (inr p) = inr (refl, p)
    go false h (inl (n, k)) = k
    go false h (inr (e, p)) = absurd (ground (arith, e))

not_dot : (e : Str) → (is_nil e || e == lit ".") ≡ false → (e ≢ []) × (e ≢ lit ".")
not_dot [] h = cc
not_dot (c ∷ s) h = (λ e. cc, λ e. ground (arith, e))

push_element-Kept :
    (kept : List Str) (e : Str) → no_slash e ≡ true → Kept kept → Kept (push_element false kept e)
unfolding push_element
push_element-Kept kept e n k = go (is_nil e || e == lit ".") (e == lit "..") refl refl
  where
    go :
        (dot up : Bool)
        → (is_nil e || e == lit ".") ≡ dot
        → (e == lit "..") ≡ up
        → Kept (if dot then kept else if not up then e ∷ kept else push_parent false kept)
    go true up h u = k
    go false true h u = push_parent-Kept kept k
    go false false h u =
        let (x, y) = not_dot e h in
        unfold Kept in inl (unfold IsName in (x, y, (λ q. ground (arith, q)), n), k)

push_elements-Kept :
    (es kept : List Str) → NoSlashes es → Kept kept → Kept (push_elements false kept es)
unfolding push_elements NoSlashes
push_elements-Kept [] kept n k = k
push_elements-Kept (e ∷ es) kept (p, n) k =
    push_elements-Kept es (push_element false kept e) n (push_element-Kept kept e p k)

AllNames-append : (es fs : List Str) → AllNames es → AllNames fs → AllNames (es ++ fs)
unfolding AllNames
AllNames-append [] fs a b = b
AllNames-append (e ∷ es) fs (p, a) b = (p, AllNames-append es fs a b)

AllNames-reverse : (es : List Str) → AllNames es → AllNames (reverse es)
unfolding AllNames
AllNames-reverse [] a = tt
AllNames-reverse (e ∷ es) (p, a) =
    subst AllNames (sym (reverse-append (e ∷ []) es))
      (AllNames-append (reverse es) (e ∷ []) (AllNames-reverse es a) (p, tt))

-- The last of the elements is `..`, so the first one of the path is.
Below : List Str → Type 0
Below es = (above : List Str) × (es ≡ above ++ (lit ".." ∷ []))

Parents-Below : (e : Str) (es : List Str) → Parents (e ∷ es) → Below (e ∷ es)
unfolding Parents Below
Parents-Below e [] (p, q) = ([], ap (λ x. x ∷ []) p)
Parents-Below e (f ∷ fs) (p, q) =
    let (above, r) = Parents-Below f fs q in (e ∷ above, ap (λ xs. e ∷ xs) r)

Kept-cases : (es : List Str) → Kept es → AllNames es ⊎ Below es
unfolding Kept AllNames Below
Kept-cases [] k = inl tt
Kept-cases (e ∷ es) (inr p) = inr (Parents-Below e es p)
Kept-cases (e ∷ es) (inl (n, k)) = elim (Kept-cases es k) [
  | inl a ↦ inl (n, a)
  | inr (above, r) ↦ inr (e ∷ above, ap (λ xs. e ∷ xs) r)
]

-- Read from the front, the elements of a path without a root are names, or the first is `..`.
pub clean_elements-cases :
    (v : Str)
    → AllNames (clean_elements false v)
      ⊎ ((rest : List Str) × (clean_elements false v ≡ lit ".." ∷ rest))
unfolding clean_elements Below
clean_elements-cases v =
    let kept = push_elements false [] (split b'/' v) in
    elim (Kept-cases kept
      (push_elements-Kept (split b'/' v) [] (NoSlashes-split v) (unfold Kept in tt))) [
        | inl a ↦ inl (AllNames-reverse kept a)
        | inr (above, r) ↦ inr (reverse above, ap reverse r ∙ reverse-append above (lit ".." ∷ []))
      ]
