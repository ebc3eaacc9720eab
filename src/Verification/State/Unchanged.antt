-- ===== src/Verification/State/Unchanged.antt =====
-- internal/verification/state.go: when `ChangedPaths` reports nothing.
use commiter_cli.Base.{
  Bool, true, false, not, ◌&&◌, ◌||◌, List, [], ◌∷◌, none, if◌then◌else◌, ◌==◌, ==_iff, ◌≡◌, ◌↔◌,
  refl, ap₂, sym, ◌∙◌, contains, is_nil, append-eq-nil, Bool-cases, inl, inr, arith, option_eq,
}
use mathlib.Core.Path.{subst}
use commiter_cli.Base.Dict.{lookup, keys}
use commiter_cli.Base.Str.{Str, str_eq, lit, sort_strings, insert_sorted}
use commiter_cli.Verification.State.{
  RepositoryState, Files, file_state_eq, differing, to_set, changed_files, with_head, changed_paths,
}

-- What a command must leave alone: the head, the index, and the state of every path that Git shows.
pub record IsUnchanged (before after : RepositoryState) : Type 0 where
  pub head : before.head ≡ after.head
  pub index : before.index_data ≡ after.index_data
  pub files : (p : Str) → lookup before.files p ≡ lookup after.files p

module _ (fs gs : Files) where
  -- Where nothing differs over the keys, the maps agree on each of them.
  differing-nil :
      (ps : List Str)
      → differing fs gs ps ≡ []
      → (p : Str) → contains ps p ≡ true
      → lookup fs p ≡ lookup gs p
  unfolding differing
  differing-nil [] h p m = cc
  differing-nil (q ∷ ps) h p m =
      go (differing-nil ps) (lookup fs q == lookup gs q) refl (p == q) refl h m
    where
      go :
          (differing fs gs ps ≡ [] → (p : Str) → contains ps p ≡ true → lookup fs p ≡ lookup gs p)
          → (same : Bool) → (lookup fs q == lookup gs q) ≡ same
          → (here : Bool) → (p == q) ≡ here
          → (if same then differing fs gs ps else q ∷ differing fs gs ps) ≡ []
          → (here || contains ps p) ≡ true
          → lookup fs p ≡ lookup gs p
      go rest false e here e' n m = cc
      go rest true e true e' n m =
          subst (λ x. lookup fs x ≡ lookup gs x) (sym ((==_iff p q).0 e'))
            ((==_iff (lookup fs q) (lookup gs q)).0 e)
      go rest true e false e' n m = rest n p m

  nil-differing :
      (ps : List Str) → ((p : Str) → lookup fs p ≡ lookup gs p) → differing fs gs ps ≡ []
  unfolding differing
  nil-differing [] h = refl
  nil-differing (q ∷ ps) h = rw ((==_iff (lookup fs q) (lookup gs q)).1 (h q)) (nil-differing ps h)

-- A path that is no key is not found.
lookup-none : (fs : Files) (p : Str) → contains (keys fs) p ≡ false → lookup fs p ≡ none
lookup-none [] p h = refl
lookup-none ((q, s) ∷ fs) p h = ground (arith, lookup-none fs p)

insert_sorted-ne-nil : (s : Str) (ss : List Str) → ¬ (insert_sorted s ss ≡ [])
unfolding insert_sorted
insert_sorted-ne-nil s [] h = cc
insert_sorted-ne-nil s (t ∷ ts) h = ground arith

pub sort_strings-nil : (ss : List Str) → sort_strings (to_set ss) ≡ [] → ss ≡ []
unfolding to_set
sort_strings-nil [] h = refl
sort_strings-nil (s ∷ ss) h = absurd (go (to_set ss) h)
  where
    sorted : (ts : List Str) → sort_strings ts ≡ [] → ts ≡ []
    sorted [] q = refl
    sorted (t ∷ ts) q = absurd (insert_sorted-ne-nil t (sort_strings ts) (unfold sort_strings in q))

    go : (ts : List Str) → sort_strings (if contains ts s then ts else s ∷ ts) ≡ [] → ⊥
    go [] q = cc (sorted (s ∷ []) q)
    go (t ∷ ts) q = pick (contains (t ∷ ts) s) (sorted _ q)
      where
        pick : (b : Bool) → (if b then t ∷ ts else s ∷ (t ∷ ts)) ≡ [] → ⊥
        pick true r = cc
        pick false r = cc

agree :
    (before after : RepositoryState)
    → changed_files before after ≡ []
    → (p : Str) → lookup before.files p ≡ lookup after.files p
unfolding changed_files
agree before after h p =
    let fs = before.files in
    let gs = after.files in
    let (l, r) = append-eq-nil (differing fs gs (keys fs)) _ h in
    elim (Bool-cases (contains (keys fs) p)) [
      | inl m ↦ differing-nil fs gs (keys fs) l p m
      | inr n ↦ elim (Bool-cases (contains (keys gs) p)) [
        | inl m ↦ differing-nil fs gs (keys gs) r p m
        | inr n' ↦ lookup-none fs p n ∙ sym (lookup-none gs p n')
      ]
    ]

with_head-nil :
    (before after : RepositoryState)
    → with_head before after ≡ []
    → (before.head ≡ after.head) × (changed_files before after ≡ [])
unfolding with_head
with_head-nil before after h = ground (arith, h)

nil-with_head :
    (before after : RepositoryState) → IsUnchanged before after → with_head before after ≡ []
unfolding with_head changed_files
nil-with_head before after u =
    rw
      (
        (==_iff before.head after.head).1 u.head,
        nil-differing before.files after.files (keys before.files) u.files,
      )
      (nil-differing before.files after.files (keys after.files) u.files)

-- What is reported when the index is the same or not, and some paths changed.
abbrev outcome : Bool → List Str → List Str
outcome same changed =
    if not same && is_nil changed then lit "<index>" ∷ [] else sort_strings (to_set changed)

outcome-nil :
    (same : Bool) (changed : List Str) → outcome same changed ≡ [] → (changed ≡ []) × (same ≡ true)
outcome-nil true changed h = (sort_strings-nil changed h, refl)
outcome-nil false [] h = cc
outcome-nil false (c ∷ cs) h = cc (sort_strings-nil (c ∷ cs) h)

no_change : outcome true [] ≡ []
unfolding sort_strings to_set
no_change = refl

-- No changed path is reported exactly when the head, the index and the state of every path that Git
-- shows are the same before and after.
pub changed_paths-nil_iff :
    (before after : RepositoryState) → (changed_paths before after ≡ []) ↔ IsUnchanged before after
unfolding changed_paths
changed_paths-nil_iff before after = (
  λ h.
      let (c, i) = outcome-nil (before.index_data == after.index_data) (with_head before after) h in
      let (same_head, f) = with_head-nil before after c in
      record {
        head = same_head;
        index = (==_iff before.index_data after.index_data).0 i;
        files = agree before after f;
      },
  λ u.
      ap₂ outcome ((==_iff before.index_data after.index_data).1 u.index)
        (nil-with_head before after u)
      ∙ no_change,
)
