-- ===== src/Commitexec/FileSet.antt =====
-- What `validateCreatedCommit` establishes: the parent of a commit, and exactly its files.
use mathlib.Core.List.{Nodup, Nodup-nil, Nodup-cons, Perm}
use mathlib.Core.List.Perm
use commiter_cli.Base.{
  ◌≡◌, refl, sym, ◌∙◌, true, List, [], ◌∷◌, none, some, arith, inl, inr, Option-cases, Bool-cases,
  contains, contains→Mem, Mem→contains, contains-false→not_mem, length,
}
use commiter_cli.Base.Str.{Str, str_eq, split}
use commiter_cli.Base.Sets.{perm_of_subset}
use commiter_cli.Commitexec.Host.{Host}
use commiter_cli.Commitexec.Paths.{path_set, same_set, subset_of, parse_paths, non_empty}
use commiter_cli.Commitexec.Checks.{validate_created}

path_set-Nodup : (vs : List Str) → Nodup (path_set vs)
unfolding path_set
path_set-Nodup [] = Nodup-nil
path_set-Nodup (v ∷ vs) = elim (Bool-cases (contains (path_set vs) v)) [
  | inl e ↦ rw e (path_set-Nodup vs)
  | inr e ↦ rw e (Nodup-cons.1 (contains-false→not_mem (path_set vs) v e, path_set-Nodup vs))
]

contains-path_set : (vs : List Str) (p : Str) → contains (path_set vs) p ≡ contains vs p
unfolding path_set
contains-path_set [] p = refl
contains-path_set (v ∷ vs) p = ground (arith, contains-path_set vs p, contains-path_set vs v)

subset_of→contains :
    (left right : List Str) (p : Str)
    → subset_of left right ≡ true
    → contains left p ≡ true
    → contains right p ≡ true
unfolding subset_of
subset_of→contains [] right p h c = cc
subset_of→contains (k ∷ ks) right p h c = ground (arith, subset_of→contains ks right p)

-- Two sets that pass the test of equal size and inclusion have the same members.
same_set-contains :
    (left right : List Str)
    → Nodup left
    → Nodup right
    → same_set left right ≡ true
    → (p : Str) → contains left p ≡ contains right p
same_set-contains left right nl nr h p =
    let sub : subset_of left right ≡ true = unfold same_set in ground arith in
    let len : length left ≡ length right = unfold same_set in ground arith in
    let perm : Perm left right =
      perm_of_subset left right nl
        (λ a m. contains→Mem right a (subset_of→contains left right a sub (Mem→contains left a m)))
        (omega arith) in
    elim (Bool-cases (contains right p)) [
      | inl e ↦ rw e (Mem→contains left p ((Perm.mem_iff perm).1 (contains→Mem right p e)))
      | inr e ↦ elim (Bool-cases (contains left p)) [
        | inl f ↦
            absurd
              (contains-false→not_mem right p e ((Perm.mem_iff perm).0 (contains→Mem left p f)))
        | inr f ↦ f ∙ sym e
      ]
    ]

parse_paths-Nodup : (value : Str) → Nodup (parse_paths value)
unfolding parse_paths
parse_paths-Nodup value = path_set-Nodup (non_empty (split 0 value))

module _ (H : Host) (w : H.World) (parent hash : Str) (paths : List Str) where
  -- A commit that passes the check has the expected parent, and the paths that Git lists for it are
  -- those that were assigned to it, no more and no fewer.
  pub validate_created-none :
      validate_created H w parent hash paths ≡ none
      → (H.parent_of w hash ≡ some parent)
        × (listing : Str) × (H.diff_tree w hash ≡ some listing)
        × ((p : Str) → contains (parse_paths listing) p ≡ contains paths p)
  unfolding validate_created
  validate_created-none h = elim (Option-cases (H.parent_of w hash)) [
    | inl e ↦ absurd (ground arith)
    | inr (actual, e) ↦ elim (Option-cases (H.diff_tree w hash)) [
      | inl f ↦ absurd (ground arith)
      | inr (listing, f) ↦
          let same : same_set (parse_paths listing) (path_set paths) ≡ true = ground arith in
          (
            ground arith,
            listing,
            f,
            λ p.
                same_set-contains (parse_paths listing) (path_set paths) (parse_paths-Nodup listing)
                  (path_set-Nodup paths) same p
                ∙ contains-path_set paths p,
          )
    ]
  ]
