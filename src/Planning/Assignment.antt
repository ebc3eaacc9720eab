-- ===== src/Planning/Assignment.antt =====
-- internal/planning/validate.go: `completeAssignment`.
use mathlib.Core.List.{Mem, Nodup, Nodup-nil, Perm, reverse_perm}
use mathlib.Core.List.Perm
use mathlib.Core.Path.{fun_ext, subst}
use mathlib.Core.Bool.{false≢true}
use commiter_cli.Base.{◌≡◌, Bool, true, false, not, Option, none, some, List, [], ◌∷◌}
use commiter_cli.Base.{
  sym, arith, ◌==◌, ◌>>=◌, ◌∙◌, ap, refl, reverse, inl, inr, Option-cases, ==_refl, ne→==, contains,
  contains→Mem, Mem→contains, eqb, length, ◌↔◌,
}
use commiter_cli.Base.Str.{Str, str_eq}
use commiter_cli.Base.Sets.{
  add_all, add_all-append, add_all-some, add_all-accepts, perm_of_subset, perm-length,
}
use commiter_cli.Planning.Types.{Commit, Plan, assigned_ids}

-- The loop over `fileIDs`: an empty or a repeated ID ends the test.
wanted_ids : List Str → Option (List Str)
wanted_ids ids = add_all (λ id. id == []) ids []

-- The loops over the commits and their IDs: an ID that is not wanted, or is assigned, ends the test.
assign_ids : List Str → List Commit → List Str → Option (List Str)
assign_ids wanted [] assigned = some assigned
assign_ids wanted (c ∷ cs) assigned =
    add_all (λ id. not (contains wanted id)) c.file_ids assigned >>= assign_ids wanted cs

unfoldable pub complete_assignment : Plan → List Str → Bool
unfolding wanted_ids assign_ids
complete_assignment plan ids = elim (wanted_ids ids) [
  | none ↦ false
  | some wanted ↦ elim (assign_ids wanted plan.commits []) [
    | none ↦ false
    | some assigned ↦ eqb (length assigned) (length wanted)
  ]
]

-- What the test decides: the IDs are distinct and not empty, and the commits' file IDs, taken
-- together, are those IDs, each exactly once.
pub record IsPartition (plan : Plan) (ids : List Str) : Type 0 where
  pub distinct : Nodup ids
  pub nonempty : ¬ Mem [] ids
  pub covers : Perm (assigned_ids plan.commits) ids

assign_ids-flat :
    (wanted : List Str) (cs : List Commit) (m : List Str)
    → assign_ids wanted cs m ≡ add_all (λ id. not (contains wanted id)) (assigned_ids cs) m
unfolding assign_ids
assign_ids-flat wanted [] m = unfold add_all in refl
assign_ids-flat wanted (c ∷ cs) m =
    rw (add_all-append, fun_ext (λ r. sym (assign_ids-flat wanted cs r)))

abbrev unwanted : List Str → Str → Bool
unwanted wanted id = not (contains wanted id)

module _ (plan : Plan) (ids : List Str) where
  complete_assignment-some :
      complete_assignment plan ids ≡ true
      → (wanted : List Str) × (assigned : List Str) × (add_all (λ id. id == []) ids []
          ≡ some wanted)
        × (add_all (unwanted wanted) (assigned_ids plan.commits) [] ≡ some assigned)
        × (length assigned ≡ length wanted)
  unfolding complete_assignment
  complete_assignment-some h = elim (Option-cases (wanted_ids ids)) [
    | inl e ↦ cc (e)
    | inr (wanted, e) ↦ elim (Option-cases (assign_ids wanted plan.commits [])) [
      | inl f ↦ absurd (ground arith)
      | inr (assigned, f) ↦
          (wanted, assigned, e, sym (assign_ids-flat wanted plan.commits []) ∙ f, ground arith)
    ]
  ]

  complete_assignment-of_some :
      (wanted assigned : List Str)
      → add_all (λ id. id == []) ids [] ≡ some wanted
      → add_all (unwanted wanted) (assigned_ids plan.commits) [] ≡ some assigned
      → length assigned ≡ length wanted
      → complete_assignment plan ids ≡ true
  unfolding complete_assignment
  complete_assignment-of_some wanted assigned e f l =
      ground (arith, assign_ids-flat wanted plan.commits [])

  complete_assignment-IsPartition : complete_assignment plan ids ≡ true → IsPartition plan ids
  complete_assignment-IsPartition h =
      let (wanted, assigned, e, f, l) = complete_assignment-some h in
      let (we, wn, wg) = add_all-some (λ id. id == []) ids [] e Nodup-nil in
      let (ae, an, ag) =
        add_all-some (unwanted wanted) (assigned_ids plan.commits) [] f Nodup-nil in
      let ws : Perm wanted ids = rw we (reverse_perm ids) in
      let as_ : Perm assigned (assigned_ids plan.commits) =
        rw ae (reverse_perm (assigned_ids plan.commits)) in
      record {
        distinct = Perm.nodup ws wn;
        nonempty = λ m. false≢true (sym (wg [] m) ∙ ==_refl {A = Str} []);
        covers =
            perm_of_subset (assigned_ids plan.commits) ids (Perm.nodup as_ an)
              (λ a m. (Perm.mem_iff ws).0 (contains→Mem wanted a (ground (arith, ag a m))))
              (omega (arith, perm-length ws, perm-length as_));
      }

  IsPartition-complete_assignment : IsPartition plan ids → complete_assignment plan ids ≡ true
  IsPartition-complete_assignment p =
      let ws : Perm (reverse ids) ids = reverse_perm ids in
      let as_ : Perm (reverse (assigned_ids plan.commits)) (assigned_ids plan.commits) =
        reverse_perm (assigned_ids plan.commits) in
      complete_assignment-of_some (reverse ids) (reverse (assigned_ids plan.commits))
        (add_all-accepts (λ id. id == []) ids [] (Perm.nodup (Perm.symm ws) p.distinct)
          (λ k m. ne→== k [] (λ e. p.nonempty (subst (λ x. Mem x ids) e m))))
        (add_all-accepts (unwanted (reverse ids)) (assigned_ids plan.commits) []
          (Perm.nodup (Perm.symm as_) (Perm.nodup (Perm.symm p.covers) p.distinct))
          (λ k m. ap not (
            Mem→contains (reverse ids) k
              ((Perm.mem_iff (Perm.symm ws)).0 ((Perm.mem_iff p.covers).0 m)))))
        (omega (arith, perm-length ws, perm-length as_, perm-length p.covers))

  -- The assignment test passes exactly when the requested IDs are distinct and nonempty and the
  -- plan's commits name each of them exactly once, and nothing else.
  pub complete_assignment_iff : (complete_assignment plan ids ≡ true) ↔ IsPartition plan ids
  complete_assignment_iff = (complete_assignment-IsPartition, IsPartition-complete_assignment)
