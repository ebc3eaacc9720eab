-- ===== src/Relation/Order.antt =====
-- internal/relation/graph.go: the orders of the lists of a graph.
use commiter_cli.Base.{
  ℕ, suc, ◌+◌, Bool, true, false, List, [], ◌∷◌, ◌++◌, if◌then◌else◌, ◌==◌, length, All, ◌≡◌, refl,
  arith,
}
use mathlib.Core.List.{Perm}
use mathlib.Core.List.Perm
use commiter_cli.Base.Str.{Str, str_eq, str_lt}
use commiter_cli.Relation.Types.{Relation, Observation, Hint, CandidateNode, ReductionReason}

-- `if a != b { return a < b }`, in a row: the first two texts that differ decide.
unfoldable pub first_less : List (Str × Str) → Bool
unfolding str_lt
first_less [] = false
first_less ((a, b) ∷ rest) = let later = first_less rest in if a == b then later else str_lt a b

-- strings.Join with the byte 0
unfoldable pub joined : List Str → Str
joined [] = []
joined (s ∷ []) = s
joined (s ∷ (t ∷ ts)) = s ++ 0 ∷ joined (t ∷ ts)

-- `observationLess`
unfoldable pub observation_less : Observation → Observation → Bool
unfolding first_less joined
observation_less a b = first_less (
    (a.source_id, b.source_id)
    ∷ (a.kind, b.kind)
    ∷ (a.outcome, b.outcome)
    ∷ (a.reason, b.reason)
    ∷ (a.evidence.type, b.evidence.type)
    ∷ (a.evidence.value, b.evidence.value)
    ∷ (a.evidence.related, b.evidence.related)
    ∷ (joined a.candidate_ids, joined b.candidate_ids)
    ∷ [])

-- `hintLess`
unfoldable pub hint_less : Hint → Hint → Bool
unfolding first_less joined
hint_less a b = first_less (
    (a.kind, b.kind)
    ∷ (a.evidence.type, b.evidence.type)
    ∷ (a.evidence.value, b.evidence.value)
    ∷ (a.evidence.related, b.evidence.related)
    ∷ (joined a.file_ids, joined b.file_ids)
    ∷ [])

-- `relationLess`
unfoldable pub relation_less : Relation → Relation → Bool
unfolding first_less
relation_less a b = first_less (
    (a.source_id, b.source_id)
    ∷ (a.target_id, b.target_id)
    ∷ (a.kind, b.kind)
    ∷ (a.class, b.class)
    ∷ (a.reason, b.reason)
    ∷ (a.evidence.type, b.evidence.type)
    ∷ (a.evidence.value, b.evidence.value)
    ∷ (a.evidence.related, b.evidence.related)
    ∷ [])

unfoldable pub node_less : CandidateNode → CandidateNode → Bool
unfolding str_lt
node_less a b = str_lt a.file_id b.file_id

unfoldable pub reason_less : ReductionReason → ReductionReason → Bool
unfolding first_less
reason_less a b = first_less ((a.kind, b.kind) ∷ (a.reason, b.reason) ∷ [])

abbrev pub sum_of : {A : Type 0} → (A → ℕ) → List A → ℕ
sum_of size [] = 0
sum_of size (x ∷ xs) = size x + sum_of size xs

module _ {A : Type 0} (less : A → A → Bool) where
  unfoldable pub insert_by : A → List A → List A
  insert_by x [] = x ∷ []
  insert_by x (y ∷ ys) = let rest = insert_by x ys in if less y x then y ∷ rest else x ∷ (y ∷ ys)

  -- sort.Slice, which leaves open how elements stand that are not in order.
  unfoldable pub sort_by : List A → List A
  unfolding insert_by
  sort_by [] = []
  sort_by (x ∷ xs) = insert_by x (sort_by xs)

  length-insert_by : (x : A) (ys : List A) → length (insert_by x ys) ≡ suc (length ys)
  unfolding insert_by
  length-insert_by x [] = refl
  length-insert_by x (y ∷ ys) = ground (arith, length-insert_by x ys)

  pub length-sort_by : (xs : List A) → length (sort_by xs) ≡ length xs
  unfolding sort_by
  length-sort_by [] = refl
  length-sort_by (x ∷ xs) = omega (arith, length-insert_by x (sort_by xs), length-sort_by xs)

  -- A sum over the list does not depend on the order.
  sum_insert_by :
      (size : A → ℕ) (x : A) (ys : List A) → sum_of size (insert_by x ys) ≡ size x + sum_of size ys
  unfolding insert_by
  sum_insert_by size x [] = refl
  sum_insert_by size x (y ∷ ys) = ground (arith, sum_insert_by size x ys)

  pub sum_sort_by : (size : A → ℕ) (xs : List A) → sum_of size (sort_by xs) ≡ sum_of size xs
  unfolding sort_by
  sum_sort_by size [] = refl
  sum_sort_by size (x ∷ xs) = omega (arith, sum_insert_by size x (sort_by xs), sum_sort_by size xs)

  insert_by-All : (P : A → Type 0) (x : A) (ys : List A) → P x → All P ys → All P (insert_by x ys)
  unfolding insert_by
  insert_by-All P x [] p all = (p, tt)
  insert_by-All P x (y ∷ ys) p (q, all) = go (less y x) (insert_by-All P x ys p all)
    where
      go :
          (b : Bool)
          → All P (insert_by x ys)
          → All P (if b then y ∷ insert_by x ys else x ∷ (y ∷ ys))
      go true rest = (q, rest)
      go false rest = (p, (q, all))

  pub sort_by-All : (P : A → Type 0) (xs : List A) → All P xs → All P (sort_by xs)
  unfolding sort_by
  sort_by-All P [] all = tt
  sort_by-All P (x ∷ xs) (p, all) = insert_by-All P x (sort_by xs) p (sort_by-All P xs all)

  insert_by-perm : (x : A) (ys : List A) → Perm (insert_by x ys) (x ∷ ys)
  unfolding insert_by
  insert_by-perm x [] = Perm.refl (x ∷ [])
  insert_by-perm x (y ∷ ys) = go (less y x) (insert_by-perm x ys)
    where
      go :
          (b : Bool)
          → Perm (insert_by x ys) (x ∷ ys)
          → Perm (if b then y ∷ insert_by x ys else x ∷ (y ∷ ys)) (x ∷ (y ∷ ys))
      go true rest = Perm.trans (Perm.cons y rest) (Perm.swap x y ys)
      go false rest = Perm.refl (x ∷ (y ∷ ys))

  pub sort_by-perm : (xs : List A) → Perm (sort_by xs) xs
  unfolding sort_by
  sort_by-perm [] = Perm.refl []
  sort_by-perm (x ∷ xs) = Perm.trans (insert_by-perm x (sort_by xs)) (Perm.cons x (sort_by-perm xs))
