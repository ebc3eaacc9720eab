-- ===== src/Relation/Graph/Faithful.antt =====
-- internal/relation/graph.go: what a graph says of the relations that it was built from.
use mathlib.Core.List.{Perm, append_assoc, append-nil}
use mathlib.Core.List.Perm
use mathlib.Core.Path.{subst}
use commiter_cli.Base.{
  ℕ, ◌+◌, Bool, true, false, not, ◌&&◌, ◌||◌, List, [], ◌∷◌, ◌++◌, if◌then◌else◌, ◌==◌, ==_iff,
  contains, ◌≡◌, refl, ap, sym, ◌∙◌, All, arith, inl, inr, Bool-cases,
}
use commiter_cli.Base.Result.{ok, >>=-ok, ok-injective}
use commiter_cli.Base.Str.{Str, str_eq, sort_strings, insert_sorted}
use commiter_cli.Gitstate.Types.{Change}
use commiter_cli.Relation.Types.{
  Relation, Observation, Hint, Extracted, CandidateNode, ReductionReason, git_rename,
  path_proximity,
}
use commiter_cli.Relation.Order.{
  sort_by, sort_by-perm, sum_of, sum_sort_by, relation_less, reason_less, node_less,
  observation_less, hint_less,
}
use commiter_cli.Relation.Graph.{
  Building, CandidateGraph, add_reduction_reason, append_unique, append_at, add_relation,
  add_relations, finish, node_ids, build_graph, clone_observations, clone_hints, nodes_of,
}
use commiter_cli.Relation.Graph.Sparse.{IsEdge, start, build_on-finish, build_graph-IsEdge}

-- A relation connects two files if they are different and it stands on more than near paths.
abbrev pub connects : Relation → Bool
connects r = not (r.kind == path_proximity || r.source_id == r.target_id)

abbrev pub connecting : List Relation → List Relation
connecting [] = []
connecting (r ∷ rs) = if connects r then r ∷ connecting rs else connecting rs

-- How many of the relations of a kind connect nothing, and how many a graph has counted.
abbrev pub idle_of : Str → List Relation → ℕ
idle_of kind [] = 0
idle_of kind (r ∷ rs) =
    (if connects r then 0 else if r.kind == kind then 1 else 0) + idle_of kind rs

abbrev pub reduced_of : Str → List ReductionReason → ℕ
reduced_of kind = sum_of (λ (r : ReductionReason). if r.kind == kind then r.count else 0)

-- Whether a connecting relation leads from one file to another.
abbrev pub leads : List Relation → Str → Str → Bool
leads [] s t = false
leads (r ∷ rs) s t = connects r && (s == r.source_id && t == r.target_id) || leads rs s t

-- The graph says of the relations: its edges are those that connect, as they are, in some order; by
-- each kind, it has counted those that do not; and the neighbours of a file are the ends of the
-- relations that begin there, or the beginnings of those that end there.
pub record IsFaithful (relations : List Relation) (g : CandidateGraph) : Type 0 where
  pub edges : Perm g.edges (connecting relations)
  pub known : All (IsEdge (node_ids g.nodes)) g.edges
  pub counted : (kind : Str) → reduced_of kind g.reduction_reasons ≡ idle_of kind relations
  pub forward : (s t : Str) → contains (g.forward s) t ≡ leads relations s t
  pub reverse : (s t : Str) → contains (g.reverse t) s ≡ leads relations s t

-- What the loop over some relations adds.
record Adds (rs : List Relation) (b b' : Building) : Type 0 where
  edges : b'.edges ≡ b.edges ++ connecting rs
  counted : (kind : Str) → reduced_of kind b'.pruned ≡ reduced_of kind b.pruned + idle_of kind rs
  forward : (s t : Str) → contains (b'.forward s) t ≡ (contains (b.forward s) t || leads rs s t)
  reverse : (s t : Str) → contains (b'.reverse t) s ≡ (contains (b.reverse t) s || leads rs s t)

reduced_of-add :
    (of kind reason : Str) (rs : List ReductionReason)
    → reduced_of of (add_reduction_reason rs kind reason)
      ≡ (if kind == of then 1 else 0) + reduced_of of rs
unfolding add_reduction_reason
reduced_of-add of kind reason [] = refl
reduced_of-add of kind reason (r ∷ rs) = elim (Bool-cases (r.kind == kind && r.reason == reason)) [
  | inl e ↦
      let same : (r.kind == of) ≡ (kind == of) =
        ap (λ k. k == of) ((==_iff r.kind kind).0 (ground (arith, e))) in
      rw (e, same) (ground arith)
  | inr e ↦ rw (e, reduced_of-add of kind reason rs) (omega arith)
]

contains-snoc :
    (values : List Str) (value x : Str)
    → contains (values ++ value ∷ []) x ≡ (contains values x || x == value)
contains-snoc [] value x = ground arith
contains-snoc (v ∷ values) value x = ground (arith, contains-snoc values value x)

contains-append_unique :
    (values : List Str) (value x : Str)
    → contains (append_unique values value) x ≡ (contains values x || x == value)
unfolding append_unique
contains-append_unique values value x = elim (Bool-cases (contains values value)) [
  | inr e ↦ rw e (contains-snoc values value x)
  | inl e ↦ elim (Bool-cases (x == value)) [
    | inr f ↦ rw (e, f) (ground arith)
    | inl f ↦
        let here : contains values x ≡ true = ap (contains values) ((==_iff x value).0 f) ∙ e in
        rw (e, f, here) refl
  ]
]

contains-append_at :
    (m : Str → List Str) (key value s t : Str)
    → contains (append_at m key value s) t ≡ (contains (m s) t || (s == key && t == value))
unfolding append_at
contains-append_at m key value s t = ground (arith, contains-append_unique (m s) value t)

contains-insert_sorted :
    (y : Str) (xs : List Str) (x : Str) → contains (insert_sorted y xs) x ≡ contains (y ∷ xs) x
unfolding insert_sorted
contains-insert_sorted y [] x = refl
contains-insert_sorted y (z ∷ xs) x = ground (arith, contains-insert_sorted y xs x)

contains-sort_strings : (xs : List Str) (x : Str) → contains (sort_strings xs) x ≡ contains xs x
unfolding sort_strings
contains-sort_strings [] x = refl
contains-sort_strings (y ∷ xs) x =
    ground (arith, contains-insert_sorted y (sort_strings xs) x, contains-sort_strings xs x)

-- One relation.
module _ (ids : List Str) (b : Building) (r : Relation) where
  counts_idle :
      (kind reason : Str) (nodes : List CandidateNode)
      → r.kind ≡ kind
      → connects r ≡ false
      → Adds
          (r ∷ [])
          b
          (record b { nodes = nodes; pruned = add_reduction_reason b.pruned kind reason })
  counts_idle kind reason nodes same idle = record {
    edges = rw idle (sym (append-nil b.edges));
    counted = λ of. rw (idle, same, reduced_of-add of kind reason b.pruned) (omega arith);
    forward = λ s t. rw idle (ground arith);
    reverse = λ s t. rw idle (ground arith);
  }

  joins_ends :
      connects r ≡ true
      → Adds (r ∷ []) b (record b {
        edges = b.edges ++ r ∷ [];
        forward = append_at b.forward r.source_id r.target_id;
        reverse = append_at b.reverse r.target_id r.source_id;
      })
  joins_ends joined = record {
    edges = rw joined refl;
    counted = λ of. rw joined (omega arith);
    forward =
        λ s t. rw (joined, contains-append_at b.forward r.source_id r.target_id s t) (ground arith);
    reverse =
        λ s t. rw (joined, contains-append_at b.reverse r.target_id r.source_id t s) (ground arith);
  }

  add_relation-Adds : (b' : Building) → add_relation ids b r ≡ ok b' → Adds (r ∷ []) b b'
  unfolding add_relation
  add_relation-Adds b' h =
      elim (Bool-cases (not (contains ids r.source_id) || not (contains ids r.target_id))) [
        | inl e ↦ absurd (ground (arith, e, h))
        | inr e ↦ elim (Bool-cases (r.kind == git_rename && r.source_id == r.target_id)) [
          | inl f ↦ subst (Adds (r ∷ []) b) (ok-injective _ _ (rw (e, f) at h)) (
              counts_idle git_rename _ _ ((==_iff r.kind git_rename).0 (ground (arith, f)))
                (ground (arith, f)))
          | inr f ↦ elim (Bool-cases (r.kind == path_proximity)) [
            | inl g ↦ subst (Adds (r ∷ []) b) (ok-injective _ _ (rw (e, f, g) at h)) (
                counts_idle path_proximity _ b.nodes ((==_iff r.kind path_proximity).0 g)
                  (ground (arith, g)))
            | inr g ↦ elim (Bool-cases (r.source_id == r.target_id)) [
              | inl k ↦
                  subst (Adds (r ∷ []) b) (ok-injective _ _ (rw (e, f, g, k) at h))
                    (counts_idle r.kind _ b.nodes refl (ground (arith, g, k)))
              | inr k ↦
                  subst (Adds (r ∷ []) b) (ok-injective _ _ (rw (e, f, g, k) at h))
                    (joins_ends (ground (arith, g, k)))
            ]
          ]
        ]
      ]

connecting-cons :
    (r : Relation) (rs : List Relation) → connecting (r ∷ rs) ≡ connecting (r ∷ []) ++ connecting rs
connecting-cons r rs = elim (Bool-cases (connects r)) [ inl e ↦ rw e refl | inr e ↦ rw e refl ]

Adds-cons :
    (r : Relation) (rs : List Relation) (b b1 b2 : Building)
    → Adds (r ∷ []) b b1
    → Adds rs b1 b2
    → Adds (r ∷ rs) b b2
Adds-cons r rs b b1 b2 one rest = record {
  edges =
      rest.edges
      ∙ ap (λ xs. xs ++ connecting rs) one.edges
      ∙ append_assoc b.edges (connecting (r ∷ [])) (connecting rs)
      ∙ ap (λ xs. b.edges ++ xs) (sym (connecting-cons r rs));
  counted = λ kind. omega (arith, one.counted kind, rest.counted kind);
  forward = λ s t. rw (rest.forward s t, one.forward s t) (ground arith);
  reverse = λ s t. rw (rest.reverse s t, one.reverse s t) (ground arith);
}

add_relations-Adds :
    (ids : List Str) (rs : List Relation) (b b' : Building)
    → add_relations ids b rs ≡ ok b'
    → Adds rs b b'
unfolding add_relations
add_relations-Adds ids [] b b' h = subst (Adds [] b) (ok-injective _ _ h) (record {
  edges = sym (append-nil b.edges);
  counted = λ kind. omega arith;
  forward = λ s t. ground arith;
  reverse = λ s t. ground arith;
})
add_relations-Adds ids (r ∷ rs) b b' h =
    let (b1, h1, h2) = >>=-ok (add_relation ids b r) (λ b1. add_relations ids b1 rs) b' h in
    Adds-cons r rs b b1 b' (add_relation-Adds ids b r b1 h1) (add_relations-Adds ids rs b1 b' h2)

finish-IsFaithful :
    (nodes : List CandidateNode) (observations : List Observation) (hints : List Hint)
    (relations : List Relation) (b : Building)
    → Adds relations (start nodes observations hints relations) b
    → All
        (IsEdge (node_ids (finish observations hints b).nodes))
        (finish observations hints b).edges
    → IsFaithful relations (finish observations hints b)
unfolding finish start
finish-IsFaithful nodes observations hints relations b a known = record {
  edges =
      Perm.trans (sort_by-perm relation_less b.edges)
        (rw a.edges (Perm.refl (connecting relations)));
  known = known;
  counted = λ kind. omega (
    arith,
    sum_sort_by reason_less (λ (r : ReductionReason). if r.kind == kind then r.count else 0)
        b.pruned,
    a.counted kind,
  );
  forward = λ s t. contains-sort_strings (b.forward s) t ∙ a.forward s t;
  reverse = λ s t. contains-sort_strings (b.reverse t) s ∙ a.reverse s t;
}

-- A graph that is built says of the relations what they say: its edges are those that join two
-- different nodes for more than near paths, with their sources and targets, in some order; it has
-- counted the others, kind by kind; and its maps list the neighbours that the edges lead to and
-- come from.
pub build_graph-IsFaithful :
    (changes : List Change) (extracted : Extracted) (g : CandidateGraph)
    → build_graph changes extracted ≡ ok g
    → IsFaithful extracted.relations g
unfolding build_graph
build_graph-IsFaithful changes extracted g h =
    let (found, _, r) = >>=-ok (nodes_of [] changes) _ g h in
    let nodes = sort_by node_less found in
    let observations = sort_by observation_less (clone_observations extracted.observations) in
    let hints = sort_by hint_less (clone_hints extracted.hints) in
    let (b, added, same) = build_on-finish nodes observations hints extracted.relations g r in
    let known = (build_graph-IsEdge changes extracted g h).0 in
    subst (IsFaithful extracted.relations) same (
      finish-IsFaithful nodes observations hints extracted.relations b
        (add_relations-Adds (node_ids nodes) extracted.relations _ b added)
        (subst (λ x. All (IsEdge (node_ids x.nodes)) x.edges) (sym same) known))
