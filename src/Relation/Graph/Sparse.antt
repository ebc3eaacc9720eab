-- ===== src/Relation/Graph/Sparse.antt =====
-- internal/relation/graph.go: the edges of the graph, and what became of every relation.
use commiter_cli.Base.{
  ℕ, suc, ◌+◌, Bool, true, false, not, ◌&&◌, ◌||◌, List, [], ◌∷◌, ◌++◌, if◌then◌else◌, ◌==◌, ==_iff,
  contains, ◌≡◌, ◌≢◌, refl, ap, sym, ◌∙◌, length, length-append, All, arith,
}
use mathlib.Core.Path.{subst}
use commiter_cli.Base.Result.{Result, ok, err, ◌>>=◌, >>=-ok, ok-injective}
use commiter_cli.Base.Str.{Str, lit, str_eq}
use commiter_cli.Gitstate.Types.{Change}
use commiter_cli.Relation.Types.{
  Relation, Observation, Hint, Extracted, CandidateNode, ReductionReason, git_rename,
  path_proximity,
}
use commiter_cli.Relation.Order.{
  sort_by, sort_by-All, length-sort_by, sum_of, sum_sort_by, relation_less, reason_less, node_less,
  observation_less, hint_less,
}
use commiter_cli.Relation.Graph.{
  Building, CandidateGraph, add_reduction_reason, mark_renamed, append_at, add_relation,
  add_relations, finish, node_ids, build_on, build_graph, clone_observations, clone_hints, nodes_of,
  check_observations, check_hints,
}

-- An edge joins two nodes of the graph, which are different, and stands on more than near paths.
pub record IsEdge (ids : List Str) (r : Relation) : Type 0 where
  pub source : contains ids r.source_id ≡ true
  pub target : contains ids r.target_id ≡ true
  pub different : r.source_id ≢ r.target_id
  pub evident : r.kind ≢ path_proximity

-- How many relations were left out.
abbrev pub reduced : List ReductionReason → ℕ
reduced = sum_of (λ (r : ReductionReason). r.count)

reduced-add :
    (rs : List ReductionReason) (kind reason : Str)
    → reduced (add_reduction_reason rs kind reason) ≡ suc (reduced rs)
unfolding add_reduction_reason
reduced-add [] kind reason = refl
reduced-add (r ∷ rs) kind reason = ground (arith, reduced-add rs kind reason)

node_ids-mark_renamed :
    (id : Str) (ns : List CandidateNode) → node_ids (mark_renamed id ns) ≡ node_ids ns
unfolding mark_renamed
node_ids-mark_renamed id [] = refl
node_ids-mark_renamed id (n ∷ ns) = go (n.file_id == id) (node_ids-mark_renamed id ns)
  where
    go :
        (b : Bool)
        → node_ids (mark_renamed id ns) ≡ node_ids ns
        → node_ids (if b then record n { renamed = true } ∷ ns else n ∷ mark_renamed id ns)
          ≡ n.file_id ∷ node_ids ns
    go true h = refl
    go false h = ap (λ xs. n.file_id ∷ xs) h

-- The loop after `count` relations.
record Accounts (ids : List Str) (count : ℕ) (b : Building) : Type 0 where
  edges : All (IsEdge ids) b.edges
  counted : length b.edges + reduced b.pruned ≡ count
  nodes : node_ids b.nodes ≡ ids

All-snoc :
    (P : Relation → Type 0) (xs : List Relation) (x : Relation)
    → All P xs
    → P x
    → All P (xs ++ x ∷ [])
All-snoc P [] x all p = (p, tt)
All-snoc P (y ∷ xs) x (q, all) p = (q, All-snoc P xs x all p)

both_known : (a b : Bool) → (not a || not b) ≡ false → (a ≡ true) × (b ≡ true)
both_known true true h = (refl, refl)
both_known true false h = cc
both_known false b h = cc

not_same : (a b : Str) → (a == b) ≡ false → a ≢ b
not_same a b h e = let yes = (==_iff a b).1 e in cc

module _ (ids : List Str) (count : ℕ) (b : Building) (r : Relation) (a : Accounts ids count b) where
  left_out :
      (kind reason : Str) (nodes : List CandidateNode)
      → node_ids nodes ≡ ids
      → Accounts ids
          (suc count)
          (record b { nodes = nodes; pruned = add_reduction_reason b.pruned kind reason })
  left_out kind reason nodes h = record {
    edges = a.edges;
    counted = omega (arith, reduced-add b.pruned kind reason, a.counted);
    nodes = h;
  }

  add_relation-Accounts :
      (b' : Building) → add_relation ids b r ≡ ok b' → Accounts ids (suc count) b'
  unfolding add_relation
  add_relation-Accounts b' h =
      go (not (contains ids r.source_id) || not (contains ids r.target_id)) refl
        (r.kind == git_rename && r.source_id == r.target_id) (r.kind == path_proximity) refl
        (r.source_id == r.target_id) refl h
    where
      kept : Building
      kept = record b {
        edges = b.edges ++ r ∷ [];
        forward = append_at b.forward r.source_id r.target_id;
        reverse = append_at b.reverse r.target_id r.source_id;
      }

      renamed : Building
      renamed = record b {
        nodes = mark_renamed r.source_id b.nodes;
        pruned =
            add_reduction_reason b.pruned git_rename
              (lit "rename_retained_as_single_node_metadata");
      }

      near : Building
      near = record b {
        pruned =
            add_reduction_reason b.pruned path_proximity
              (lit "path_proximity_is_auxiliary_evidence");
      }

      itself : Building
      itself = record b {
        pruned =
            add_reduction_reason b.pruned r.kind (lit "self_relation_does_not_connect_component");
      }

      go :
          (missing : Bool)
          → (not (contains ids r.source_id) || not (contains ids r.target_id)) ≡ missing
          → (rename proximity : Bool) → (r.kind == path_proximity) ≡ proximity
          → (self : Bool) → (r.source_id == r.target_id) ≡ self
          → (if missing
              then err (lit "candidate graph relation references missing node")
              else if rename
              then ok renamed
              else if proximity
              then ok near
              else if self
              then ok itself
              else ok kept)
            ≡ ok b'
          → Accounts ids (suc count) b'
      go true e rename proximity p self s q = cc
      go false e true proximity p self s q =
          subst (Accounts ids (suc count)) (ok-injective _ _ q)
            (left_out _ _ _ (node_ids-mark_renamed r.source_id b.nodes ∙ a.nodes))
      go false e false true p self s q =
          subst (Accounts ids (suc count)) (ok-injective _ _ q) (left_out _ _ _ a.nodes)
      go false e false false p true s q =
          subst (Accounts ids (suc count)) (ok-injective _ _ q) (left_out _ _ _ a.nodes)
      go false e false false p false s q =
          let (known_source, known_target) =
            both_known (contains ids r.source_id) (contains ids r.target_id) e in
          subst (Accounts ids (suc count)) (ok-injective _ _ q) (record {
            edges = All-snoc (IsEdge ids) b.edges r a.edges (record {
              source = known_source;
              target = known_target;
              different = not_same r.source_id r.target_id s;
              evident = not_same r.kind path_proximity p;
            });
            counted = omega (arith, length-append b.edges (r ∷ []), a.counted);
            nodes = a.nodes;
          })

add_relations-Accounts :
    (ids : List Str) (count : ℕ) (b b' : Building) (rs : List Relation)
    → Accounts ids count b
    → add_relations ids b rs ≡ ok b'
    → Accounts ids (count + length rs) b'
unfolding add_relations
add_relations-Accounts ids count b b' [] a h =
    subst (λ n. Accounts ids n b') (omega arith) (subst (Accounts ids count) (ok-injective _ _ h) a)
add_relations-Accounts ids count b b' (r ∷ rs) a h =
    let (b1, h1, h2) = >>=-ok (add_relation ids b r) (λ b1. add_relations ids b1 rs) b' h in
    subst (λ n. Accounts ids n b') (omega arith)
      (add_relations-Accounts ids (suc count) b1 b' rs (add_relation-Accounts ids count b r a b1 h1)
        h2)

after_check :
    (check : Result (Unit {0})) (next : Result CandidateGraph) (g : CandidateGraph)
    → (check >>= λ _. next) ≡ ok g
    → next ≡ ok g
after_check (ok t) next g h = h
after_check (err m) next g h = cc

Accounts-finish :
    (ids : List Str) (count : ℕ) (observations : List Observation) (hints : List Hint)
    (b : Building)
    → Accounts ids count b
    → All
        (IsEdge (node_ids (finish observations hints b).nodes))
        (finish observations hints b).edges
      × (length (finish observations hints b).edges
            + reduced (finish observations hints b).reduction_reasons
          ≡ count)
unfolding finish
Accounts-finish ids count observations hints b a = (
  subst (λ known. All (IsEdge known) (sort_by relation_less b.edges)) (sym a.nodes)
      (sort_by-All relation_less (IsEdge ids) b.edges a.edges),
  omega (
    arith,
    length-sort_by relation_less b.edges,
    sum_sort_by reason_less (λ (r : ReductionReason). r.count) b.pruned,
    a.counted,
  ),
)

module _ (nodes : List CandidateNode) (observations : List Observation) (hints : List Hint)
    (relations : List Relation) where
  unfoldable pub start : Building
  start = record { nodes = nodes; edges = []; forward = λ id. []; reverse = λ id. []; pruned = [] }

  -- A graph is what the loop over the relations ends with, in order.
  pub build_on-finish :
      (g : CandidateGraph)
      → build_on nodes observations hints relations ≡ ok g
      → (b : Building) × (add_relations (node_ids nodes) start relations ≡ ok b)
        × (finish observations hints b ≡ g)
  unfolding build_on start
  build_on-finish g h =
      let added = add_relations (node_ids nodes) start relations in
      let end = λ (b : Building). ok (finish observations hints b) in
      let r1 =
        after_check (check_observations (node_ids nodes) observations)
          (check_hints (node_ids nodes) hints >>= λ _. added >>= end) g h in
      let r2 = after_check (check_hints (node_ids nodes) hints) (added >>= end) g r1 in
      let (b, h3, q) = >>=-ok added end g r2 in (b, h3, ok-injective _ _ q)

  build_on-IsEdge :
      (g : CandidateGraph)
      → build_on nodes observations hints relations ≡ ok g
      → All (IsEdge (node_ids g.nodes)) g.edges
        × (length g.edges + reduced g.reduction_reasons ≡ length relations)
  build_on-IsEdge g h =
      let (b, h3, q) = build_on-finish g h in
      let begun : Accounts (node_ids nodes) 0 start =
        unfold start in record { edges = tt; counted = refl; nodes = refl } in
      let a =
        subst (λ n. Accounts (node_ids nodes) n b) (omega arith)
          (add_relations-Accounts (node_ids nodes) 0 start b relations begun h3) in
      subst
        (λ x.
          All (IsEdge (node_ids x.nodes)) x.edges
          × (length x.edges + reduced x.reduction_reasons ≡ length relations))
        q (Accounts-finish (node_ids nodes) (length relations) observations hints b a)

-- A graph that is built has edges between two different ones of its nodes only, none of them for
-- near paths alone, and accounts for every relation: each is an edge or is counted under a reason.
pub build_graph-IsEdge :
    (changes : List Change) (extracted : Extracted) (g : CandidateGraph)
    → build_graph changes extracted ≡ ok g
    → All (IsEdge (node_ids g.nodes)) g.edges
      × (length g.edges + reduced g.reduction_reasons ≡ length extracted.relations)
unfolding build_graph
build_graph-IsEdge changes extracted g h =
    let (found, _, r) = >>=-ok (nodes_of [] changes) _ g h in
    build_on-IsEdge (sort_by node_less found)
      (sort_by observation_less (clone_observations extracted.observations))
      (sort_by hint_less (clone_hints extracted.hints)) extracted.relations g r
