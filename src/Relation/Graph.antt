-- ===== src/Relation/Graph.antt =====
-- internal/relation/graph.go: `BuildGraph` up to its components and statistics.
pub mod Sparse
pub mod Faithful
use commiter_cli.Base.{
  ℕ, suc, ◌+◌, Bool, true, false, not, ◌&&◌, ◌||◌, List, [], ◌∷◌, ◌++◌, map, if◌then◌else◌, ◌==◌,
  contains, Option,
}
use commiter_cli.Base.Dict.{lookup, insert}
use commiter_cli.Base.Result.{Result, ok, err, ◌>>=◌}
use commiter_cli.Base.Sets.{add}
use commiter_cli.Base.Str.{Str, lit, str_eq, sort_strings}
use commiter_cli.Gitstate.Types.{Change}
use commiter_cli.Relation.Types.{
  Relation, Observation, Hint, Extracted, CandidateNode, ReductionReason, git_rename,
  path_proximity,
}
use commiter_cli.Relation.Order.{
  sort_by, observation_less, hint_less, relation_less, node_less, reason_less,
}

-- The loop over the changes: their IDs are not empty and distinct.
unfoldable pub nodes_of : List Str → List Change → Result (List CandidateNode)
nodes_of seen [] = ok []
nodes_of seen (c ∷ cs) =
    if c.id == []
    then err (lit "candidate graph input has an empty file ID")
    else if contains seen c.id
    then err (lit "candidate graph input has duplicate file IDs")
    else nodes_of (c.id ∷ seen) cs >>= λ rest. ok (
        record {
          file_id = c.id;
          old_path = c.old_path;
          new_path = c.new_path;
          renamed = c.status == lit "renamed";
        }
        ∷ rest)

-- `cloneObservations` and `cloneHints`: the IDs of each in order.
unfoldable pub clone_observations : List Observation → List Observation
clone_observations =
    map (λ (o : Observation). record o { candidate_ids = sort_strings o.candidate_ids })

unfoldable pub clone_hints : List Hint → List Hint
clone_hints = map (λ (h : Hint). record h { file_ids = sort_strings h.file_ids })

unfoldable pub all_known : List Str → List Str → Bool
all_known ids [] = true
all_known ids (s ∷ ss) = contains ids s && all_known ids ss

unfoldable pub check_observations : List Str → List Observation → Result (Unit {0})
unfolding all_known
check_observations ids [] = ok tt
check_observations ids (o ∷ os) =
    if not (contains ids o.source_id)
    then err (lit "candidate graph observation references missing file ID")
    else if not (all_known ids o.candidate_ids)
    then err (lit "candidate graph observation references missing candidate file ID")
    else check_observations ids os

unfoldable pub check_hints : List Str → List Hint → Result (Unit {0})
unfolding all_known
check_hints ids [] = ok tt
check_hints ids (h ∷ hs) =
    if not (all_known ids h.file_ids)
    then err (lit "candidate graph hint references missing file ID")
    else check_hints ids hs

-- What the loop over the relations changes.
pub record Building : Type 0 where
  pub nodes : List CandidateNode
  pub edges : List Relation
  pub forward : Str → List Str
  pub reverse : Str → List Str
  pub pruned : List ReductionReason

-- `addReductionReason`
unfoldable pub add_reduction_reason : List ReductionReason → Str → Str → List ReductionReason
add_reduction_reason [] kind reason = record { kind = kind; reason = reason; count = 1 } ∷ []
add_reduction_reason (r ∷ rs) kind reason =
    let rest = add_reduction_reason rs kind reason in
    if r.kind == kind && r.reason == reason then record r { count = suc r.count } ∷ rs else r ∷ rest

unfoldable pub mark_renamed : Str → List CandidateNode → List CandidateNode
mark_renamed id [] = []
mark_renamed id (n ∷ ns) =
    let rest = mark_renamed id ns in
    if n.file_id == id then record n { renamed = true } ∷ ns else n ∷ rest

-- `appendUnique` (internal/relation/extract.go)
unfoldable pub append_unique : List Str → Str → List Str
append_unique values value = if contains values value then values else values ++ value ∷ []

-- `m[key] = appendUnique(m[key], value)`
unfoldable pub append_at : (Str → List Str) → Str → Str → Str → List Str
unfolding append_unique
append_at m key value other = if other == key then append_unique (m other) value else m other

-- One relation: an edge, or a reason why it is none.
unfoldable pub add_relation : List Str → Building → Relation → Result Building
unfolding add_reduction_reason mark_renamed append_at
add_relation ids b r =
    if not (contains ids r.source_id) || not (contains ids r.target_id)
    then err (lit "candidate graph relation references missing node")
    else if r.kind == git_rename && r.source_id == r.target_id
    then ok (record b {
      nodes = mark_renamed r.source_id b.nodes;
      pruned =
          add_reduction_reason b.pruned git_rename (lit "rename_retained_as_single_node_metadata");
    })
    else if r.kind == path_proximity
    then ok (record b {
      pruned =
          add_reduction_reason b.pruned path_proximity (lit "path_proximity_is_auxiliary_evidence");
    })
    else if r.source_id == r.target_id
    then ok (record b {
      pruned =
          add_reduction_reason b.pruned r.kind (lit "self_relation_does_not_connect_component");
    })
    else ok (record b {
      edges = b.edges ++ r ∷ [];
      forward = append_at b.forward r.source_id r.target_id;
      reverse = append_at b.reverse r.target_id r.source_id;
    })

unfoldable pub add_relations : List Str → Building → List Relation → Result Building
unfolding add_relation
add_relations ids b [] = ok b
add_relations ids b (r ∷ rs) = add_relation ids b r >>= λ b'. add_relations ids b' rs

-- The maps of the graph are functions, with no neighbours where there is no node.
pub record CandidateGraph : Type 0 where
  pub nodes : List CandidateNode
  pub edges : List Relation
  pub forward : Str → List Str
  pub reverse : Str → List Str
  pub observations : List Observation
  pub hints : List Hint
  pub reduction_reasons : List ReductionReason

unfoldable pub finish : List Observation → List Hint → Building → CandidateGraph
finish observations hints b = record {
  nodes = b.nodes;
  edges = sort_by relation_less b.edges;
  forward = λ id. sort_strings (b.forward id);
  reverse = λ id. sort_strings (b.reverse id);
  observations = observations;
  hints = hints;
  reduction_reasons = sort_by reason_less b.pruned;
}

abbrev pub node_ids : List CandidateNode → List Str
node_ids = map (λ (n : CandidateNode). n.file_id)

-- The checks of the references and the loop over the relations, for nodes in order.
unfoldable pub build_on :
    List CandidateNode → List Observation → List Hint → List Relation → Result CandidateGraph
unfolding check_observations check_hints add_relations finish
build_on nodes observations hints relations =
    check_observations (node_ids nodes) observations >>= λ _.
    check_hints (node_ids nodes) hints >>= λ _.
    add_relations (node_ids nodes)
      (record { nodes = nodes; edges = []; forward = λ id. []; reverse = λ id. []; pruned = [] })
      relations
    >>= λ b. ok (finish observations hints b)

-- `BuildGraph`
unfoldable pub build_graph : List Change → Extracted → Result CandidateGraph
unfolding nodes_of clone_observations clone_hints build_on
build_graph changes extracted = nodes_of [] changes >>= λ found.
    build_on (sort_by node_less found)
      (sort_by observation_less (clone_observations extracted.observations))
      (sort_by hint_less (clone_hints extracted.hints)) extracted.relations
