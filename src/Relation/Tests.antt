-- ===== src/Relation/Tests.antt =====
-- internal/relation: two files, and relations of which one is an edge.
use commiter_cli.Base.{
  ◌≡◌, ◌+◌, refl, Bool, true, false, List, [], ◌∷◌, Option, none, some, length, All,
}
use commiter_cli.Base.Result.{ok, err}
use commiter_cli.Base.Str.{Str, lit, sort_strings}
use commiter_cli.Gitstate.Types.{Change}
use commiter_cli.Relation.Types.{Relation, Extracted, CandidateNode, git_rename, path_proximity}
use commiter_cli.Relation.Graph.{CandidateGraph, Building, build_graph, finish, append_at}
use commiter_cli.Relation.Graph.Faithful.{IsFaithful, build_graph-IsFaithful}

abbrev change : Str → Change
change = λ id. record {
  id = id;
  status = lit "modified";
  old_path = some id;
  new_path = some id;
  old_mode = none;
  new_mode = none;
  head_identity = none;
  worktree_kind = lit "file";
  worktree_id = none;
  language = [];
  size = 1;
  binary = false;
  vendor = false;
  opaque = false;
  sensitive = false;
  staged = false;
  unstaged = true;
  change_hash = [];
}

abbrev related : Str → Str → Str → Relation
related = λ source target kind. record {
  source_id = source;
  target_id = target;
  kind = kind;
  class = lit "hard";
  reason = [];
  evidence = record { type = []; value = []; related = [] };
}

abbrev changes : List Change
changes = change (lit "b") ∷ change (lit "a") ∷ []

abbrev extracted : Extracted
extracted = record {
  relations =
      related (lit "a") (lit "b") (lit "source_test")
      ∷ related (lit "a") (lit "b") path_proximity
      ∷ related (lit "b") (lit "b") git_rename
      ∷ [];
  observations = [];
  hints = [];
}

abbrev node : Str → Bool → CandidateNode
node =
    λ id renamed. record { file_id = id; old_path = some id; new_path = some id; renamed = renamed }

abbrev loop_end : Building
loop_end = record {
  nodes = node (lit "a") false ∷ node (lit "b") true ∷ [];
  edges = related (lit "a") (lit "b") (lit "source_test") ∷ [];
  forward = append_at (λ id. []) (lit "a") (lit "b");
  reverse = append_at (λ id. []) (lit "b") (lit "a");
  pruned =
      record {
        kind = path_proximity;
        reason = lit "path_proximity_is_auxiliary_evidence";
        count = 1;
      }
      ∷ record {
        kind = git_rename;
        reason = lit "rename_retained_as_single_node_metadata";
        count = 1;
      }
      ∷ [];
}

abbrev graph : CandidateGraph
graph = finish [] [] loop_end

built : build_graph changes extracted ≡ ok graph
unfolding build_graph commiter_cli.Base.Str.str_eq commiter_cli.Relation.Order.sort_by
    commiter_cli.Relation.Order.node_less
built = refl

build_graph-IsFaithful_example : IsFaithful extracted.relations graph
build_graph-IsFaithful_example = build_graph-IsFaithful changes extracted graph built

-- A relation of a file that did not change is an error.
unknown_node :
    build_graph changes
      (record extracted { relations = related (lit "a") (lit "z") git_rename ∷ [] })
    ≡ err (lit "candidate graph relation references missing node")
unfolding build_graph commiter_cli.Base.Str.str_eq commiter_cli.Relation.Order.sort_by
    commiter_cli.Relation.Order.node_less
unknown_node = refl
