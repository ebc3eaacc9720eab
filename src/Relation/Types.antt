-- ===== src/Relation/Types.antt =====
-- internal/relation/extract.go, graph.go: relations, observations, hints and the nodes of the graph.
use commiter_cli.Base.{ℕ, Bool, Option, List}
use commiter_cli.Base.Str.{Str, lit}

abbrev pub git_rename : Str
git_rename = lit "git_rename"

abbrev pub path_proximity : Str
path_proximity = lit "path_proximity"

pub record Evidence : Type 0 where
  pub type : Str
  pub value : Str
  pub related : Str

-- The score, which the graph does not read, is left out.
pub record Relation : Type 0 where
  pub source_id : Str
  pub target_id : Str
  pub kind : Str
  pub class : Str
  pub reason : Str
  pub evidence : Evidence

pub record Observation : Type 0 where
  pub source_id : Str
  pub kind : Str
  pub outcome : Str
  pub reason : Str
  pub evidence : Evidence
  pub candidate_ids : List Str

pub record Hint : Type 0 where
  pub kind : Str
  pub evidence : Evidence
  pub file_ids : List Str

-- `Result`
pub record Extracted : Type 0 where
  pub relations : List Relation
  pub observations : List Observation
  pub hints : List Hint

pub record CandidateNode : Type 0 where
  pub file_id : Str
  pub old_path : Option Str
  pub new_path : Option Str
  pub renamed : Bool

pub record ReductionReason : Type 0 where
  pub kind : Str
  pub reason : Str
  pub count : ℕ
