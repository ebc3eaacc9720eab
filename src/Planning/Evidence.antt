-- ===== src/Planning/Evidence.antt =====
-- internal/planning/three_phase.go: the evidence of breaking changes, the categories that the second
-- phase may choose by it, and the commits that the last phase completes.
mod References
pub mod Breaking
use commiter_cli.Base.{
  ℕ, Bool, false, not, ◌&&◌, ◌||◌, List, [], ◌∷◌, ◌++◌, map, Option, none, some, if◌then◌else◌,
  ◌==◌, ◌>>=◌, contains, is_nil, length, ltb, eqb, drop,
}
use commiter_cli.Base.Dict.{lookup}
use commiter_cli.Base.Sets.{add_all}
use commiter_cli.Base.Str.{Str, lit, str_eq, has_prefix}
use commiter_cli.Planning.Grouping.{CandidateGroup, InputFile, candidate_path, original_id}
use commiter_cli.Planning.Types.{Commit, allowed_types}

pub record BreakingEvidence : Type 0 where
  pub id : Str
  pub file_ids : List Str
  pub fact : Str

-- `groupingFile` and `groupingChangeBlock`, as far as the evidence reads them.
pub record ChangeBlock : Type 0 where
  pub block_id : Str
  pub start_line : ℕ
  pub end_line : ℕ

pub record GroupingFile : Type 0 where
  pub file_id : Str
  pub change_blocks : List ChangeBlock

pub record Category : Type 0 where
  pub type : Str
  pub reference : Str

pub record CommitText : Type 0 where
  pub scope : Str
  pub summary : Str

invalid_evidence : BreakingEvidence → Bool
invalid_evidence e =
    e.id == []
    || e.id == lit "none"
    || e.id == lit "unresolved"
    || has_prefix e.id (lit "git:")
    || e.fact == []
    || is_nil e.file_ids

-- The loop over the evidence of the host: the message of its error, if any.
check_evidence : List Str → List Str → List BreakingEvidence → Option Str
check_evidence ids seen [] = none
check_evidence ids seen (e ∷ es) =
    let rest = check_evidence ids (e.id ∷ seen) es in
    if invalid_evidence e
    then some (lit "invalid host breaking evidence")
    else if contains seen e.id
    then some (lit "duplicate host breaking evidence")
    else elim (add_all (λ id. not (contains ids id)) e.file_ids []) [
      | none ↦ some (lit "host breaking evidence is not bound to selected files")
      | some _ ↦ rest
    ]

unfoldable pub host_evidence_error : List Str → List BreakingEvidence → Option Str
unfolding check_evidence invalid_evidence
host_evidence_error ids es = check_evidence ids [] es

-- The evidence that the change blocks of the files are.
module _ (decimal : ℕ → Str) where
  block_evidence :
      List (Str × InputFile) → Str → GroupingFile → List ChangeBlock → List BreakingEvidence
  block_evidence files path g [] = []
  block_evidence files path g (b ∷ bs) =
      record {
        id = lit "git:" ++ (g.file_id ++ (lit ":" ++ b.block_id));
        file_ids = original_id files g.file_id ∷ [];
        fact =
            lit "Observed current Git change "
            ++ (b.block_id
                ++ (lit " in "
                    ++ (path
                        ++ (lit ", raw_diff lines "
                            ++ (decimal b.start_line
                                ++ (lit "-"
                                    ++ (decimal b.end_line
                                        ++ lit "; incompatibility is not preclassified")))))));
      }
      ∷ block_evidence files path g bs

  -- The projection has one entry for each file, in their order.
  unfoldable pub git_evidence :
      List (Str × InputFile) → List (Str × InputFile) → List GroupingFile → List BreakingEvidence
  unfolding block_evidence candidate_path original_id
  git_evidence files _ [] = []
  git_evidence files [] (g ∷ gs) = []
  git_evidence files (l ∷ ls) (g ∷ gs) =
      block_evidence files (candidate_path l.1) g g.change_blocks ++ git_evidence files ls gs

-- Whether one of the IDs is among those of a group.
unfoldable pub applies : List Str → List Str → Bool
applies group_ids [] = false
applies group_ids (id ∷ ids) = contains group_ids id || applies group_ids ids

-- The IDs of the evidence that applies to a group.
unfoldable pub applicable : List BreakingEvidence → List Str → List Str
unfolding applies
applicable [] group_ids = []
applicable (e ∷ es) group_ids =
    let rest = applicable es group_ids in if applies group_ids e.file_ids then e.id ∷ rest else rest

unfoldable pub any_confirmed : List Str → List Str → Bool
any_confirmed host_ids [] = false
any_confirmed host_ids (id ∷ ids) = contains host_ids id || any_confirmed host_ids ids

-- A rejected answer of the second phase.
pub data CategoryError : Type 0 where
  invalid_categories unresolved_evidence : CategoryError

-- The host's evidence, and all of it with that of the change blocks.
module _ (host all : List BreakingEvidence) where
  -- `allowedRefs[group.ID]`
  unfoldable pub allowed_references : List Str → List Str
  unfolding applicable any_confirmed
  allowed_references group_ids =
      let refs = lit "none" ∷ (lit "unresolved" ∷ applicable all group_ids) in
      if any_confirmed (map (λ e. e.id) host) (applicable all group_ids) then drop 1 refs else refs

  -- The loop over the groups that checks their categories.
  check_each : List (Str × Category) → List CandidateGroup → Option CategoryError
  check_each categories [] = none
  check_each categories (g ∷ gs) = elim (lookup categories g.id) [
    | none ↦ some invalid_categories
    | some c ↦
        let rest = check_each categories gs in
        if not (contains allowed_types c.type)
          || not (contains (allowed_references g.file_ids) c.reference)
        then some invalid_categories
        else if c.reference == lit "unresolved"
        then some unresolved_evidence
        else rest
  ]

  unfoldable pub check_categories :
      List (Str × Category) → List CandidateGroup → Option CategoryError
  unfolding check_each allowed_references
  check_categories categories groups =
      if not (eqb (length categories) (length groups))
      then some invalid_categories
      else check_each categories groups

-- `categories[group.ID]`
category_of : List (Str × Category) → Str → Category
category_of categories id = elim (lookup categories id) [
  | some c ↦ c
  | none ↦ record { type = []; reference = [] }
]

composed_commit : Category → CommitText → CandidateGroup → Commit
composed_commit c t g = record {
  type = c.type;
  scope = t.scope;
  breaking = not (c.reference == lit "none");
  summary = t.summary;
  file_ids = g.file_ids;
}

-- The loop over the groups that makes the commits.
compose_each :
    List (Str × Category) → List (Str × CommitText) → List CandidateGroup → Option (List Commit)
compose_each categories texts [] = some []
compose_each categories texts (g ∷ gs) = elim (lookup texts g.id) [
  | none ↦ none
  | some t ↦
      let rest = compose_each categories texts gs in
      let c = category_of categories g.id in
      if ltb 16 (length t.scope) || ltb 48 (length t.summary)
      then none
      else (rest >>= λ commits. some (composed_commit c t g ∷ commits))
]

unfoldable pub compose :
    List (Str × Category) → List (Str × CommitText) → List CandidateGroup → Option (List Commit)
unfolding compose_each category_of composed_commit
compose categories texts groups =
    if not (eqb (length texts) (length groups)) then none else compose_each categories texts groups
