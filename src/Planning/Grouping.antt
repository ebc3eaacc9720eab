-- ===== src/Planning/Grouping.antt =====
-- internal/planning/three_phase.go: the files that the planner shows, and the groups that the answer
-- of the first phase makes of them; internal/contextinput/raw_diff.go and harness004.go: their
-- projection and their order.
use commiter_cli.Base.{
  ℕ, zero, suc, Bool, true, false, not, ◌&&◌, ◌||◌, List, [], ◌∷◌, ◌++◌, map, Option, none, some,
  if◌then◌else◌, ◌==◌, ◌>>=◌, contains, length, eqb, ltb, drop,
}
use commiter_cli.Base.Atoi.{digit}
use commiter_cli.Base.Dict.{lookup, insert}
use commiter_cli.Base.Str.{Str, lit, str_eq, str_lt, trim_left}

pub data Mode : Type 0 where
  structural raw_diff metadata_only : Mode

-- `contextinput.File`, as far as the planner itself reads or writes it.
pub record InputFile : Type 0 where
  pub id : Str
  pub old_path : Option Str
  pub new_path : Option Str
  pub mode : Mode
  pub binary : Bool
  pub opaque : Bool
  pub grouping_raw_diff : Str
  pub raw_diff : Str

-- `candidatePath`
unfoldable pub candidate_path : InputFile → Str
candidate_path f = elim f.new_path [
  | some p ↦ p
  | none ↦ elim f.old_path [ some p ↦ p | none ↦ [] ]
]

is_metadata_only : Mode → Bool
is_metadata_only metadata_only = true
is_metadata_only _ = false

is_structural : Mode → Bool
is_structural structural = true
is_structural _ = false

-- The body of the loop of `RawDiffProjection`.
project_file : InputFile → Option InputFile
project_file f =
    let diff = if f.grouping_raw_diff == [] then f.raw_diff else f.grouping_raw_diff in
    if is_metadata_only f.mode || f.binary || f.opaque
    then some f
    else if diff == [] && is_structural f.mode
    then none
    else some (record f { mode = raw_diff; raw_diff = diff })

-- `RawDiffProjection`
unfoldable pub raw_diff_projection : List InputFile → Option (List InputFile)
unfolding project_file is_metadata_only is_structural
raw_diff_projection [] = some []
raw_diff_projection (f ∷ fs) =
    project_file f >>= λ p. raw_diff_projection fs >>= λ ps. some (p ∷ ps)

-- A text cut behind its leading digits.
cut_digits : Str → Str × Str
cut_digits [] = ([], [])
cut_digits (c ∷ s) =
    let rest = cut_digits s in if digit c then (c ∷ rest.0, rest.1) else ([], c ∷ s)

-- How two runs of digits compare, as numbers and then as texts; none if they are the same.
compare_digits : Str → Str → Option Bool
compare_digits a b =
    let x = trim_left (λ c. eqb c b'0') a in
    let y = trim_left (λ c. eqb c b'0') b in
    if not (eqb (length x) (length y))
    then some (ltb (length x) (length y))
    else if not (x == y)
    then some (str_lt x y)
    else if not (a == b)
    then some (str_lt a b)
    else none

-- The loop of `naturalLess`. Each round takes at least one byte from the first text, so its length
-- is fuel enough.
natural_from : ℕ → Str → Str → Bool
natural_from zero a b = ltb (length a) (length b)
natural_from (suc n) [] b = ltb 0 (length b)
natural_from (suc n) (c ∷ a) [] = false
natural_from (suc n) (c ∷ a) (d ∷ b) =
    let (run_a, rest_a) = cut_digits (c ∷ a) in
    let (run_b, rest_b) = cut_digits (d ∷ b) in
    let behind = natural_from n rest_a rest_b in
    let next = natural_from n a b in
    if digit c && digit d
    then elim (compare_digits run_a run_b) [ some less ↦ less | none ↦ behind ]
    else if not (eqb c d)
    then ltb c d
    else next

unfoldable pub natural_less : Str → Str → Bool
unfolding natural_from cut_digits compare_digits
natural_less a b = natural_from (length a) a b

insert_file : InputFile → List InputFile → List InputFile
insert_file f [] = f ∷ []
insert_file f (g ∷ gs) =
    if natural_less (candidate_path g) (candidate_path f)
    then g ∷ insert_file f gs
    else f ∷ (g ∷ gs)

-- The call of `sort.Slice`.
unfoldable pub sort_files : List InputFile → List InputFile
unfolding insert_file natural_less candidate_path
sort_files [] = []
sort_files (f ∷ fs) = insert_file f (sort_files fs)

-- One group, with the restored IDs of its files and the files as they are shown.
pub record CandidateGroup : Type 0 where
  pub id : Str
  pub file_ids : List Str
  pub files : List InputFile

-- `inverse[id]`, empty for an unknown label.
unfoldable pub original_id : List (Str × InputFile) → Str → Str
original_id [] id = []
original_id ((original, f) ∷ fs) id = if f.id == id then original else original_id fs id

membership_known : List (Str × InputFile) → List (Str × Str) → Bool
membership_known files [] = true
membership_known files ((id, label) ∷ m) =
    not (original_id files id == []) && membership_known files m

-- `decimal` is the text of fmt for `%d`.
module _ (decimal : ℕ → Str) where
  -- `fmt.Sprintf("F%d", n)` and `fmt.Sprintf("G%03d", n)`
  unfoldable pub file_label : ℕ → Str
  file_label n = lit "F" ++ decimal n

  unfoldable pub group_label : ℕ → Str
  group_label n = lit "G" ++ (drop (length (decimal n)) (lit "000") ++ decimal n)

  -- The loop that labels the files, from the number `n` on: each file has its ID replaced by its
  -- label, and stands beside the ID it had.
  label_files : ℕ → List Str → List InputFile → Option (List (Str × InputFile))
  label_files n seen [] = some []
  label_files n seen (f ∷ fs) =
      let rest = label_files (suc n) (candidate_path f ∷ seen) fs in
      if candidate_path f == [] || contains seen (candidate_path f)
      then none
      else (rest >>= λ ls. some ((f.id, record f { id = file_label n }) ∷ ls))

  unfoldable pub labelled_files : List InputFile → Option (List (Str × InputFile))
  unfolding label_files candidate_path file_label
  labelled_files = label_files 1 []

  -- The group labels that an answer may use, one for each file.
  group_labels_from : ℕ → List (Str × InputFile) → List Str
  group_labels_from n [] = []
  group_labels_from n (l ∷ ls) = group_label n ∷ group_labels_from (suc n) ls

  unfoldable pub group_labels : List (Str × InputFile) → List Str
  unfolding group_labels_from group_label
  group_labels = group_labels_from 1

  -- `groups` with `groupIndex`: the groups so far in order, each under the label of the answer.
  add_to_group : List (Str × CandidateGroup) → Str → Str → InputFile → List (Str × CandidateGroup)
  add_to_group groups label original f = elim (lookup groups label) [
    | none ↦
        groups
        ++ ((
          label,
          record {
            id = group_label (suc (length groups));
            file_ids = original ∷ [];
            files = f ∷ [];
          },
        )
            ∷ [])
    | some g ↦
        insert groups label
          (record g { file_ids = g.file_ids ++ (original ∷ []); files = g.files ++ (f ∷ []) })
  ]

  -- The loop that puts the files into groups by the answer, `membership`.
  group_files :
      List Str
      → List (Str × Str)
      → List (Str × InputFile)
      → List (Str × CandidateGroup)
      → Option (List (Str × CandidateGroup))
  group_files labels membership [] groups = some groups
  group_files labels membership ((original, f) ∷ fs) groups = elim (lookup membership f.id) [
    | none ↦ none
    | some label ↦
        let rest = group_files labels membership fs (add_to_group groups label original f) in
        if contains labels label then rest else none
  ]

  -- The groups of an answer; none where the source reports `InvalidAssignment`.
  unfoldable pub grouped : List (Str × InputFile) → List (Str × Str) → Option (List CandidateGroup)
  unfolding group_files add_to_group group_label group_labels original_id membership_known
  grouped files membership =
      if not (eqb (length membership) (length files))
      then none
      else (group_files (group_labels files) membership files [] >>= λ groups.
          if membership_known files membership then some (map (λ g. g.1) groups) else none)
