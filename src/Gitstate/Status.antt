-- ===== src/Gitstate/Status.antt =====
-- internal/gitstate/status.go: the changes that `git status --porcelain=v2 -z` reports.
use commiter_cli.Base.{
  ℕ, zero, suc, ◌+◌, Bool, true, false, not, ◌&&◌, ◌||◌, List, [], ◌∷◌, Option, none, some,
  if◌then◌else◌, ◌==◌, eqb, is_nil, length, option_eq,
}
use commiter_cli.Base.Str.{Str, lit, str_eq, split, split_n, any}
use commiter_cli.Gitstate.Errors.{Result, ok, err, ErrorKind, ◌>>=◌}
use commiter_cli.Gitstate.RepoPath.{normalize_repo_path}

pub record RawChange : Type 0 where
  pub status : Str
  pub old_path : Option Str
  pub new_path : Option Str
  pub old_mode : Option Str
  pub index_mode : Option Str
  pub head_identity : Option Str
  pub index_id : Option Str
  pub staged : Bool
  pub unstaged : Bool
  pub untracked : Bool

abbrev pub added : Str
added = lit "added"

abbrev pub deleted : Str
deleted = lit "deleted"

-- The byte at an index below the length, which the callers check.
byte_at : ℕ → Str → ℕ
byte_at i [] = 0
byte_at zero (c ∷ s) = c
byte_at (suc i) (c ∷ s) = byte_at i s

-- `statusName`
unfoldable pub status_name : Str → Str → Str → Str
unfolding byte_at
status_name xy head_mode index_mode =
    if eqb (byte_at 0 xy) b'A' || head_mode == lit "000000"
    then added
    else if eqb (byte_at 0 xy) b'D' || eqb (byte_at 1 xy) b'D'
    then deleted
    else if eqb (byte_at 0 xy) b'T' || eqb (byte_at 1 xy) b'T' || not (head_mode == index_mode)
    then lit "type_changed"
    else lit "modified"

-- `modePointer`
unfoldable pub mode_pointer : Str → Option Str
mode_pointer value = if value == lit "000000" then none else some value

-- `oidPointer`: nothing is left of a text without its zeros exactly when it has nothing else.
unfoldable pub oid_pointer : Str → Option Str
oid_pointer value =
    if is_nil value || not (any (λ c. not (eqb c b'0')) value) then none else some value

cannot_parse : {A : Type 0} → Result A
cannot_parse = err ErrorKind.internal (lit "cannot parse Git status")

cannot_parse_rename : {A : Type 0} → Result A
cannot_parse_rename = err ErrorKind.internal (lit "cannot parse Git rename status")

-- A record `? <path>`
unfoldable pub untracked_change : Str → Result RawChange
unfolding cannot_parse
untracked_change (_ ∷ (space ∷ (c ∷ path))) =
    if not (eqb space b' ')
    then cannot_parse
    else normalize_repo_path (c ∷ path) >>= λ file_path. ok (record {
      status = added;
      old_path = none;
      new_path = some file_path;
      old_mode = none;
      index_mode = none;
      head_identity = none;
      index_id = none;
      staged = false;
      unstaged = true;
      untracked = true;
    })
untracked_change _ = cannot_parse

-- The change of a record `1 …` under its normalized path.
unfoldable pub ordinary : Str → Str → Str → Str → Str → Str → RawChange
unfolding byte_at
ordinary xy head_mode index_mode head_id index_id file_path =
    let status = status_name xy head_mode index_mode in
    record {
      status = status;
      old_path = if status == added then none else some file_path;
      new_path = if status == deleted then none else some file_path;
      old_mode = if status == added then none else mode_pointer head_mode;
      index_mode = mode_pointer index_mode;
      head_identity = if status == added then none else oid_pointer head_id;
      index_id = oid_pointer index_id;
      staged = not (eqb (byte_at 0 xy) b'.');
      unstaged = not (eqb (byte_at 1 xy) b'.');
      untracked = false;
    }

unfoldable pub ordinary_change : Str → Result RawChange
unfolding cannot_parse ordinary
ordinary_change text = elim (split_n 9 b' ' text) [
  | _ ∷ (xy ∷ (_ ∷ (head_mode ∷ (index_mode ∷ (_ ∷ (head_id ∷ (index_id ∷ (path ∷ [])))))))) ↦
      if not (eqb (length xy) 2)
      then cannot_parse
      else normalize_repo_path path >>= λ file_path.
          ok (ordinary xy head_mode index_mode head_id index_id file_path)
  | _ ↦ cannot_parse
]

-- A record `2 …` and the record behind it, with the path before the rename.
unfoldable pub renamed_change : Str → Option Str → Result RawChange
unfolding cannot_parse_rename byte_at
renamed_change text next = elim (split_n 10 b' ' text) [
  | _ ∷ (xy ∷ (_ ∷ (head_mode ∷ (index_mode ∷ (_ ∷ (head_id ∷ (index_id ∷ (_ ∷ (path ∷ []))))))))) ↦
      elim next [
        | none ↦ cannot_parse_rename
        | some old ↦
            if not (eqb (length xy) 2)
            then cannot_parse_rename
            else normalize_repo_path path >>= λ new_path. normalize_repo_path old >>= λ old_path.
                ok (record {
                  status = lit "renamed";
                  old_path = some old_path;
                  new_path = some new_path;
                  old_mode = mode_pointer head_mode;
                  index_mode = mode_pointer index_mode;
                  head_identity = oid_pointer head_id;
                  index_id = oid_pointer index_id;
                  staged = not (eqb (byte_at 0 xy) b'.');
                  unstaged = not (eqb (byte_at 1 xy) b'.');
                  untracked = false;
                })
      ]
  | _ ↦ cannot_parse_rename
]

unfoldable pub then_change : Result RawChange → Result (List RawChange) → Result (List RawChange)
then_change change rest = change >>= λ c. rest >>= λ cs. ok (c ∷ cs)

-- The loop over the records: a rename takes two of them. The rest is read behind each change, as
-- the loop returns at the first error in the order of the records.
unfoldable pub read_records : List Str → Result (List RawChange)
unfolding cannot_parse then_change
read_records [] = ok []
read_records ([] ∷ rest) = read_records rest
read_records ((c ∷ text) ∷ []) =
    if eqb c b'?'
    then then_change (untracked_change (c ∷ text)) (ok [])
    else if eqb c b'1'
    then then_change (ordinary_change (c ∷ text)) (ok [])
    else if eqb c b'2'
    then then_change (renamed_change (c ∷ text) none) (ok [])
    else if eqb c b'u'
    then err ErrorKind.safety (lit "repository has unresolved conflicts")
    else if eqb c b'!'
    then ok []
    else cannot_parse
read_records ((c ∷ text) ∷ (next ∷ rest)) =
    let behind = read_records (next ∷ rest) in
    let behind_next = read_records rest in
    if eqb c b'?'
    then then_change (untracked_change (c ∷ text)) behind
    else if eqb c b'1'
    then then_change (ordinary_change (c ∷ text)) behind
    else if eqb c b'2'
    then then_change (renamed_change (c ∷ text) (some next)) behind_next
    else if eqb c b'u'
    then err ErrorKind.safety (lit "repository has unresolved conflicts")
    else if eqb c b'!'
    then behind
    else cannot_parse

-- `splitNUL`: the last part is dropped when it is empty.
without_empty_last : List Str → List Str
without_empty_last [] = []
without_empty_last ([] ∷ []) = []
without_empty_last ((c ∷ s) ∷ []) = (c ∷ s) ∷ []
without_empty_last (s ∷ (t ∷ ts)) = s ∷ without_empty_last (t ∷ ts)

unfoldable pub split_nul : Str → List Str
unfolding without_empty_last
split_nul output = without_empty_last (split 0 output)

-- The map `deleted`: the index of the last deletion of a path.
unfoldable pub deleted_at : Str → ℕ → List RawChange → Option ℕ
deleted_at path i [] = none
deleted_at path i (c ∷ cs) = elim (deleted_at path (i + 1) cs) [
  | some j ↦ some j
  | none ↦ if c.status == deleted && c.old_path == some path then some i else none
]

-- The index that an untracked path is merged into.
unfoldable pub merge_target : List RawChange → RawChange → Option ℕ
merge_target changes c =
    if not c.untracked
    then none
    else elim c.new_path [ none ↦ none | some path ↦ deleted_at path 0 changes ]

-- What stands at an index after the merges into it.
merged_at : List RawChange → ℕ → RawChange → List RawChange → RawChange
merged_at changes i kept [] = kept
merged_at changes i kept (c ∷ cs) =
    let merge =
      merged_at changes i
        (record kept {
          status = lit "modified";
          new_path = c.new_path;
          unstaged = true;
          untracked = false;
        })
        cs in
    let rest = merged_at changes i kept cs in
    elim (merge_target changes c) [ none ↦ rest | some j ↦ if eqb i j then merge else rest ]

coalesce_from : List RawChange → ℕ → List RawChange → List RawChange
unfolding merged_at
coalesce_from changes i [] = []
coalesce_from changes i (c ∷ cs) = elim (merge_target changes c) [
  | some _ ↦ coalesce_from changes (i + 1) cs
  | none ↦ merged_at changes i c changes ∷ coalesce_from changes (i + 1) cs
]

-- `coalesceDeleteAndRecreate`: an untracked path that replaces a deleted one is a modification. No
-- deletion is untracked, so a merge changes no other one.
unfoldable pub coalesce_delete_and_recreate : List RawChange → List RawChange
unfolding coalesce_from
coalesce_delete_and_recreate changes = coalesce_from changes 0 changes

-- `readStatus` behind the command.
unfoldable pub parse_status : Str → Result (List RawChange)
unfolding coalesce_delete_and_recreate
parse_status output =
    read_records (split_nul output) >>= λ changes. ok (coalesce_delete_and_recreate changes)

-- `displayPath`, which panics on a change without a path: none.
unfoldable pub display_path : RawChange → Option Str
display_path c = elim c.new_path [ some path ↦ some path | none ↦ c.old_path ]
