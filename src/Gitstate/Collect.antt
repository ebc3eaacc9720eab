-- ===== src/Gitstate/Collect.antt =====
-- internal/gitstate/collect.go: `Collect`, from the status to the snapshot.
pub mod Safe
use commiter_cli.Base.{
  ℕ, ◌+◌, ◌/◌, ◌%◌, Bool, true, false, not, ◌&&◌, ◌||◌, List, [], ◌∷◌, ◌++◌, Option, none, some,
  if◌then◌else◌, ◌==◌, contains, is_nil, length, ltb,
}
use commiter_cli.Base.Str.{Str, lit, str_eq, str_lt, sort_strings}
use commiter_cli.Gitstate.Errors.{Result, ok, err, ErrorKind, ◌>>=◌}
use commiter_cli.Gitstate.Types.{
  Change, ChangeIdentity, identity_eq, Excluded, candidate_not_approved, pointer_value,
}
use commiter_cli.Gitstate.Status.{RawChange, display_path}
use commiter_cli.Gitstate.Sensitive.{
  Glob, Sensitivity, not_sensitive, sensitive_candidate, automatically_excluded,
  classify_change_paths,
}
use commiter_cli.Gitstate.Snapshot.{Tree, selected_by_globs, build_change}

pub record Candidate : Type 0 where
  pub path : Str
  pub reason : Str

-- A selected change, and the candidate it is when it is one.
pub record Selected : Type 0 where
  pub change : RawChange
  pub candidate : Option Candidate

pub record Patterns : Type 0 where
  pub include : List Str
  pub exclude : List Str
  pub additional_sensitive : List Str

unfoldable pub shown : RawChange → Str
shown c = pointer_value (display_path c)

-- One change of the selection loop, in front of what the rest of the loop finds.
classified :
    RawChange → Sensitivity × Str → List Selected × List Excluded → List Selected × List Excluded
classified c (automatically_excluded, reason) (chosen, left) =
    (chosen, record { path = shown c; reason = reason; identity = none } ∷ left)
classified c (sensitive_candidate, reason) (chosen, left) = (
  record { change = c; candidate = some (record { path = shown c; reason = reason }) } ∷ chosen,
  left,
)
classified c (not_sensitive, reason) (chosen, left) =
    (record { change = c; candidate = none } ∷ chosen, left)

unfoldable pub select_changes :
    Glob → Patterns → List RawChange → Result (List Selected × List Excluded)
unfolding classified
select_changes glob patterns [] = ok ([], [])
select_changes glob patterns (c ∷ cs) =
    let rest = select_changes glob patterns cs in
    selected_by_globs glob c patterns.include patterns.exclude >>= λ included.
    if not included
    then rest
    else classify_change_paths glob patterns.additional_sensitive c.old_path c.new_path >>= λ level.
        rest >>= λ found. ok (classified c level found)

unfoldable pub raw_identity : RawChange → ChangeIdentity
raw_identity c = record {
  status = c.status;
  old_path = pointer_value c.old_path;
  new_path = pointer_value c.new_path;
}

-- The candidates that no earlier approval covers.
unfoldable pub pending : List ChangeIdentity → List Selected → List Candidate
unfolding raw_identity
pending preapproved [] = []
pending preapproved (s ∷ ss) = elim s.candidate [
  | none ↦ pending preapproved ss
  | some c ↦
      if contains preapproved (raw_identity s.change)
      then pending preapproved ss
      else c ∷ pending preapproved ss
]

-- A change that is built later, and whether it is an approved candidate.
abbrev pub Marked : Type 0
Marked = RawChange × Bool

-- The two loops behind the approval: what stays, and the candidates that are excluded.
unfoldable pub approve_changes :
    List ChangeIdentity → Bool → List Selected → List Marked × List Excluded
unfolding raw_identity
approve_changes preapproved approved [] = ([], [])
approve_changes preapproved approved (s ∷ ss) =
    let (kept, left) = approve_changes preapproved approved ss in
    elim s.candidate [
      | none ↦ ((s.change, false) ∷ kept, left)
      | some c ↦
          if contains preapproved (raw_identity s.change) || approved
          then ((s.change, true) ∷ kept, left)
          else (
            kept,
            record {
              path = c.path;
              reason = candidate_not_approved;
              identity = some (raw_identity s.change);
            }
                ∷ left,
          )
    ]

sort_key : RawChange → Str
sort_key c = shown c ++ (0 ∷ pointer_value c.old_path) ++ (0 ∷ c.status)

insert_marked : Marked → List Marked → List Marked
unfolding sort_key shown
insert_marked m [] = m ∷ []
insert_marked m (n ∷ ns) =
    let rest = insert_marked m ns in
    if str_lt (sort_key n.0) (sort_key m.0) then n ∷ rest else m ∷ (n ∷ ns)

-- `sortRawWithSensitive`
unfoldable pub sort_marked : List Marked → List Marked
unfolding insert_marked
sort_marked [] = []
sort_marked (m ∷ ms) = insert_marked m (sort_marked ms)

insert_excluded : Excluded → List Excluded → List Excluded
insert_excluded e [] = e ∷ []
insert_excluded e (f ∷ fs) =
    let rest = insert_excluded e fs in if str_lt f.path e.path then f ∷ rest else e ∷ (f ∷ fs)

unfoldable pub sort_excluded : List Excluded → List Excluded
unfolding insert_excluded
sort_excluded [] = []
sort_excluded (e ∷ es) = insert_excluded e (sort_excluded es)

-- `fileID`: an F and at least three digits.
unfoldable pub file_id : (ℕ → Str) → ℕ → Str
file_id decimal index =
    let n = index + 1 in
    b'F' ∷ ((if ltb n 10 then lit "00" else if ltb n 100 then lit "0" else []) ++ decimal n)

-- The loop that builds the changes: from a number of changes on, what is built and what is untracked.
unfoldable pub build_changes : Tree → Str → ℕ → List Marked → Result (List Change × List Str)
unfolding shown
build_changes T object_format n [] = ok ([], [])
build_changes T object_format n ((c, approved) ∷ ms) =
    let left_out = build_changes T object_format n ms in
    let rest = build_changes T object_format (n + 1) ms in
    build_change T object_format c approved >>= λ built. elim built [
      | none ↦ left_out
      | some change ↦ rest >>= λ (changes, untracked). ok (
        record change { id = file_id T.decimal n } ∷ changes,
        if c.untracked then shown c ∷ untracked else untracked,
      )
    ]

pub record Snapshot : Type 0 where
  pub changes : List Change
  pub untracked : List Str
  pub excluded : List Excluded

-- What the answer to the question about the pending candidates is: no question without one of them
-- or without a callback, and an error of the callback is one of `Collect`.
unfoldable pub ask_sensitive : Option (List Candidate → Option Bool) → List Candidate → Result Bool
ask_sensitive none candidates = ok false
ask_sensitive (some callback) candidates =
    if is_nil candidates then ok false else elim (callback candidates) [
      | none ↦ err ErrorKind.internal (lit "cannot obtain sensitive file approval")
      | some approved ↦ ok approved
    ]

-- `Collect`, between the lock and the last look at the head, the branch and the index.
unfoldable pub collect :
    Glob
    → Tree
    → Str
    → Patterns
    → List ChangeIdentity
    → Option (List Candidate → Option Bool)
    → List RawChange
    → Result Snapshot
unfolding ask_sensitive build_changes sort_excluded sort_marked approve_changes pending
collect glob T object_format patterns preapproved callback raw =
    select_changes glob patterns raw >>= λ (chosen, excluded).
    ask_sensitive callback (pending preapproved chosen) >>= λ approved.
    let (kept, refused) = approve_changes preapproved approved chosen in
    build_changes T object_format 0 (sort_marked kept) >>= λ (changes, untracked). ok (record {
      changes = changes;
      untracked = sort_strings untracked;
      excluded = sort_excluded (excluded ++ refused);
    })
