-- ===== src/Trust/Store.antt =====
-- internal/trust/store.go: the entries of the trust file, over an interface of what reads, writes
-- and resolves paths.
use commiter_cli.Base.{
  Bool, true, false, ◌||◌, List, [], ◌∷◌, Option, none, some, if◌then◌else◌, ◌==◌, ◌≡◌, is_nil,
}
use commiter_cli.Base.Str.{Str, lit, str_eq, str_lt}
pub use commiter_cli.Base.Result.{Result, ok, err}

pub record Entry : Type 0 where
  pub repo_path : Str
  pub definition_hash : Str
  pub source_type : Str
  pub commands : List (List Str)

-- The file behind `read` and `write`, of version 1 when it is read, and `canonicalPath`.
pub record Storage : Type 1 where
  pub Disk : Type 0
  pub canonical : Str → Option Str
  pub read : Disk → Result (List Entry)
  pub write : Disk → List Entry → Disk × Option Str
  -- What a replaced file is read as: the rename of `write` takes effect as a whole.
  pub read-write : (d d' : Disk) (es : List Entry) → write d es ≡ (d', none) → read d' ≡ ok es

abbrev pub unresolved : Str
unresolved = lit "cannot resolve repository path"

-- sort.Slice by the repository path, which no two entries of `approve` share.
unfoldable pub insert_entry : Entry → List Entry → List Entry
insert_entry e [] = e ∷ []
insert_entry e (f ∷ fs) =
    if str_lt f.repo_path e.repo_path then f ∷ insert_entry e fs else e ∷ (f ∷ fs)

unfoldable pub sort_entries : List Entry → List Entry
unfolding insert_entry
sort_entries [] = []
sort_entries (e ∷ es) = insert_entry e (sort_entries es)

-- The loop of `Matches`: the first entry of the repository decides.
unfoldable pub matching : Str → Str → List Entry → Bool
matching repo hash [] = false
matching repo hash (e ∷ es) =
    if e.repo_path == repo then e.definition_hash == hash else matching repo hash es

-- The loop of `Approve`: the first entry of the repository is replaced, or the entry is added.
unfoldable pub replace_entry : Entry → List Entry → List Entry
replace_entry entry [] = entry ∷ []
replace_entry entry (e ∷ es) =
    if e.repo_path == entry.repo_path then entry ∷ es else e ∷ replace_entry entry es

-- The loop of `Revoke`: what is kept, and whether an entry was left out.
unfoldable pub without_repo : Str → List Entry → List Entry × Bool
without_repo repo [] = ([], false)
without_repo repo (e ∷ es) =
    let rest = without_repo repo es in
    if e.repo_path == repo then (rest.0, true) else (e ∷ rest.0, rest.1)

module _ (S : Storage) where
  unfoldable pub open_entries : S.Disk → (List Entry → S.Disk × Result Bool) → S.Disk × Result Bool
  open_entries d next = elim (S.read d) [ err m ↦ (d, err m) | ok es ↦ next es ]

  unfoldable pub settle : S.Disk × Option Str → S.Disk × Result Bool
  settle (d, none) = (d, ok true)
  settle (d, some m) = (d, err m)

  unfoldable pub put : S.Disk → List Entry → S.Disk × Result Bool
  unfolding settle
  put d es = settle (S.write d es)

  -- `List`
  unfoldable pub entries : S.Disk → Result (List Entry)
  entries d = elim (S.read d) [ err m ↦ err m | ok es ↦ ok (sort_entries es) ]

  unfoldable pub matches_at : S.Disk → Str → Option Str → Result Bool
  matches_at d hash none = err unresolved
  matches_at d hash (some canonical) = elim (S.read d) [
    | err m ↦ err m
    | ok es ↦ ok (matching canonical hash es)
  ]

  -- `Matches`
  unfoldable pub matches : S.Disk → Str → Str → Result Bool
  unfolding matches_at
  matches d repo hash = matches_at d hash (S.canonical repo)

  unfoldable pub approve_at : S.Disk → Entry → Option Str → S.Disk × Result Bool
  unfolding open_entries put
  approve_at d entry none = (d, err unresolved)
  approve_at d entry (some canonical) =
      if is_nil entry.definition_hash || is_nil entry.source_type || is_nil entry.commands
      then (d, err (lit "invalid trust entry"))
      else open_entries d
          λ es. put d (sort_entries (replace_entry (record entry { repo_path = canonical }) es))

  -- `Approve`
  unfoldable pub approve : S.Disk → Entry → S.Disk × Result Bool
  unfolding approve_at
  approve d entry = approve_at d entry (S.canonical entry.repo_path)

  unfoldable pub kept_or_put : S.Disk → List Entry × Bool → S.Disk × Result Bool
  unfolding put
  kept_or_put d (kept, found) = if found then put d kept else (d, ok false)

  unfoldable pub revoke_at : S.Disk → Option Str → S.Disk × Result Bool
  unfolding open_entries kept_or_put
  revoke_at d none = (d, err unresolved)
  revoke_at d (some canonical) = open_entries d λ es. kept_or_put d (without_repo canonical es)

  -- `Revoke`
  unfoldable pub revoke : S.Disk → Str → S.Disk × Result Bool
  unfolding revoke_at
  revoke d repo = revoke_at d (S.canonical repo)
