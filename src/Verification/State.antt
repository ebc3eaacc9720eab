-- ===== src/Verification/State.antt =====
-- internal/verification/state.go: the state of a repository that Git shows, before and after a command.
pub mod Unchanged
pub mod Blind
use commiter_cli.Verification.Records.{
  Visible, cannot_parse, untracked_record, ordinary_record, renamed_record,
}
use commiter_cli.Base.{
  ℕ, zero, suc, ◌+◌, Bool, true, false, not, ◌&&◌, ◌||◌, List, [], ◌∷◌, ◌++◌, Option, none, some,
  if◌then◌else◌, ◌==◌, eqb, contains, is_nil, option_eq, Eq,
}
use commiter_cli.Base.Dict.{lookup, insert, keys}
use commiter_cli.Base.Result.{Result, ok, err, ◌>>=◌}
use commiter_cli.Base.Str.{Str, lit, str_eq, split, split_n, trim_suffix, sort_strings}
use commiter_cli.Base.Sets.{add}
use commiter_cli.Gitstate.Errors
use commiter_cli.Gitstate.Sensitive.{Glob, content_read_allowed}
use commiter_cli.Gitstate.Status.{status_name, added, deleted}
use commiter_cli.Gitstate.Types.{ChangeIdentity, identity_eq}
use native.Mathlib.Decide.{ℕ_discrete}

pub record FileState : Type 0 where
  pub line : Str
  pub mode : ℕ
  pub size : ℕ
  pub mod_time : ℕ
  pub content_identity : Str

file_state_dec : Discrete FileState
file_state_dec = hlevel ℕ_discrete

instance unfoldable pub file_state_eq : Eq FileState
unfolding file_state_dec ℕ_discrete
file_state_eq = record { dec = file_state_dec }

abbrev pub Files : Type 0
Files = List (Str × FileState)

pub record RepositoryState : Type 0 where
  pub head : Str
  pub index_path : Str
  pub index_mode : ℕ
  pub index_data : Str
  pub files : Files

-- The paths of the first map whose state is another one in the second, or is not there.
unfoldable pub differing : Files → Files → List Str → List Str
differing fs gs [] = []
differing fs gs (p ∷ ps) =
    if lookup fs p == lookup gs p then differing fs gs ps else p ∷ differing fs gs ps

unfoldable pub to_set : List Str → List Str
to_set [] = []
to_set (s ∷ ss) = add (to_set ss) s

unfoldable pub changed_files : RepositoryState → RepositoryState → List Str
unfolding differing
changed_files before after =
    differing before.files after.files (keys before.files)
    ++ differing before.files after.files (keys after.files)

unfoldable pub with_head : RepositoryState → RepositoryState → List Str
unfolding changed_files
with_head before after =
    if before.head == after.head
    then changed_files before after
    else lit "HEAD" ∷ changed_files before after

-- `ChangedPaths`
unfoldable pub changed_paths : RepositoryState → RepositoryState → List Str
unfolding with_head to_set
changed_paths before after =
    let changed = with_head before after in
    if not (before.index_data == after.index_data) && is_nil changed
    then lit "<index>" ∷ []
    else sort_strings (to_set changed)

-- What os.Lstat says of a path: its mode, of which two bits are told apart, its size and its time.
pub record Meta : Type 0 where
  pub mode : ℕ
  pub is_symlink : Bool
  pub is_regular : Bool
  pub size : ℕ
  pub mod_time : ℕ

pub data Lstat : Type 0 where
  found : Meta → Lstat
  missing failed : Lstat

-- The work tree, below the root, and SHA-256 in hexadecimal digits.
pub record WorkTree : Type 0 where
  pub lstat : Str → Lstat
  pub readlink : Str → Option Str
  pub read_file : Str → Option Str
  pub sha256_hex : Str → Str

pub record StatePolicy : Type 0 where
  pub target_untracked : List Str
  pub approved_sensitive : List ChangeIdentity
  pub additional_sensitive : List Str

module _ (T : WorkTree) where
  -- The hash of what was read, or an error.
  unfoldable pub hash_of : Option Str → Str → Result Str
  hash_of none m = err m
  hash_of (some content) m = ok (T.sha256_hex content)

  -- `contentIdentity`
  unfoldable pub content_identity : Str → Meta → Result Str
  unfolding hash_of
  content_identity path m =
      if m.is_symlink
      then hash_of (T.readlink path) (lit "cannot hash Git-visible symlink")
      else if m.is_regular
      then hash_of (T.read_file path) (lit "cannot hash Git-visible file")
      else ok []

  unfoldable pub metadata_at : Str → Str → Bool → Lstat → Result FileState
  unfolding content_identity
  metadata_at path line hash_content failed = err (lit "cannot inspect Git-visible path")
  metadata_at path line hash_content missing =
      ok (record { line = line; mode = 0; size = 0; mod_time = 0; content_identity = [] })
  metadata_at path line hash_content (found m) =
      (if hash_content then content_identity path m else ok []) >>= λ identity. ok (record {
        line = line;
        mode = m.mode;
        size = m.size;
        mod_time = m.mod_time;
        content_identity = identity;
      })

  -- `fileMetadata`
  unfoldable pub file_metadata : Str → Str → Bool → Result FileState
  unfolding metadata_at
  file_metadata path line hash_content = metadata_at path line hash_content (T.lstat path)

-- `contentHashAllowed`
unfoldable pub content_hash_allowed : Glob → List Str → Bool → List Str → Result Bool
content_hash_allowed glob additional approved [] = ok true
content_hash_allowed glob additional approved (p ∷ ps) =
    elim (content_read_allowed glob p additional approved) [
      | Errors.err k m ↦ err m
      | Errors.ok false ↦ ok false
      | Errors.ok true ↦ content_hash_allowed glob additional approved ps
    ]

module _ (T : WorkTree) (glob : Glob) (policy : StatePolicy) where
  -- The states that one record adds to the map.
  unfoldable pub add_state : Visible → Files → Result Files
  add_state v files =
      content_hash_allowed glob policy.additional_sensitive
        (contains policy.approved_sensitive v.identity)
        (if is_nil v.old_path then v.path ∷ [] else v.path ∷ v.old_path ∷ [])
      >>= λ hash_content.
          (if is_nil v.old_path
            then ok files
            else (file_metadata T v.old_path (v.line ++ (0 ∷ v.old_path)) false >>= λ s.
                ok (insert files v.old_path s)))
          >>= λ with_old.
              file_metadata T v.path v.line hash_content >>= λ s. ok (insert with_old v.path s)

  unfoldable pub add_visible : Result (Option Visible) → Files → Result Files
  unfolding add_state
  add_visible r files = r >>= λ o. elim o [ none ↦ ok files | some v ↦ add_state v files ]

  -- What the loop does with the record at hand and the field behind it, which a rename takes too.
  unfoldable pub one_record : ℕ → Str → Option Str → Files → Result Files
  unfolding add_visible cannot_parse
  one_record c text next files =
      if eqb c b'?'
      then add_visible (untracked_record policy.target_untracked (c ∷ text)) files
      else if eqb c b'1'
      then add_visible (ordinary_record (c ∷ text)) files
      else if eqb c b'2'
      then add_visible (renamed_record (c ∷ text) next) files
      else if eqb c b'u'
      then err (lit "repository has unresolved conflicts")
      else cannot_parse

  unfoldable pub one_or_two :
      ℕ → Str → Str → Files → Bool → (Files → Result Files) → (Files → Result Files) → Result Files
  unfolding one_record
  one_or_two c text next files renamed behind_next from_next =
      one_record c text (some next) files >>= (if renamed then behind_next else from_next)

  -- The loop over the records.
  unfoldable pub read_states : List Str → Files → Result Files
  unfolding one_or_two
  read_states [] files = ok files
  read_states ([] ∷ rest) files = read_states rest files
  read_states ((c ∷ text) ∷ []) files = one_record c text none files
  read_states ((c ∷ text) ∷ (next ∷ rest)) files =
      one_or_two c text next files (eqb c b'2') (read_states rest) (read_states (next ∷ rest))

  -- `statusFileStates`
  unfoldable pub status_file_states : Str → Result Files
  unfolding read_states
  status_file_states status = read_states (split 0 (trim_suffix status (0 ∷ []))) []

-- What Git and the index file answer; none is an error.
pub record Repository : Type 0 where
  pub rev_parse_head : Option Str
  pub index_name : Option Str
  pub is_abs : Str → Bool
  pub join : Str → Str
  pub clean : Str → Str
  pub index_mode : Str → Option ℕ
  pub read_index : Str → Option Str
  pub status : Option Str
  pub tree : WorkTree

or_error : {A : Type 0} → Option A → Str → Result A
or_error none m = err m
or_error (some a) m = ok a

-- `CaptureRepositoryState`
unfoldable pub capture : Glob → StatePolicy → Repository → Result RepositoryState
unfolding or_error
capture glob policy R =
    or_error R.rev_parse_head (lit "cannot inspect HEAD before commit") >>= λ head.
    or_error R.index_name (lit "cannot resolve Git index before commit") >>= λ index_name.
    let trimmed = trim_suffix index_name (10 ∷ []) in
    let path = if R.is_abs trimmed then trimmed else R.join trimmed in
    or_error (R.index_mode path) (lit "cannot inspect Git index before commit") >>= λ mode.
    or_error (R.read_index path) (lit "cannot preserve Git index before commit") >>= λ bytes.
    or_error R.status (lit "cannot inspect Git-visible state before commit") >>= λ status.
    status_file_states R.tree glob policy status >>= λ files. ok (record {
      head = trim_suffix head (10 ∷ []);
      index_path = R.clean path;
      index_mode = mode;
      index_data = bytes;
      files = files;
    })
