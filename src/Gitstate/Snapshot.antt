-- ===== src/Gitstate/Snapshot.antt =====
-- internal/gitstate/snapshot.go: which changes are selected, and how a change is built from the tree.
use commiter_cli.Base.{
  ℕ, ◌*◌, Bool, true, false, not, ◌&&◌, ◌||◌, List, [], ◌∷◌, ◌++◌, Option, none, some,
  if◌then◌else◌, ◌==◌, leb, is_nil, length, option_eq,
}
use commiter_cli.Base.Str.{Str, lit, str_eq}
use commiter_cli.Gitstate.Errors.{Result, ok, err, ErrorKind, ◌>>=◌}
use commiter_cli.Gitstate.Types.{Change}
use commiter_cli.Gitstate.Status.{RawChange, added, deleted, display_path}
use commiter_cli.Gitstate.Sensitive.{Glob}

-- `anyGlob`: the patterns, and the paths for each of them.
unfoldable pub any_path : Glob → Str → List Str → Result Bool
any_path glob pattern [] = ok false
any_path glob pattern (p ∷ ps) = elim (glob pattern p) [
  | none ↦ err ErrorKind.usage (lit "invalid analysis glob")
  | some true ↦ ok true
  | some false ↦ any_path glob pattern ps
]

unfoldable pub any_glob : Glob → List Str → List Str → Result Bool
unfolding any_path
any_glob glob paths [] = ok false
any_glob glob paths (p ∷ ps) =
    any_path glob p paths >>= λ matched. if matched then ok true else any_glob glob paths ps

-- The paths of a change, each once.
unfoldable pub paths_of : RawChange → List Str
paths_of c = elim c.old_path [
  | none ↦ elim c.new_path [ none ↦ [] | some new ↦ new ∷ [] ]
  | some old ↦ elim c.new_path [
    | none ↦ old ∷ []
    | some new ↦ if new == old then old ∷ [] else old ∷ (new ∷ [])
  ]
]

-- `selectedByGlobs`
unfoldable pub selected_by_globs : Glob → RawChange → List Str → List Str → Result Bool
unfolding any_glob
selected_by_globs glob c includes excludes =
    (if is_nil includes then ok true else any_glob glob (paths_of c) includes) >>= λ included.
    if not included
    then ok false
    else any_glob glob (paths_of c) excludes >>= λ matched. ok (not matched)

-- What os.FileInfo says of a file: its kind, and whether a regular file is executable.
pub data Kind : Type 0 where
  directory symlink other : Kind
  regular : Bool → Kind

pub record Info : Type 0 where
  pub kind : Kind
  pub size : ℕ

pub data Lstat : Type 0 where
  found : Info → Lstat
  missing failed : Lstat

pub record HashRecord : Type 0 where
  pub schema_version : ℕ
  pub status : Str
  pub old_path : Option Str
  pub new_path : Option Str
  pub old_mode : Option Str
  pub new_mode : Option Str
  pub head_identity : Option Str
  pub worktree_kind : Str
  pub worktree_identity : Option Str

-- The file system, Git, the enry classifiers, the hashes of Go's library, and json.Marshal of a record.
pub record Tree : Type 0 where
  pub lstat : Str → Lstat
  pub readlink : Str → Option Str
  pub read_file : Str → Option Str
  pub blob : Str → Option Str
  pub submodule_head : Str → Option Str
  pub is_vendor : Str → Bool
  pub is_binary : Str → Bool
  pub get_language : Str → Str → Str
  pub sha256_hex : Str → Str
  pub sha1_hex : Str → Str
  pub decimal : ℕ → Str
  pub marshal : HashRecord → Str

abbrev pub gitlink_mode : Str
gitlink_mode = lit "160000"

-- `LargeUntrackedSize`
abbrev pub large_untracked_size : ℕ
large_untracked_size = 64 * 1024

abbrev first_of : Option Str → Option Str → Option Str
first_of (some a) b = some a
first_of none b = b

abbrev is_directory : Info → Bool
is_directory i = elim i.kind [
  | directory ↦ true
  | symlink ↦ false
  | other ↦ false
  | regular _ ↦ false
]

abbrev is_symlink : Info → Bool
is_symlink i = elim i.kind [
  | symlink ↦ true
  | directory ↦ false
  | other ↦ false
  | regular _ ↦ false
]

abbrev is_regular : Info → Bool
is_regular i = elim i.kind [
  | symlink ↦ false
  | directory ↦ false
  | other ↦ false
  | regular _ ↦ true
]

-- `modeFromInfo`
unfoldable pub mode_from_info : Info → RawChange → Option Str
mode_from_info info raw =
    if raw.index_mode == some gitlink_mode then some gitlink_mode else elim info.kind [
      | symlink ↦ some (lit "120000")
      | regular executable ↦ some (if executable then lit "100755" else lit "100644")
      | directory ↦ raw.index_mode
      | other ↦ raw.index_mode
    ]

-- Whether two optional texts are both there and equal.
unfoldable pub same_text : Option Str → Option Str → Bool
same_text none b = false
same_text (some a) none = false
same_text (some a) (some b) = a == b

-- `unchangedFromHead`
unfoldable pub unchanged_from_head : Change → Option Str → Bool
unfolding same_text
unchanged_from_head c git_identity =
    same_text c.old_path c.new_path
    && same_text c.old_mode c.new_mode
    && same_text git_identity c.head_identity

module _ (T : Tree) where
  -- `gitBlobOID`
  unfoldable pub git_blob_oid : Str → Str → Str
  git_blob_oid content object_format =
      let value = lit "blob " ++ T.decimal (length content) ++ (0 ∷ content) in
      if object_format == lit "sha256" then T.sha256_hex value else T.sha1_hex value

  -- `setChangeHash`: the encoding of a record of texts does not fail.
  unfoldable pub set_change_hash : Change → Change
  set_change_hash c = record c {
    change_hash = T.sha256_hex (
        T.marshal (record {
          schema_version = 1;
          status = c.status;
          old_path = c.old_path;
          new_path = c.new_path;
          old_mode = c.old_mode;
          new_mode = c.new_mode;
          head_identity = c.head_identity;
          worktree_kind = c.worktree_kind;
          worktree_identity = c.worktree_id;
        }));
  }

  raw_fields : RawChange → Bool → Change
  raw_fields raw approved_sensitive = record {
    id = [];
    status = raw.status;
    old_path = raw.old_path;
    new_path = raw.new_path;
    old_mode = raw.old_mode;
    new_mode = none;
    head_identity = raw.head_identity;
    worktree_kind = [];
    worktree_id = none;
    language = [];
    size = 0;
    binary = false;
    vendor = false;
    opaque = false;
    sensitive = approved_sensitive;
    staged = raw.staged;
    unstaged = raw.unstaged;
    change_hash = [];
  }

  -- The content of a deleted file, classified from its blob.
  classified_blob : Str → Str → Change → Result Change
  classified_blob path identity c = elim (T.blob identity) [
    | none ↦ err ErrorKind.internal (lit "cannot classify deleted file")
    | some content ↦
        let binary = T.is_binary content in
        ok (record c {
          size = length content;
          binary = binary;
          language = if binary then c.language else T.get_language path content;
          opaque = binary;
        })
  ]

  deleted_content : RawChange → Change → Result Change
  unfolding classified_blob
  deleted_content raw c = elim raw.old_path [
    | none ↦ ok c
    | some path ↦
        let seen = record c { vendor = T.is_vendor path } in
        if raw.old_mode == some gitlink_mode then ok seen else elim raw.head_identity [
          | none ↦ ok seen
          | some identity ↦ classified_blob path identity seen
        ]
  ]

  -- The cases of a file that is there: the change, and the identity that Git would give it.
  gitlink_change : RawChange → Str → Info → Change → Result (Change × Option Str)
  gitlink_change raw path info c =
      elim (first_of (if is_directory info then T.submodule_head path else none) raw.index_id) [
        | none ↦ err ErrorKind.internal (lit "cannot determine submodule identity")
        | some identity ↦
            ok (
              record c { worktree_kind = lit "gitlink"; worktree_id = some identity },
              some identity,
            )
      ]

  symlink_change : Str → Str → Change → Result (Change × Option Str)
  unfolding git_blob_oid
  symlink_change object_format path c = elim (T.readlink path) [
    | none ↦ err ErrorKind.internal (lit "cannot read selected symlink")
    | some target ↦ ok (
      record c {
        worktree_kind = lit "symlink";
        worktree_id = some (T.sha256_hex target);
        size = length target;
      },
      some (git_blob_oid target object_format),
    )
  ]

  file_change : Str → RawChange → Str → Info → Change → Result (Change × Option Str)
  unfolding git_blob_oid
  file_change object_format raw path info c =
      if not (is_regular info)
      then err ErrorKind.safety (lit "selected path has an unsupported file type")
      else elim (T.read_file path) [
        | none ↦ err ErrorKind.internal (lit "cannot read selected file")
        | some content ↦
            let binary = T.is_binary content in
            ok (
              record c {
                worktree_kind = lit "file";
                worktree_id = some (T.sha256_hex content);
                size = length content;
                binary = binary;
                language = if binary then c.language else T.get_language path content;
                opaque = binary || (raw.untracked && leb large_untracked_size (length content));
              },
              some (git_blob_oid content object_format),
            )
      ]

  present_change : Str → RawChange → Str → Info → Change → Result (Change × Option Str)
  unfolding gitlink_change symlink_change file_change
  present_change object_format raw path info c =
      if c.new_mode == some gitlink_mode
      then gitlink_change raw path info c
      else if is_symlink info
      then symlink_change object_format path c
      else file_change object_format raw path info c

  with_language : Str → Change → Change
  with_language path c = record c {
    language =
        if is_nil c.language && not c.binary && not (c.worktree_kind == lit "gitlink")
        then T.get_language path []
        else c.language;
  }

  -- The end of `buildChange`: no change for a file that is as it is in the head.
  settled : Str → Change × Option Str → Option Change
  unfolding set_change_hash with_language unchanged_from_head
  settled path (c, git_identity) =
      let named = with_language path c in
      if unchanged_from_head named git_identity then none else some (set_change_hash named)

  -- `buildChange`: none for a change that is left out. Paths are relative to the root.
  unfoldable pub build_change : Str → RawChange → Bool → Result (Option Change)
  unfolding raw_fields deleted_content present_change settled set_change_hash
  build_change object_format raw approved_sensitive =
      let c = raw_fields raw approved_sensitive in
      if raw.status == deleted
      then (deleted_content raw c >>= λ seen.
          ok (some (set_change_hash (record seen { worktree_kind = deleted }))))
      else elim (display_path raw) [
        | none ↦ err ErrorKind.internal (lit "change without path")
        | some path ↦ elim (T.lstat path) [
          | failed ↦ err ErrorKind.internal (lit "cannot inspect selected file")
          | missing ↦
              if raw.status == added
              then ok none
              else err ErrorKind.internal (lit "cannot inspect selected file")
          | found info ↦
              present_change object_format raw path info (record c {
                size = info.size;
                new_mode = mode_from_info info raw;
                vendor = T.is_vendor path;
              })
              >>= λ present. ok (settled path present)
        ]
      ]
