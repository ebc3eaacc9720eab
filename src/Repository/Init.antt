-- ===== src/Repository/Init.antt =====
-- internal/repository/init.go: the plan of an initialization, and its application.
pub mod Ancestors
pub mod Lines
use commiter_cli.Base.{
  ℕ, zero, suc, Bool, true, false, not, ◌&&◌, ◌||◌, List, [], ◌∷◌, ◌++◌, Option, none, some,
  if◌then◌else◌, ◌==◌, eqb, contains, is_nil, map, reverse, length,
}
use commiter_cli.Base.Result.{Result, ok, err, ◌>>=◌}
use commiter_cli.Base.Str.{Str, lit, str_eq, any, split, trim_suffix, cut_byte, trim_space}

abbrev same_bool : Bool → Bool → Bool
same_bool true b = b
same_bool false b = not b

-- The file .gitignore of a directory.
pub data Ignore : Type 0 where
  absent symlink unreadable : Ignore
  regular : Str → Ignore

pub data Lstat : Type 0 where
  found missing failed : Lstat

-- Git and the directories: whether a path is in a bare repository, what `rev-parse --show-toplevel`
-- prints, what lies at a path, and `git init`, with its output where it fails.
pub record Git : Type 1 where
  pub Repos : Type 0
  pub abs : Str → Option Str
  pub is_dir : Repos → Str → Bool
  pub is_bare : Repos → Str → Bool
  pub toplevel : Repos → Str → Option Str
  pub lstat : Repos → Str → Lstat
  pub init : Repos → Str → Repos × Option Str

-- filepath.Dir of a clean path: what stands before the last slash.
unfoldable pub dir : Str → Str
unfolding cut_byte
dir path = elim (cut_byte b'/' (reverse path)) [
  | none ↦ lit "."
  | some (name, parent) ↦ if is_nil parent then lit "/" else reverse parent
]

-- filepath.Join of a clean path and a name.
abbrev pub join : Str → Str → Str
join path name = if path == lit "/" then lit "/" ++ name else path ++ lit "/" ++ name

-- `normalizeGitignorePatterns`, behind the patterns that were seen.
unfoldable pub normalize_from : List Str → List Str → Result (List Str)
normalize_from seen [] = ok []
normalize_from seen (p ∷ ps) =
    let again = normalize_from seen ps in
    let rest = normalize_from (p ∷ seen) ps in
    if p == []
    then err (lit "gitignore pattern must not be empty")
    else if any (λ c. eqb c 13 || eqb c 10) p
    then err (lit "gitignore pattern must be a single line")
    else if contains seen p
    then again
    else rest >>= λ qs. ok (p ∷ qs)

unfoldable pub normalize_gitignore_patterns : List Str → Result (List Str)
unfolding normalize_from
normalize_gitignore_patterns patterns = normalize_from [] patterns

-- The lines of a file, each without a carriage return at its end.
unfoldable pub existing_lines : Str → List Str
existing_lines content = map (λ line. trim_suffix line (13 ∷ [])) (split 10 content)

unfoldable pub missing_from : List Str → List Str → List Str
missing_from existing [] = []
missing_from existing (p ∷ ps) =
    let rest = missing_from existing ps in if contains existing p then rest else p ∷ rest

-- `missingGitignorePatterns`
unfoldable pub missing_gitignore_patterns : Str → List Str → List Str
unfolding existing_lines missing_from
missing_gitignore_patterns content patterns = missing_from (existing_lines content) patterns

pub record InitializationPlan : Type 0 where
  pub root : Str
  pub initialize_git : Bool
  pub create_gitignore : Bool
  pub update_gitignore : Bool
  pub gitignore_before : Str
  pub gitignore_exists : Bool
  pub gitignore_entries : List Str

-- strings.Join
abbrev pub joined : List Str → Str
joined [] = []
joined (s ∷ []) = s
joined (s ∷ (t ∷ ts)) = s ++ 10 ∷ joined (t ∷ ts)

unfoldable pub ends_line : Str → Bool
ends_line content = elim (reverse content) [ [] ↦ true | c ∷ _ ↦ eqb c 10 ]

-- What is appended to a file that exists.
unfoldable pub addition : Str → List Str → Str
unfolding ends_line
addition content entries = (if ends_line content then [] else 10 ∷ []) ++ joined entries ++ 10 ∷ []

module _ (G : Git) where
  -- The repositories, and the file .gitignore of each directory.
  pub record World : Type 0 where
    pub repos : G.Repos
    pub gitignore : Str → Ignore

  -- `findGitMetadata`: none when the fuel is used up.
  unfoldable pub find_git_metadata : ℕ → G.Repos → Str → Option (Result (Option Str))
  find_git_metadata zero repos current = none
  find_git_metadata (suc fuel) repos current =
      let rest = find_git_metadata fuel repos (dir current) in
      elim (G.lstat repos (join current (lit ".git"))) [
        | found ↦ some (ok (some (join current (lit ".git"))))
        | failed ↦ some (err (lit "cannot inspect .git metadata"))
        | missing ↦ if dir current == current then some (ok none) else rest
      ]

  -- `detectRoot`
  unfoldable pub detect_root : G.Repos → Str → Result (Option Str)
  detect_root repos path =
      if G.is_bare repos path
      then err (lit "bare Git repository is not supported")
      else elim (G.toplevel repos path) [
        | none ↦ ok none
        | some out ↦ elim (G.abs (trim_space out)) [
          | none ↦ err (lit "cannot resolve repository root")
          | some root ↦ ok (some root)
        ]
      ]

  -- The root, and whether there was a repository. The fuel is enough for any path.
  unfoldable pub root_of : G.Repos → Str → Result (Str × Bool)
  unfolding detect_root find_git_metadata
  root_of repos path = detect_root repos path >>= λ detected. elim detected [
    | some root ↦ ok (root, true)
    | none ↦ elim (find_git_metadata (suc (suc (length path))) repos path) [
      | none ↦ err []
      | some metadata ↦ metadata >>= λ at. elim at [
        | some m ↦ err (lit "existing .git metadata is invalid; refusing to initialize")
        | none ↦ ok (path, false)
      ]
    ]
  ]

  unfoldable pub plan_at : Str × Bool → Ignore → List Str → Result InitializationPlan
  unfolding missing_gitignore_patterns
  plan_at (root, detected) symlink patterns =
      err (lit ".gitignore is a symbolic link; refusing to modify it")
  plan_at (root, detected) unreadable patterns = err (lit "cannot inspect .gitignore")
  plan_at (root, detected) absent patterns =
      let entries = missing_gitignore_patterns [] patterns in
      ok (record {
        root = root;
        initialize_git = not detected;
        create_gitignore = true;
        update_gitignore = not (is_nil patterns) || not (is_nil entries);
        gitignore_before = [];
        gitignore_exists = false;
        gitignore_entries = entries;
      })
  plan_at (root, detected) (regular content) patterns =
      let entries = missing_gitignore_patterns content patterns in
      ok (record {
        root = root;
        initialize_git = not detected;
        create_gitignore = false;
        update_gitignore = not (is_nil entries);
        gitignore_before = content;
        gitignore_exists = true;
        gitignore_entries = entries;
      })

  -- `PlanInitializationWithIgnore`
  unfoldable pub plan_initialization : World → Str → List Str → Result InitializationPlan
  unfolding normalize_gitignore_patterns root_of plan_at
  plan_initialization w path patterns = normalize_gitignore_patterns patterns >>= λ normalized.
      elim (G.abs path) [
        | none ↦ err (lit "cannot resolve initialization directory")
        | some absolute ↦
            if not (G.is_dir w.repos absolute)
            then err (lit "initialization directory does not exist")
            else root_of w.repos absolute >>= λ at. plan_at at (w.gitignore at.0) normalized
      ]

  write : World → Str → Str → World
  write w root content = record w {
    gitignore = λ path. if path == root then regular content else w.gitignore path;
  }

  -- What is written over the file, which exists or not when it is opened.
  unfoldable pub written_at : World → InitializationPlan → Ignore → World × Option Str
  unfolding write addition
  written_at w plan (regular content) =
      if plan.update_gitignore && plan.gitignore_exists
      then (if not (content == plan.gitignore_before)
          then (w, some (lit ".gitignore changed after confirmation; rerun init"))
          else (write w plan.root (content ++ addition content plan.gitignore_entries), none))
      else if plan.gitignore_exists
      then (write w plan.root plan.gitignore_before, none)
      else (w, some (lit ".gitignore changed after confirmation; rerun init"))
  written_at w plan absent =
      if plan.update_gitignore && plan.gitignore_exists
      then (w, some (lit "cannot open .gitignore"))
      else (
        write w plan.root (
            if plan.update_gitignore
            then plan.gitignore_before ++ joined plan.gitignore_entries ++ 10 ∷ []
            else plan.gitignore_before),
        none,
      )
  written_at w plan symlink = (w, some (lit "cannot open .gitignore"))
  written_at w plan unreadable = (w, some (lit "cannot open .gitignore"))

  unfoldable pub write_gitignore : World → InitializationPlan → World × Option Str
  unfolding written_at
  write_gitignore w plan =
      if plan.create_gitignore || plan.update_gitignore
      then written_at w plan (w.gitignore plan.root)
      else (w, none)

  unfoldable pub after_init :
      (Str → Ignore) → InitializationPlan → G.Repos × Option Str → World × Option Str
  unfolding write_gitignore
  after_init gitignore plan (repos, some output) =
      (record { repos = repos; gitignore = gitignore }, some output)
  after_init gitignore plan (repos, none) =
      write_gitignore (record { repos = repos; gitignore = gitignore }) plan

  same_plan : InitializationPlan → InitializationPlan → Option Str
  same_plan current plan =
      if not (same_bool current.initialize_git plan.initialize_git)
      then some (lit "repository state changed after confirmation; rerun init")
      else if not (same_bool current.gitignore_exists plan.gitignore_exists)
          || not (current.gitignore_before == plan.gitignore_before)
      then some (lit ".gitignore changed after confirmation; rerun init")
      else none

  -- `ApplyInitialization`: the world, and the error.
  unfoldable pub apply_initialization : World → InitializationPlan → World × Option Str
  unfolding plan_initialization same_plan after_init
  apply_initialization w plan = elim (plan_initialization w plan.root plan.gitignore_entries) [
    | err m ↦ (w, some m)
    | ok current ↦ elim (same_plan current plan) [
      | some m ↦ (w, some m)
      | none ↦
          if plan.initialize_git
          then after_init w.gitignore plan (G.init w.repos plan.root)
          else write_gitignore w plan
    ]
  ]
