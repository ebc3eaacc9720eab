-- ===== src/Repository/Tests.antt =====
-- internal/repository: a small file, and a tree of directories.
use commiter_cli.Base.{
  ◌≡◌, refl, ℕ, suc, Bool, true, false, not, List, [], ◌∷◌, ◌++◌, Option, none, some, if◌then◌else◌,
  ◌==◌, length,
}
use commiter_cli.Base.Result.{Result, ok}
use commiter_cli.Base.Str.{Str, lit, str_eq}
use commiter_cli.Repository.Init.{
  Git, found, missing, normalize_gitignore_patterns, missing_gitignore_patterns, addition,
  find_git_metadata, absent, regular, plan_initialization, InitializationPlan, World,
  apply_initialization,
}
use commiter_cli.Repository.Init.Ancestors.{Answers, find_git_metadata-Answers}
use commiter_cli.Repository.Init.Lines.Added.{addition-missing}

abbrev patterns : List Str
patterns = lit "a" ∷ lit "b" ∷ lit "a" ∷ []

abbrev normal : List Str
normal = lit "a" ∷ lit "b" ∷ []

accepted : normalize_gitignore_patterns patterns ≡ ok normal
unfolding normalize_gitignore_patterns str_eq commiter_cli.Base.Str.any
accepted = refl

addition-missing_example :
    missing_gitignore_patterns
      (lit "b" ++ addition (lit "b") (missing_gitignore_patterns (lit "b") normal))
      normal
    ≡ []
addition-missing_example = addition-missing (lit "b") patterns normal accepted

-- A directory /x with metadata, and `git init` that remembers that it ran.
abbrev git : Git
git = record {
  Repos = Bool;
  abs = λ p. some p;
  is_dir = λ r p. true;
  is_bare = λ r p. false;
  toplevel = λ r p. if r then some (lit "/new") else none;
  lstat = λ r p. if p == lit "/x/.git" then found else missing;
  init = λ r p. (true, none);
}

find_git_metadata-Answers_example :
    (r : Result (Option Str)) × (find_git_metadata git
        (suc (suc (length (lit "/x/y"))))
        false
        (lit "/x/y")
      ≡ some r)
    × Answers git false (lit "/x/y") r
find_git_metadata-Answers_example = find_git_metadata-Answers git false (lit "/x/y")

in_parent : find_git_metadata git 6 false (lit "/x/y") ≡ some (ok (some (lit "/x/.git")))
unfolding find_git_metadata str_eq commiter_cli.Repository.Init.dir
in_parent = refl

abbrev empty_world : World git
empty_world = record { repos = false; gitignore = λ p. absent }

abbrev new_plan : InitializationPlan
new_plan = record {
  root = lit "/new";
  initialize_git = true;
  create_gitignore = true;
  update_gitignore = true;
  gitignore_before = [];
  gitignore_exists = false;
  gitignore_entries = normal;
}

planned : plan_initialization git empty_world (lit "/new") patterns ≡ ok new_plan
unfolding plan_initialization str_eq commiter_cli.Base.Str.any commiter_cli.Repository.Init.dir
    commiter_cli.Base.Str.split commiter_cli.Base.Str.trim_suffix
planned = refl

applied :
    ((apply_initialization git empty_world new_plan).0).gitignore (lit "/new")
    ≡ regular (lit "a" ++ 10 ∷ lit "b" ++ 10 ∷ [])
unfolding apply_initialization str_eq commiter_cli.Base.Str.any commiter_cli.Repository.Init.dir
applied = refl
