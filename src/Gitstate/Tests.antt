-- ===== src/Gitstate/Tests.antt =====
-- Paths that are classified, and a rename that hides a secret's name.
use commiter_cli.Base.{All, ◌≡◌, refl, true, false, [], some, none, List, ◌∷◌}
use commiter_cli.Base.Str.{Str, any, lit, str_eq, split, has_prefix, trim_suffix, fields_func}
use commiter_cli.Gitstate.Errors.{ok, err, ErrorKind}
use commiter_cli.Gitstate.RepoPath.{normalize_repo_path, valid_utf8, clean, join}
use commiter_cli.Gitstate.RepoPath.Elements.{AllNames}
use commiter_cli.Gitstate.RepoPath.Inside.{normalize_repo_path-AllNames}
use commiter_cli.Gitstate.Sensitive.{
  automatically_excluded, Glob, classify_sensitive, content_read_allowed, classify_change_paths,
  classify_name, matches_additional, ascii_lower, ext, private_key_names, configuration_names,
  candidate_tokens,
}
use commiter_cli.Gitstate.Types.{Excluded}
use commiter_cli.Gitstate.Status.{RawChange, display_path}
use commiter_cli.Gitstate.Snapshot.{selected_by_globs}
use commiter_cli.Gitstate.Collect.{
  Selected, Patterns, select_changes, shown, sort_marked, approve_changes,
}
use commiter_cli.Gitstate.Collect.Safe.{Cleared, approve_changes-Cleared}
use commiter_cli.Gitstate.Sensitive.Names.{in_directory, content_read_allowed-protected}
use commiter_cli.Base.{◌≢◌, inl, inr}
use commiter_cli.Base.Str.{any}
use commiter_cli.Gitstate.Sensitive.{ascii_lower}
use commiter_cli.Gitstate.Sensitive.Policy.{Bounded, classify_change_paths-Bounded}

abbrev literal : Glob
literal = λ pattern path. some false

renamed :
    classify_change_paths literal [] (some (lit ".env.local")) (some (lit "notes.txt"))
    ≡ ok (automatically_excluded, lit "environment file")
unfolding classify_change_paths classify_sensitive classify_name matches_additional str_eq split
    ascii_lower has_prefix ext private_key_names configuration_names fields_func trim_suffix
    candidate_tokens
renamed = refl

content_read_allowed-protected_example :
    content_read_allowed literal (in_directory (some (lit "Deploy/eu")) (lit "Server.PEM")) [] true
    ≢ ok true
unfolding ascii_lower any
content_read_allowed-protected_example =
    content_read_allowed-protected literal (some (lit "Deploy/eu")) (lit "Server.PEM") [] true refl
      (inr (inr (inl (lit "server", refl))))

classify_change_paths-Bounded_example :
    Bounded literal [] (some (lit ".env.local")) (automatically_excluded, lit "environment file")
    × Bounded literal [] (some (lit "notes.txt")) (automatically_excluded, lit "environment file")
classify_change_paths-Bounded_example =
    classify_change_paths-Bounded literal [] (some (lit ".env.local")) (some (lit "notes.txt"))
      (automatically_excluded, lit "environment file") renamed

abbrev tokens : RawChange
tokens = record {
  status = lit "modified";
  old_path = some (lit "tokens.go");
  new_path = some (lit "tokens.go");
  old_mode = none;
  index_mode = none;
  head_identity = none;
  index_id = none;
  staged = false;
  unstaged = true;
  untracked = false;
}

abbrev docs : RawChange
docs = record tokens { old_path = some (lit "a.md"); new_path = some (lit "a.md") }

abbrev hidden : RawChange
hidden = record tokens { old_path = some (lit ".env"); new_path = some (lit "a.txt") }

abbrev no_patterns : Patterns
no_patterns = record { include = []; exclude = []; additional_sensitive = [] }

abbrev chosen : List Selected
chosen =
    record {
      change = tokens;
      candidate = some (record {
        path = lit "tokens.go";
        reason = lit "path component contains sensitive token tokens";
      });
    }
    ∷ record { change = docs; candidate = none }
    ∷ []

abbrev left : List Excluded
left = record { path = lit "a.txt"; reason = lit "environment file"; identity = none } ∷ []

selected : select_changes literal no_patterns (tokens ∷ docs ∷ hidden ∷ []) ≡ ok (chosen, left)
unfolding select_changes selected_by_globs classify_change_paths classify_sensitive classify_name
    matches_additional str_eq split ascii_lower has_prefix ext private_key_names configuration_names
    fields_func trim_suffix candidate_tokens shown display_path
selected = refl

approve_changes-Cleared_example :
    All (Cleared literal no_patterns [] true) (sort_marked (approve_changes [] true chosen).0)
approve_changes-Cleared_example =
    approve_changes-Cleared literal no_patterns [] true (tokens ∷ docs ∷ hidden ∷ []) chosen left
      selected

climbing :
    normalize_repo_path (lit "a/../../b")
    ≡ err ErrorKind.safety (lit "Git returned a path outside the repository")
unfolding normalize_repo_path valid_utf8 clean has_prefix split join any str_eq
climbing = refl

normalized : normalize_repo_path (lit "a/./b/../c.go") ≡ ok (lit "a/c.go")
unfolding normalize_repo_path valid_utf8 clean has_prefix split join any str_eq
normalized = refl

normalize_repo_path-AllNames_example :
    (es : List Str) × ¬ (es ≡ []) × (lit "a/c.go" ≡ join es) × AllNames es
normalize_repo_path-AllNames_example =
    normalize_repo_path-AllNames (lit "a/./b/../c.go") (lit "a/c.go") normalized
