-- ===== src/Config/Tests.antt =====
-- internal/config: a file of the user and one of a repository.
use commiter_cli.Base.{
  ◌≡◌, ◌↔◌, refl, Bool, true, false, List, [], ◌∷◌, Option, none, some, if◌then◌else◌, ◌==◌,
}
use commiter_cli.Base.Dict.{lookup}
use commiter_cli.Base.FilePaths.{FilePaths}
use commiter_cli.Base.Result.{ok}
use commiter_cli.Base.Str.{Str, lit, str_eq}
use commiter_cli.Config.Values.{
  source_repo, source_cli, Values, Effective, Entry, SchemaEntry, boolean_kind, source_global,
  schema, entries, defaults,
}
use commiter_cli.Config.Toml.{Table, no_fields, field, table, string, boolean}
use commiter_cli.Config.Apply.{File, absent, file, CliOverrides, allows, with_source}
use commiter_cli.Config.Check.{validate_values}
use commiter_cli.Config.Check.Accepted.{IsAccepted, validate_values_iff}
use commiter_cli.Config.Resolve.{resolve_config}
use commiter_cli.Config.Layers.Precedence.{IsLayered, resolve_config-IsLayered}
use commiter_cli.Config.Layers.Guarded.{resolve_config-guarded}

abbrev paths : FilePaths
paths = record {
  abs = λ p. some p;
  is_abs = λ p. false;
  join = λ p q. q;
  eval_symlinks = λ p. some p;
  is_dir = λ p. true;
  clean = λ p. p;
  rel = λ p q. some q;
  to_slash = λ p. p;
}

abbrev any_glob : Str → Bool
any_glob = λ p. true

-- A file that holds `u` is the user's, and any other one a repository's.
abbrev decode : Str → Option Table
decode = λ s. some (
    if s == lit "u"
    then field (lit "push") (table (field (lit "confirm") (boolean false) no_fields)) no_fields
    else field (lit "commit") (table (field (lit "language") (string (lit "ja")) no_fields))
        no_fields)

abbrev no_options : CliOverrides
no_options = record {
  language = none;
  commit_confirm = some false;
  push_enabled = none;
  push_confirm = none;
  model = none;
  metrics_persist = none;
}

abbrev user_file : File
user_file = file 1 (lit "u")

abbrev repo_file : File
repo_file = file 1 (lit "r")

abbrev user_values : Values
user_values = record (defaults.values) { push_confirm = false; commit_confirm = false }

abbrev with_user : Effective
with_user = record {
  values = user_values;
  sources =
      with_source (with_source defaults.sources (lit "push.confirm") source_global)
        (lit "commit.confirm") source_cli;
}

abbrev with_both : Effective
with_both = record {
  values = record user_values { language = lit "ja" };
  sources =
      with_source
        (with_source (with_source defaults.sources (lit "push.confirm") source_global)
          (lit "commit.language") source_repo)
        (lit "commit.confirm") source_cli;
}

resolved_user :
    resolve_config decode paths any_glob user_file absent (lit "/r") no_options ≡ ok with_user
unfolding resolve_config commiter_cli.Config.Apply.apply_file commiter_cli.Config.Toml.flatten
    str_eq commiter_cli.Base.Str.has_prefix defaults commiter_cli.Config.Apply.apply_settings
    commiter_cli.Config.Apply.sort_settings validate_values commiter_cli.Config.Check.require
    commiter_cli.Base.Int.int_eq commiter_cli.Config.Check.valid_mlx_model
    commiter_cli.Base.Str.split commiter_cli.Config.Check.valid_hex_revision
    commiter_cli.Config.Check.valid_mlx_quantization commiter_cli.Base.Str.has_suffix
    commiter_cli.Base.Str.trim_suffix commiter_cli.Config.Check.supported_planner_model
    commiter_cli.Config.Values.pinned_planner_revision commiter_cli.Config.Apply.apply_cli
resolved_user = refl

resolved_both :
    resolve_config decode paths any_glob user_file repo_file (lit "/r") no_options ≡ ok with_both
unfolding resolve_config commiter_cli.Config.Apply.apply_file commiter_cli.Config.Toml.flatten
    str_eq commiter_cli.Base.Str.has_prefix defaults commiter_cli.Config.Apply.apply_settings
    commiter_cli.Config.Apply.sort_settings validate_values commiter_cli.Config.Check.require
    commiter_cli.Base.Int.int_eq commiter_cli.Config.Check.valid_mlx_model
    commiter_cli.Base.Str.split commiter_cli.Config.Check.valid_hex_revision
    commiter_cli.Config.Check.valid_mlx_quantization commiter_cli.Base.Str.has_suffix
    commiter_cli.Base.Str.trim_suffix commiter_cli.Config.Check.supported_planner_model
    commiter_cli.Config.Values.pinned_planner_revision commiter_cli.Config.Apply.apply_cli
resolved_both = refl

resolve_config-IsLayered_example :
    IsLayered decode paths any_glob user_file repo_file no_options with_both
    × (validate_values paths any_glob (lit "/r") (with_both.values) ≡ none)
resolve_config-IsLayered_example =
    resolve_config-IsLayered decode paths any_glob user_file repo_file (lit "/r") no_options
      with_both resolved_both

abbrev push_confirm_entry : SchemaEntry
push_confirm_entry = record { kind = boolean_kind; allowed = source_global ∷ [] }

push_confirm_known : lookup schema (lit "push.confirm") ≡ some push_confirm_entry
unfolding str_eq
push_confirm_known = refl

repo_is_refused : allows (push_confirm_entry.allowed) source_repo ≡ false
unfolding allows
repo_is_refused = refl

resolve_config-guarded_example :
    lookup (entries with_both) (lit "push.confirm")
    ≡ lookup (entries with_user) (lit "push.confirm")
resolve_config-guarded_example =
    resolve_config-guarded decode paths any_glob user_file repo_file absent (lit "/r") (lit "/r")
      no_options with_both with_user (lit "push.confirm") push_confirm_entry push_confirm_known
      repo_is_refused resolved_both resolved_user

validate_values_iff_example :
    (validate_values paths any_glob (lit "/r") user_values ≡ none)
    ↔ IsAccepted paths any_glob (lit "/r") user_values
validate_values_iff_example = validate_values_iff paths any_glob (lit "/r") user_values
