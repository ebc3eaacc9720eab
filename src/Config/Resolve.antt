-- ===== src/Config/Resolve.antt =====
-- internal/config/config.go: `Resolve`, over the two files and the command line.
use commiter_cli.Base.{Bool, Option, none, some}
use commiter_cli.Base.FilePaths.{FilePaths}
use commiter_cli.Base.Result.{Result, ok, err, ◌>>=◌}
use commiter_cli.Base.Str.{Str}
use commiter_cli.Config.Values.{Effective, source_global, source_repo, defaults}
use commiter_cli.Config.Toml.{Table}
use commiter_cli.Config.Apply.{File, CliOverrides, apply_file, apply_cli}
use commiter_cli.Config.Check.{validate_values}

unfoldable pub checked : Option Str → Effective → Result Effective
checked none e = ok e
checked (some m) e = err m

-- The decoder of TOML, package filepath, and whether a glob pattern is one.
module _ (decode : Str → Option Table) (F : FilePaths) (valid_glob : Str → Bool) where
  unfoldable pub validated : Str → Effective → Result Effective
  unfolding checked
  validated root e = checked (validate_values F valid_glob root e.values) e

  -- `Resolve`
  unfoldable pub resolve_config : File → File → Str → CliOverrides → Result Effective
  unfolding validated
  resolve_config global repo root cli =
      apply_file decode source_global defaults global
      >>= validated root
      >>= (λ e. apply_file decode source_repo e repo)
      >>= validated root
      >>= (λ e. apply_cli e cli)
      >>= validated root
