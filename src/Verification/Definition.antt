-- ===== src/Verification/Definition.antt =====
-- internal/verification/definition.go: the verification commands of a repository, their canonical
-- form and its hash. The files, package paths, JSON and SHA-256 are parameters.
pub mod Autodetect
pub mod Canonical
use commiter_cli.Base.{
  ℕ, Bool, true, false, not, ◌&&◌, ◌||◌, List, [], ◌∷◌, ◌++◌, map, Option, none, some,
  if◌then◌else◌, ◌==◌, is_nil,
}
use commiter_cli.Base.Int.{ℤ, pos, int_eq}
use commiter_cli.Base.Result.{Result, ok, err, ◌>>=◌}
use commiter_cli.Base.FilePaths.{FilePaths}
use commiter_cli.Base.Str.{Str, lit, str_eq, has_prefix}

abbrev pub source_repo_config : Str
source_repo_config = lit "repo_config"

abbrev pub source_package_json_autodetect : Str
source_package_json_autodetect = lit "package_json_autodetect"

pub record ManifestScript : Type 0 where
  pub name : Str
  pub body : Str

pub record Command : Type 0 where
  pub name : Str
  pub cwd : Str
  pub argv : List Str
  pub manifest_path : Str
  pub script_name : Str
  pub script_body : Str
  pub implicit_lifecycle_scripts : List ManifestScript

pub record Definition : Type 0 where
  pub schema_version : ℤ
  pub source_type : Str
  pub commands : List Command

-- `canonicalRepoCommand` and `canonicalAutodetectCommand`
pub data CanonicalCommand : Type 0 where
  repo : (name cwd : Str) (argv : List Str) → CanonicalCommand
  autodetected :
      (name cwd : Str) (argv : List Str) (manifest_path script_name script_body : Str)
      (lifecycle : List ManifestScript)
      → CanonicalCommand

-- `canonicalDefinition`, the value that is encoded as JSON.
pub record CanonicalDefinition : Type 0 where
  pub schema_version : ℤ
  pub source_type : Str
  pub commands : List CanonicalCommand

abbrev pub invalid_definition : Str
invalid_definition = lit "invalid verification definition"

-- `validCommonCommand`
unfoldable pub valid_common_command : Command → Bool
valid_common_command c = not (c.name == []) && not (c.cwd == []) && not (is_nil c.argv)

unfoldable pub repo_command : Command → Result CanonicalCommand
repo_command c =
    if not (valid_common_command c)
      || not (c.manifest_path == [])
      || not (c.script_name == [])
      || not (c.script_body == [])
      || not (is_nil c.implicit_lifecycle_scripts)
    then err invalid_definition
    else ok (repo c.name c.cwd c.argv)

unfoldable pub autodetect_command : Command → Result CanonicalCommand
autodetect_command c =
    if not (valid_common_command c) || c.manifest_path == [] || c.script_name == []
    then err invalid_definition
    else ok (
        autodetected c.name c.cwd c.argv c.manifest_path c.script_name c.script_body
          c.implicit_lifecycle_scripts)

-- The loop over the commands, which ends at the first one that is not valid.
unfoldable pub canonical_commands :
    (Command → Result CanonicalCommand) → List Command → Result (List CanonicalCommand)
canonical_commands encode [] = ok []
canonical_commands encode (c ∷ cs) =
    encode c >>= λ first. canonical_commands encode cs >>= λ rest. ok (first ∷ rest)

-- The encoding of a command by the source of its definition.
unfoldable pub encoder : Str → Option (Command → Result CanonicalCommand)
encoder source =
    if source == source_repo_config
    then some repo_command
    else if source == source_package_json_autodetect
    then some autodetect_command
    else none

-- `CanonicalJSON`, up to the encoding of the value.
unfoldable pub canonical : Definition → Result CanonicalDefinition
canonical d =
    if not (d.schema_version == pos 1) || is_nil d.commands
    then err invalid_definition
    else elim (encoder d.source_type) [
      | none ↦ err invalid_definition
      | some encode ↦ canonical_commands encode d.commands >>= λ commands. ok (record {
        schema_version = d.schema_version;
        source_type = d.source_type;
        commands = commands;
      })
    ]

-- json.Marshal of a canonical definition, and SHA-256 in hexadecimal digits.
pub record Encoding : Type 0 where
  pub marshal : CanonicalDefinition → Str
  pub sha256_hex : Str → Str

-- `CanonicalJSON`
unfoldable pub canonical_json : Encoding → Definition → Result Str
canonical_json E d = canonical d >>= λ c. ok (E.marshal c)

-- `Hash`
unfoldable pub hash : Encoding → Definition → Result Str
unfolding canonical_json
hash E d = canonical_json E d >>= λ bytes. ok (E.sha256_hex bytes)

-- `Argv`
unfoldable pub argvs : Definition → List (List Str)
argvs d = map (λ c. c.argv) d.commands

module _ (F : FilePaths) where
  -- `canonicalDirectory`
  unfoldable pub canonical_directory : Str → Option Str
  canonical_directory path = elim (F.abs path) [
    | none ↦ none
    | some absolute ↦ elim (F.eval_symlinks absolute) [
      | none ↦ none
      | some real ↦ if F.is_dir real then some (F.clean real) else none
    ]
  ]

  -- `normalizedCWD`
  unfoldable pub normalized_cwd : Str → Str → Result Str
  unfolding canonical_directory
  normalized_cwd root cwd =
      elim (canonical_directory (if F.is_abs cwd then cwd else F.join root cwd)) [
        | none ↦ err (lit "verification cwd cannot be resolved")
        | some real ↦ elim (F.rel root real) [
          | none ↦ err (lit "verification cwd must stay inside the repo root")
          | some relative ↦
              if relative == lit ".." || has_prefix relative (lit "../")
              then err (lit "verification cwd must stay inside the repo root")
              else ok (F.to_slash relative)
        ]
      ]
