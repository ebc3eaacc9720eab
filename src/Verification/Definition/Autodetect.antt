-- ===== src/Verification/Definition/Autodetect.antt =====
-- internal/verification/definition.go: the commands that a package.json stands for, and `Resolve`.
use commiter_cli.Base.{
  Bool, true, false, not, ◌&&◌, ◌||◌, List, [], ◌∷◌, ◌++◌, Option, none, some, if◌then◌else◌, ◌==◌,
  contains, is_nil, ltb, eqb,
}
use commiter_cli.Base.Int.{ℤ, pos, negsuc}
use commiter_cli.Base.Atoi.{atoi}
use commiter_cli.Base.FilePaths.{FilePaths}
use commiter_cli.Config.Values.{Values, VerificationCommand}
use commiter_cli.Base.Dict.{lookup}
use commiter_cli.Base.Result.{Result, ok, err, ◌>>=◌}
use commiter_cli.Base.Sets.{add}
use commiter_cli.Base.Str.{Str, lit, str_eq, cut_byte}
use commiter_cli.Verification.Definition.{
  Command, Definition, ManifestScript, source_repo_config, source_package_json_autodetect,
  canonical_directory, normalized_cwd,
}

abbrev pub script_order : List Str
script_order = lit "lint" ∷ lit "typecheck" ∷ lit "test" ∷ lit "build" ∷ []

-- `packageManifest`: the scripts are a map.
pub record PackageManifest : Type 0 where
  pub package_manager : Str
  pub scripts : List (Str × Str)

-- `autodetectArgv`
unfoldable pub autodetect_argv : Str → Str → List Str
autodetect_argv manager name =
    if manager == lit "npm"
    then lit "npm" ∷ lit "run" ∷ lit "--ignore-scripts" ∷ name ∷ []
    else if manager == lit "pnpm"
    then lit "pnpm" ∷ lit "--config.enable-pre-post-scripts=false" ∷ lit "run" ∷ name ∷ []
    else manager ∷ lit "run" ∷ name ∷ []

-- `version[:separator]` at the first of the bytes `.`, `-` and `+`.
before_separator : Str → Str
before_separator [] = []
before_separator (c ∷ s) =
    let rest = before_separator s in if eqb c b'.' || eqb c b'-' || eqb c b'+' then [] else c ∷ rest

abbrev below_two : ℤ → Bool
below_two (pos n) = ltb n 2
below_two (negsuc n) = true

-- `runsImplicitLifecycle`: yarn before its second version, and bun.
unfoldable pub runs_implicit_lifecycle : Str → Str → Bool
unfolding before_separator
runs_implicit_lifecycle manager declared =
    if manager == lit "bun"
    then true
    else if not (manager == lit "yarn")
    then false
    else elim (cut_byte b'@' declared) [
      | none ↦ true
      | some (declared_manager, version) ↦
          if not (declared_manager == lit "yarn")
          then true
          else elim (atoi (before_separator version)) [ none ↦ true | some major ↦ below_two major ]
    ]

-- One name of the loop of `implicitLifecycleScripts`.
script_named : List (Str × Str) → Str → List ManifestScript
script_named scripts name = elim (lookup scripts name) [
  | none ↦ []
  | some body ↦ record { name = name; body = body } ∷ []
]

-- `implicitLifecycleScripts`
unfoldable pub implicit_lifecycle_scripts : List (Str × Str) → Str → List ManifestScript
unfolding script_named
implicit_lifecycle_scripts scripts name =
    script_named scripts (lit "pre" ++ name) ++ script_named scripts (lit "post" ++ name)

-- `supportedManager`
unfoldable pub supported_manager : Str → Bool
supported_manager = contains (lit "npm" ∷ lit "yarn" ∷ lit "pnpm" ∷ lit "bun" ∷ [])

-- os.Stat of a file in the root.
pub data Stat : Type 0 where
  exists absent failed : Stat

abbrev markers : List (Str × List Str)
markers =
    (lit "npm", lit "package-lock.json" ∷ lit "npm-shrinkwrap.json" ∷ [])
    ∷ (lit "yarn", lit "yarn.lock" ∷ [])
    ∷ (lit "pnpm", lit "pnpm-lock.yaml" ∷ [])
    ∷ (lit "bun", lit "bun.lock" ∷ lit "bun.lockb" ∷ [])
    ∷ []

-- Whether one of the files is there: the loop ends at the first that is, or at an error.
unfoldable pub any_marker : (Str → Stat) → List Str → Result Bool
any_marker stat [] = ok false
any_marker stat (n ∷ ns) = elim (stat n) [
  | exists ↦ ok true
  | absent ↦ any_marker stat ns
  | failed ↦ err (lit "cannot inspect package manager marker")
]

unfoldable pub add_candidates : (Str → Stat) → List (Str × List Str) → List Str → Result (List Str)
unfolding any_marker
add_candidates stat [] candidates = ok candidates
add_candidates stat ((manager, names) ∷ ms) candidates = any_marker stat names >>= λ found.
    add_candidates stat ms (if found then add candidates manager else candidates)

abbrev sole : List Str → Option Str
sole (m ∷ []) = some m
sole _ = none

declared_manager : Str → Str
declared_manager declared = elim (cut_byte b'@' declared) [ none ↦ declared | some (m, _) ↦ m ]

-- `packageManager`: none when it is not clear which one the repository uses. The source ranges over
-- the markers in no fixed order, on which neither the candidates nor the error depend.
unfoldable pub package_manager : (Str → Stat) → Str → Result (Option Str)
unfolding declared_manager add_candidates supported_manager
package_manager stat declared =
    if not (is_nil declared) && not (supported_manager (declared_manager declared))
    then ok none
    else add_candidates stat markers
        (if is_nil declared then [] else declared_manager declared ∷ [])
      >>= λ candidates. ok (sole candidates)

-- The command for a script.
unfoldable pub script_command : Str → PackageManifest → Str → Str → Command
unfolding autodetect_argv runs_implicit_lifecycle implicit_lifecycle_scripts
script_command manager manifest name body = record {
  name = name;
  cwd = lit ".";
  argv = autodetect_argv manager name;
  manifest_path = lit "package.json";
  script_name = name;
  script_body = body;
  implicit_lifecycle_scripts =
      if runs_implicit_lifecycle manager manifest.package_manager
      then implicit_lifecycle_scripts manifest.scripts name
      else [];
}

-- The loop over `scriptOrder`.
unfoldable pub script_commands : Str → PackageManifest → List Str → List Command
unfolding script_command
script_commands manager manifest [] = []
script_commands manager manifest (name ∷ names) = elim (lookup manifest.scripts name) [
  | none ↦ script_commands manager manifest names
  | some body ↦ script_command manager manifest name body ∷ script_commands manager manifest names
]

-- Reading package.json, and json.Unmarshal of its bytes.
pub data Manifest : Type 0 where
  no_manifest unreadable : Manifest
  contents : Str → Manifest

pub record Package : Type 0 where
  pub read : Manifest
  pub unmarshal : Str → Option PackageManifest
  pub stat : Str → Stat

unfoldable pub definition_of : List Command → Option Definition
definition_of [] = none
definition_of (c ∷ cs) = some (record {
  schema_version = pos 1;
  source_type = source_package_json_autodetect;
  commands = c ∷ cs;
})

-- `autodetect`
unfoldable pub autodetect : Package → Result (Option Definition)
unfolding package_manager script_commands definition_of
autodetect P = elim P.read [
  | no_manifest ↦ ok none
  | unreadable ↦ err (lit "cannot read package.json")
  | contents bytes ↦ elim (P.unmarshal bytes) [
    | none ↦ err (lit "invalid package.json")
    | some manifest ↦ package_manager P.stat manifest.package_manager >>= λ manager. elim manager [
      | none ↦ ok none
      | some m ↦ ok (definition_of (script_commands m manifest script_order))
    ]
  ]
]

unfoldable pub configured_commands :
    FilePaths → Str → List VerificationCommand → Result (List Command)
configured_commands F root [] = ok []
configured_commands F root (c ∷ cs) = normalized_cwd F root c.cwd >>= λ cwd.
    configured_commands F root cs >>= λ rest. ok (
      record {
        name = c.name;
        cwd = cwd;
        argv = c.argv;
        manifest_path = [];
        script_name = [];
        script_body = [];
        implicit_lifecycle_scripts = [];
      }
      ∷ rest)

-- `Resolve`, over the package in the resolved root.
unfoldable pub resolve : FilePaths → (Str → Package) → Str → Values → Result (Option Definition)
unfolding configured_commands autodetect
resolve F files root values = elim (canonical_directory F root) [
  | none ↦ err (lit "cannot resolve repository root")
  | some canonical_root ↦
      if values.commands_set
      then (configured_commands F canonical_root values.commands >>= λ cs. ok (
          some
            (record { schema_version = pos 1; source_type = source_repo_config; commands = cs })))
      else if not values.autodetect
      then ok none
      else autodetect (files canonical_root)
]
