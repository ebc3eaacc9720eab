-- ===== src/Cli/Options.antt =====
-- internal/cli/cli.go: the options of the command line.
pub mod Printed
use commiter_cli.Base.{
  Bool, true, false, not, ◌&&◌, ◌||◌, List, [], ◌∷◌, ◌++◌, Option, none, some, if◌then◌else◌, ◌==◌,
  contains,
}
use commiter_cli.Base.Result.{Result, ok, err}
use commiter_cli.Base.Str.{Str, lit, str_eq, has_prefix, trim_prefix}
use commiter_cli.Cli.ExitCode.{ExitError, code_usage}
use commiter_cli.Config.Apply.{CliOverrides}

-- `options`
pub record Flags : Type 0 where
  pub json : Bool
  pub dry_run : Bool
  pub no_push : Bool
  pub no_confirm_commit : Bool
  pub no_confirm_push : Bool
  pub record_metrics : Bool
  pub language : Option Str
  pub model : Option Str
  pub command : Str
  pub args : List Str
  pub pathspecs : List Str
  pub help : Bool

abbrev pub no_flags : Flags
no_flags = record {
  json = false;
  dry_run = false;
  no_push = false;
  no_confirm_commit = false;
  no_confirm_push = false;
  record_metrics = false;
  language = none;
  model = none;
  command = [];
  args = [];
  pathspecs = [];
  help = false;
}

unfoldable pub command_names : List Str
command_names =
    lit "init" ∷ lit "setup" ∷ lit "doctor" ∷ lit "config" ∷ lit "trust" ∷ lit "version" ∷ []

-- What an argument is to the loop of `parse`: the end of the options, a command, an option, an option
-- that takes the next argument, or no option at all.
pub data Argument : Type 0 where
  separator command unknown : Argument
  sets : (Flags → Flags) → Argument
  takes : (Str → Flags → Flags) → Argument

abbrev pub set_language : Str → Flags → Flags
set_language value o = record o { language = some value }

abbrev pub set_model : Str → Flags → Flags
set_model value o = record o { model = some value }

-- The default case of the switch.
unfoldable pub other_argument : Str → Argument
other_argument arg =
    if has_prefix arg (lit "--language=")
    then sets (set_language (trim_prefix arg (lit "--language=")))
    else if has_prefix arg (lit "--model=")
    then sets (set_model (trim_prefix arg (lit "--model=")))
    else if has_prefix arg (lit "-")
    then unknown
    else sets (λ o. record o { pathspecs = o.pathspecs ++ (arg ∷ []) })

-- The switch of `parse`.
unfoldable pub option_argument : Str → Argument
unfolding other_argument
option_argument arg =
    if arg == lit "-h" || arg == lit "--help"
    then sets (λ o. record o { help = true })
    else if arg == lit "--json"
    then sets (λ o. record o { json = true })
    else if arg == lit "--dry-run"
    then sets (λ o. record o { dry_run = true })
    else if arg == lit "--no-push"
    then sets (λ o. record o { no_push = true })
    else if arg == lit "--no-confirm-commit"
    then sets (λ o. record o { no_confirm_commit = true })
    else if arg == lit "--no-confirm-push"
    then sets (λ o. record o { no_confirm_push = true })
    else if arg == lit "--record-metrics"
    then sets (λ o. record o { record_metrics = true })
    else if arg == lit "--language"
    then takes set_language
    else if arg == lit "--model"
    then takes set_model
    else other_argument arg

unfoldable pub argument : Str → Argument
unfolding option_argument command_names
argument arg =
    if arg == lit "--"
    then separator
    else if contains command_names arg
    then command
    else option_argument arg

-- `parse`, from the options that the arguments before set.
unfoldable pub parse : Flags → List Str → Result Flags
parse o [] = ok o
parse o (arg ∷ []) = elim (argument arg) [
  | separator ↦ ok o
  | command ↦ ok (record o { command = arg; args = [] })
  | unknown ↦ err (lit "unknown flag")
  | sets f ↦ ok (f o)
  | takes f ↦ err (arg ++ lit " requires a value")
]
parse o (arg ∷ (next ∷ rest)) = elim (argument arg) [
  | separator ↦ ok (record o { pathspecs = o.pathspecs ++ (next ∷ rest) })
  | command ↦ ok (record o { command = arg; args = next ∷ rest })
  | unknown ↦ err (lit "unknown flag")
  | sets f ↦ parse (f o) (next ∷ rest)
  | takes f ↦ parse (f next o) rest
]

-- `parseInitArgs`, of the patterns so far.
unfoldable pub parse_init_args : List Str → List Str → Result (List Str)
parse_init_args patterns [] = ok patterns
parse_init_args patterns (arg ∷ []) =
    if arg == lit "--ignore"
    then err (lit "--ignore requires a value")
    else if has_prefix arg (lit "--ignore=")
    then ok (patterns ++ (trim_prefix arg (lit "--ignore=") ∷ []))
    else err (lit "init accepts only --ignore")
parse_init_args patterns (arg ∷ (next ∷ rest)) = elim (arg == lit "--ignore") [
  | true ↦ parse_init_args (patterns ++ (next ∷ [])) rest
  | false ↦ elim (has_prefix arg (lit "--ignore=")) [
    | true ↦ parse_init_args (patterns ++ (trim_prefix arg (lit "--ignore=") ∷ [])) (next ∷ rest)
    | false ↦ err (lit "init accepts only --ignore")
  ]
]

first_is : List Str → List Str → Bool
first_is allowed [] = false
first_is allowed (arg ∷ rest) = contains allowed arg

-- `validateJSONMode`: none where the source returns no error.
unfoldable pub validate_json_mode : Flags → Option ExitError
unfolding first_is
validate_json_mode o =
    if not o.json
    then none
    else if o.command == lit "version"
    then none
    else if o.command == lit "init"
    then some (record { code = code_usage; message = lit "--json is not supported for init" })
    else if o.command == lit "doctor"
    then none
    else if o.command == lit "config" && first_is (lit "show" ∷ lit "path" ∷ []) o.args
    then none
    else if o.command == lit "trust" && first_is (lit "list" ∷ []) o.args
    then none
    else if o.command == [] && o.dry_run
    then none
    else some (record {
      code = code_usage;
      message = lit "--json requires --dry-run or a read-only command";
    })

-- `exactTarget`
unfoldable pub exact_target : List Str → Result Str
exact_target (arg ∷ []) =
    if arg == lit "--global" || arg == lit "--repo"
    then ok (trim_prefix arg (lit "--"))
    else err (lit "exactly one of --global or --repo is required")
exact_target _ = err (lit "exactly one of --global or --repo is required")

-- `overrides`
unfoldable pub overrides : Flags → CliOverrides
overrides o = record {
  language = o.language;
  commit_confirm = if o.no_confirm_commit then some false else none;
  push_enabled = if o.no_push then some false else none;
  push_confirm = if o.no_confirm_push then some false else none;
  model = o.model;
  metrics_persist = if o.record_metrics then some true else none;
}
