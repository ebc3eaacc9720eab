-- ===== src/Config/Apply.antt =====
-- internal/config/config.go: one setting, the settings of a file, and those of the command line.
use commiter_cli.Base.{
  ℕ, Bool, true, false, not, ◌&&◌, ◌||◌, List, [], ◌∷◌, Option, none, some, if◌then◌else◌, ◌==◌,
  is_nil, ltb, take,
}
use commiter_cli.Base.Dict.{lookup}
use commiter_cli.Base.Int.{ℤ}
use commiter_cli.Base.Result.{Result, ok, err, ◌>>=◌}
use commiter_cli.Base.Str.{Str, lit, str_eq, str_lt}
use commiter_cli.Config.Values.{
  Source, source_default, source_cli, source_eqb, Values, Effective, Kind, integer_kind,
  string_kind, boolean_kind, string_array_kind, commands_kind, schema, planner_model_quantization,
  pinned_planner_revision,
}
use commiter_cli.Config.Toml.{
  Toml, Table, Flat, unknown_key, flatten, as_integer, as_string, as_boolean, string_array,
  parse_commands,
}

-- `e.Sources[key] = source`
abbrev pub with_source : (Str → Source) → Str → Source → Str → Source
with_source sources key source other = if key == other then source else sources other

unfoldable pub set_integer : Str → ℤ → Values → Values
set_integer key n v =
    if key == lit "schema_version"
    then record v { schema_version = n }
    else if key == lit "llm.max_context_tokens"
    then record v { max_tokens = n }
    else if key == lit "verification.timeout_seconds"
    then record v { timeout = n }
    else v

unfoldable pub set_string : Str → Str → Values → Values
set_string key s v =
    if key == lit "commit.language"
    then record v { language = s }
    else if key == lit "llm.planner"
    then record v { planner = s }
    else if key == lit "llm.model"
    then record v { model = s }
    else if key == lit "llm.backend"
    then record v { backend = s }
    else if key == lit "llm.model_revision"
    then record v { model_revision = s }
    else if key == lit "llm.model_quantization"
    then record v { model_quantization = s }
    else if key == lit "llm.context"
    then record v { context = s }
    else if key == lit "analysis.untracked"
    then record v { untracked = s }
    else v

unfoldable pub set_boolean : Str → Bool → Values → Values
set_boolean key b v =
    if key == lit "commit.confirm"
    then record v { commit_confirm = b }
    else if key == lit "push.enabled"
    then record v { push_enabled = b }
    else if key == lit "push.confirm"
    then record v { push_confirm = b }
    else if key == lit "verification.autodetect"
    then record v { autodetect = b }
    else if key == lit "metrics.persist"
    then record v { metrics_persist = b }
    else v

unfoldable pub set_strings : Str → List Str → Values → Values
set_strings key ss v =
    if key == lit "analysis.include"
    then record v { include = ss }
    else if key == lit "analysis.exclude"
    then record v { exclude = ss }
    else if key == lit "safety.additional_sensitive_patterns"
    then record v { sensitive_patterns = ss }
    else v

-- A value of the right type is written, and its source with it.
unfoldable pub typed : {A : Type 0} → Option A → (A → Values) → (Str → Source) → Result Effective
typed none write sources = err (lit "configuration key must have another type")
typed (some a) write sources = ok (record { values = write a; sources = sources })

-- The switch on the kind.
unfoldable pub apply_kind : Effective → Str → Kind → Toml → Source → Result Effective
unfolding set_integer set_string set_boolean set_strings typed
apply_kind e key integer_kind raw source =
    typed (as_integer raw) (λ n. set_integer key n e.values) (with_source e.sources key source)
apply_kind e key string_kind raw source =
    typed (as_string raw) (λ s. set_string key s e.values) (with_source e.sources key source)
apply_kind e key boolean_kind raw source =
    typed (as_boolean raw) (λ b. set_boolean key b e.values) (with_source e.sources key source)
apply_kind e key string_array_kind raw source =
    typed (string_array raw) (λ ss. set_strings key ss e.values) (with_source e.sources key source)
apply_kind e key commands_kind raw source = err (lit "unsupported schema type")

unfoldable pub apply_commands : Effective → Str → Toml → Source → Result Effective
apply_commands e key raw source = parse_commands raw >>= λ commands. ok (record {
  values = record e.values { commands = commands; commands_set = true };
  sources = with_source e.sources key source;
})

-- `applyValue`
unfoldable pub apply_value : Effective → Str → Kind → Toml → Source → Result Effective
unfolding apply_kind apply_commands
apply_value e key kind raw source =
    if key == lit "verification.commands"
    then apply_commands e key raw source
    else apply_kind e key kind raw source

unfoldable pub allows : List Source → Source → Bool
allows [] source = false
allows (s ∷ ss) source = source_eqb s source || allows ss source

-- One round of the loop over the keys.
unfoldable pub apply_setting : Source → Effective → Str → Toml → Result Effective
unfolding apply_value allows
apply_setting source e key raw = elim (lookup schema key) [
  | none ↦ err unknown_key
  | some entry ↦
      if not (allows entry.allowed source)
      then err (lit "configuration key is not allowed")
      else apply_value e key entry.kind raw source
]

unfoldable pub apply_settings : Source → Effective → Flat → Result Effective
unfolding apply_setting
apply_settings source e [] = ok e
apply_settings source e ((key, raw) ∷ rest) =
    apply_setting source e key raw >>= λ e'. apply_settings source e' rest

unfoldable pub insert_setting : Str → Toml → Flat → Flat
insert_setting k v [] = (k, v) ∷ []
insert_setting k v ((j, w) ∷ rest) =
    if str_lt j k then (j, w) ∷ insert_setting k v rest else (k, v) ∷ ((j, w) ∷ rest)

-- The keys in the order of sort.Strings, each with its value.
unfoldable pub sort_settings : Flat → Flat
unfolding insert_setting
sort_settings [] = []
sort_settings ((k, v) ∷ rest) = insert_setting k v (sort_settings rest)

abbrev pub max_file_size : ℕ
max_file_size = 1048576

-- A configuration file: absent, an error, or its size and content.
pub data File : Type 0 where
  absent cannot_open cannot_inspect : File
  file : (size : ℕ) (content : Str) → File

unfoldable pub has_key : Flat → Str → Bool
has_key flat key = elim (lookup flat key) [ none ↦ false | some v ↦ true ]

unfoldable pub model_setting : Flat → Bool
unfolding has_key
model_setting flat =
    has_key flat (lit "llm.model")
    || has_key flat (lit "llm.backend")
    || has_key flat (lit "llm.model_revision")
    || has_key flat (lit "llm.model_quantization")

-- What follows the flattening.
unfoldable pub apply_flat : Source → Effective → Flat → Result Effective
unfolding has_key model_setting
apply_flat source e flat =
    if has_key flat (lit "llm.endpoint")
    then err (lit "remove llm.endpoint")
    else if not (has_key flat (lit "llm.planner"))
        && source_eqb (e.sources (lit "llm.planner")) source_default
        && model_setting flat
    then err (lit "set llm.planner explicitly when migrating model settings")
    else apply_settings source e (sort_settings flat)

-- `applyFile`, where `decode` is the TOML decoder.
unfoldable pub apply_file : (Str → Option Table) → Source → Effective → File → Result Effective
unfolding apply_flat
apply_file decode source e absent = ok e
apply_file decode source e cannot_open = err (lit "cannot open configuration")
apply_file decode source e cannot_inspect = err (lit "cannot inspect configuration")
apply_file decode source e (file size content) =
    if ltb max_file_size size
    then err (lit "configuration is too large")
    else elim (decode (take 1048577 content)) [
      | none ↦ err (lit "invalid TOML in configuration")
      | some raw ↦ flatten [] raw [] >>= apply_flat source e
    ]

pub record CliOverrides : Type 0 where
  pub language : Option Str
  pub commit_confirm : Option Bool
  pub push_enabled : Option Bool
  pub push_confirm : Option Bool
  pub model : Option Str
  pub metrics_persist : Option Bool

-- One field of an `Effective` that the command line sets.
unfoldable pub override :
    {A : Type 0} → Option A → Str → (A → Values → Values) → Effective → Effective
override none key write e = e
override (some a) key write e = record {
  values = write a e.values;
  sources = with_source e.sources key source_cli;
}

unfoldable pub override_model : Option Str → Effective → Result Effective
unfolding override
override_model none e = ok e
override_model (some model) e =
    let revision = pinned_planner_revision model in
    if is_nil revision
    then err (lit "--model requires a supported pinned model")
    else ok (
        override (some planner_model_quantization) (lit "llm.model_quantization")
          (λ s v. record v { model_quantization = s })
          (override (some revision) (lit "llm.model_revision")
            (λ s v. record v { model_revision = s })
            (override (some model) (lit "llm.model") (λ s v. record v { model = s }) e)))

-- `applyCLI`
unfoldable pub apply_cli : Effective → CliOverrides → Result Effective
unfolding override_model
apply_cli e cli =
    let e1 = override cli.language (lit "commit.language") (λ s v. record v { language = s }) e in
    let e2 =
      override cli.commit_confirm (lit "commit.confirm") (λ b v. record v { commit_confirm = b })
        e1 in
    let e3 =
      override cli.push_enabled (lit "push.enabled") (λ b v. record v { push_enabled = b }) e2 in
    let e4 =
      override cli.push_confirm (lit "push.confirm") (λ b v. record v { push_confirm = b }) e3 in
    override_model cli.model e4 >>= λ e5. ok (
      override cli.metrics_persist (lit "metrics.persist") (λ b v. record v { metrics_persist = b })
        e5)
