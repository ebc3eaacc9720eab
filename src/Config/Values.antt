-- ===== src/Config/Values.antt =====
-- internal/config/config.go: the values of the settings, their sources, the schema and the defaults.
use commiter_cli.Base.{Bool, true, false, List, [], ◌∷◌, map, if◌then◌else◌, ◌==◌, contains}
use commiter_cli.Base.Dict.{keys}
use commiter_cli.Base.Int.{ℤ, pos}
use commiter_cli.Base.Str.{Str, lit, str_eq}

-- `Source`; the last one is the empty text, which a key that is not in the map has.
pub data Source : Type 0 where
  source_default source_global source_repo source_cli source_unset missing_source : Source

abbrev pub source_eqb : Source → Source → Bool
source_eqb source_default source_default = true
source_eqb source_global source_global = true
source_eqb source_repo source_repo = true
source_eqb source_cli source_cli = true
source_eqb source_unset source_unset = true
source_eqb missing_source missing_source = true
source_eqb _ _ = false

pub record VerificationCommand : Type 0 where
  pub name : Str
  pub argv : List Str
  pub cwd : Str

pub record Values : Type 0 where
  pub schema_version : ℤ
  pub language : Str
  pub commit_confirm : Bool
  pub push_enabled : Bool
  pub push_confirm : Bool
  pub planner : Str
  pub model : Str
  pub backend : Str
  pub model_revision : Str
  pub model_quantization : Str
  pub context : Str
  pub max_tokens : ℤ
  pub untracked : Str
  pub include : List Str
  pub exclude : List Str
  pub autodetect : Bool
  pub timeout : ℤ
  pub commands : List VerificationCommand
  pub commands_set : Bool
  pub metrics_persist : Bool
  pub sensitive_patterns : List Str

-- `Effective`: the map of the sources as a function.
pub record Effective : Type 0 where
  pub values : Values
  pub sources : Str → Source

-- A value of any kind, and an `Entry`.
pub data Value : Type 0 where
  integer_value : ℤ → Value
  string_value : Str → Value
  boolean_value : Bool → Value
  strings_value : List Str → Value
  commands_value : List VerificationCommand → Value

pub record Entry : Type 0 where
  pub value : Value
  pub source : Source

pub data Kind : Type 0 where
  integer_kind string_kind boolean_kind string_array_kind commands_kind : Kind

pub record SchemaEntry : Type 0 where
  pub kind : Kind
  pub allowed : List Source

abbrev both : List Source
both = source_global ∷ source_repo ∷ []

abbrev only_global : List Source
only_global = source_global ∷ []

abbrev only_repo : List Source
only_repo = source_repo ∷ []

abbrev pub schema : List (Str × SchemaEntry)
schema =
    (lit "schema_version", record { kind = integer_kind; allowed = both })
    ∷ (lit "commit.language", record { kind = string_kind; allowed = both })
    ∷ (lit "commit.confirm", record { kind = boolean_kind; allowed = only_global })
    ∷ (lit "push.enabled", record { kind = boolean_kind; allowed = only_global })
    ∷ (lit "push.confirm", record { kind = boolean_kind; allowed = only_global })
    ∷ (lit "llm.planner", record { kind = string_kind; allowed = both })
    ∷ (lit "llm.model", record { kind = string_kind; allowed = both })
    ∷ (lit "llm.backend", record { kind = string_kind; allowed = both })
    ∷ (lit "llm.model_revision", record { kind = string_kind; allowed = both })
    ∷ (lit "llm.model_quantization", record { kind = string_kind; allowed = both })
    ∷ (lit "llm.context", record { kind = string_kind; allowed = both })
    ∷ (lit "llm.max_context_tokens", record { kind = integer_kind; allowed = both })
    ∷ (lit "analysis.untracked", record { kind = string_kind; allowed = only_global })
    ∷ (lit "analysis.include", record { kind = string_array_kind; allowed = both })
    ∷ (lit "analysis.exclude", record { kind = string_array_kind; allowed = both })
    ∷ (lit "verification.autodetect", record { kind = boolean_kind; allowed = only_repo })
    ∷ (lit "verification.timeout_seconds", record { kind = integer_kind; allowed = only_repo })
    ∷ (lit "verification.commands", record { kind = commands_kind; allowed = only_repo })
    ∷ (lit "metrics.persist", record { kind = boolean_kind; allowed = only_global })
    ∷ (
      lit "safety.additional_sensitive_patterns",
      record { kind = string_array_kind; allowed = only_global },
    )
    ∷ []

abbrev pub candidate_model : Str
candidate_model = lit "mlx-community/gemma-4-E4B-it-4bit"

abbrev pub candidate_revision : Str
candidate_revision = lit "475b9088d29754a3379866cf5aeb6b41acd313c2"

abbrev pub candidate_planner : Str
candidate_planner = lit "three-phase"

abbrev pub planner_model_quantization : Str
planner_model_quantization = lit "4bit"

default_sources : Str → Source
default_sources key =
    if key == lit "verification.commands"
    then source_unset
    else if contains (keys schema) key
    then source_default
    else missing_source

-- `Defaults`
unfoldable pub defaults : Effective
unfolding default_sources
defaults = record {
  values = record {
    schema_version = pos 1;
    language = lit "en";
    commit_confirm = true;
    push_enabled = true;
    push_confirm = true;
    planner = candidate_planner;
    model = candidate_model;
    backend = lit "mlx";
    model_revision = candidate_revision;
    model_quantization = planner_model_quantization;
    context = lit "64k";
    max_tokens = pos 65536;
    untracked = lit "auto-safe";
    include = [];
    exclude = [];
    autodetect = true;
    timeout = pos 600;
    commands = [];
    commands_set = false;
    metrics_persist = false;
    sensitive_patterns = [];
  };
  sources = default_sources;
}

abbrev values_by_key : Values → List (Str × Value)
values_by_key v =
    (lit "schema_version", integer_value v.schema_version)
    ∷ (lit "commit.language", string_value v.language)
    ∷ (lit "commit.confirm", boolean_value v.commit_confirm)
    ∷ (lit "push.enabled", boolean_value v.push_enabled)
    ∷ (lit "push.confirm", boolean_value v.push_confirm)
    ∷ (lit "llm.planner", string_value v.planner)
    ∷ (lit "llm.model", string_value v.model)
    ∷ (lit "llm.backend", string_value v.backend)
    ∷ (lit "llm.model_revision", string_value v.model_revision)
    ∷ (lit "llm.model_quantization", string_value v.model_quantization)
    ∷ (lit "llm.context", string_value v.context)
    ∷ (lit "llm.max_context_tokens", integer_value v.max_tokens)
    ∷ (lit "analysis.untracked", string_value v.untracked)
    ∷ (lit "analysis.include", strings_value v.include)
    ∷ (lit "analysis.exclude", strings_value v.exclude)
    ∷ (lit "verification.autodetect", boolean_value v.autodetect)
    ∷ (lit "verification.timeout_seconds", integer_value v.timeout)
    ∷ (lit "verification.commands", commands_value v.commands)
    ∷ (lit "metrics.persist", boolean_value v.metrics_persist)
    ∷ (lit "safety.additional_sensitive_patterns", strings_value v.sensitive_patterns)
    ∷ []

-- `Entries`
unfoldable pub entries : Effective → List (Str × Entry)
entries e = map (λ (k, v). (k, record { value = v; source = e.sources k })) (values_by_key e.values)

-- `pinnedPlannerRevision`
unfoldable pub pinned_planner_revision : Str → Str
pinned_planner_revision model =
    if model == candidate_model
    then candidate_revision
    else if model == lit "mlx-community/Qwen3.5-4B-4bit"
    then lit "0e7ffd5c629ef7719d4cbc04069232580bfa9d9c"
    else []
