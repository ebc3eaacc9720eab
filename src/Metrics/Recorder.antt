-- ===== src/Metrics/Recorder.antt =====
-- internal/metrics/metrics.go: the record and its setters. A nil recorder is `none`; a duration is the
-- bit pattern of an int64, whose sum wraps around.
use commiter_cli.Base.{
  ℕ, ◌+◌, ◌^◌, ◌%◌, not, ◌||◌, leb, eqb, [], Option, none, some, if◌then◌else◌, ◌==◌,
}
use commiter_cli.Base.Int.{ℤ, pos}
use commiter_cli.Base.Str.{Str, lit, str_eq}

pub data Phase : Type 0 where
  git_preprocessing syntax_analysis model_load prompt_evaluation generation summarization
        verification git push :
      Phase

pub record Durations : Type 0 where
  pub git_preprocessing : Option ℕ
  pub syntax_analysis : Option ℕ
  pub model_load : Option ℕ
  pub prompt_evaluation : Option ℕ
  pub generation : Option ℕ
  pub summarization : Option ℕ
  pub verification : Option ℕ
  pub git : Option ℕ
  pub push : Option ℕ

pub record Counts : Type 0 where
  pub files : ℤ
  pub lines : ℤ
  pub bytes : ℤ
  pub syntax_success : ℤ
  pub syntax_fallback : ℤ
  -- The bit pattern of an int, which `add_summaries` adds to.
  pub summaries : ℕ

pub record Record : Type 0 where
  pub schema_version : ℕ
  pub recorded_at : ℕ
  pub durations : Durations
  pub counts : Counts
  pub model : Str
  pub context : Str
  pub context_ceiling : Str
  pub compression_profile : Str
  pub exit : Str
  pub codex_context_status : Str
  pub codex_context_records : ℤ

abbrev no_durations : Durations
no_durations = record {
  git_preprocessing = none;
  syntax_analysis = none;
  model_load = none;
  prompt_evaluation = none;
  generation = none;
  summarization = none;
  verification = none;
  git = none;
  push = none;
}

abbrev no_counts : Counts
no_counts = record {
  files = pos 0;
  lines = pos 0;
  bytes = pos 0;
  syntax_success = pos 0;
  syntax_fallback = pos 0;
  summaries = 0;
}

-- `New`, at a time
unfoldable pub new : ℕ → Record
new now = record {
  schema_version = 1;
  recorded_at = now;
  durations = no_durations;
  counts = no_counts;
  model = [];
  context = [];
  context_ceiling = [];
  compression_profile = [];
  exit = [];
  codex_context_status = [];
  codex_context_records = pos 0;
}

-- `phasePointer`, read and written. A `Phase` of the source that is none of the nine has no
-- pointer, and `AddDuration` does nothing with it: `none` here.
unfoldable pub at_phase : Durations → Phase → Option ℕ
at_phase d Phase.git_preprocessing = d.git_preprocessing
at_phase d Phase.syntax_analysis = d.syntax_analysis
at_phase d Phase.model_load = d.model_load
at_phase d Phase.prompt_evaluation = d.prompt_evaluation
at_phase d Phase.generation = d.generation
at_phase d Phase.summarization = d.summarization
at_phase d Phase.verification = d.verification
at_phase d Phase.git = d.git
at_phase d Phase.push = d.push

unfoldable pub set_phase : Durations → Phase → Option ℕ → Durations
set_phase d Phase.git_preprocessing v = record d { git_preprocessing = v }
set_phase d Phase.syntax_analysis v = record d { syntax_analysis = v }
set_phase d Phase.model_load v = record d { model_load = v }
set_phase d Phase.prompt_evaluation v = record d { prompt_evaluation = v }
set_phase d Phase.generation v = record d { generation = v }
set_phase d Phase.summarization v = record d { summarization = v }
set_phase d Phase.verification v = record d { verification = v }
set_phase d Phase.git v = record d { git = v }
set_phase d Phase.push v = record d { push = v }

unfoldable pub phase_named : Str → Option Phase
phase_named name =
    if name == lit "git_preprocessing"
    then some Phase.git_preprocessing
    else if name == lit "syntax_analysis"
    then some Phase.syntax_analysis
    else if name == lit "model_load"
    then some Phase.model_load
    else if name == lit "prompt_evaluation"
    then some Phase.prompt_evaluation
    else if name == lit "generation"
    then some Phase.generation
    else if name == lit "summarization"
    then some Phase.summarization
    else if name == lit "verification"
    then some Phase.verification
    else if name == lit "git"
    then some Phase.git
    else if name == lit "push"
    then some Phase.push
    else none

-- int64 addition
unfoldable pub add64 : ℕ → ℕ → ℕ
add64 a b = (a + b) % 2 ^ 64

unfoldable pub accumulate : Option ℕ → ℕ → ℕ
unfolding add64
accumulate none value = value
accumulate (some old) value = add64 value old

unfoldable pub add_named : Option Phase → ℕ → Record → Record
unfolding set_phase at_phase accumulate
add_named none value r = r
add_named (some phase) value r = record r {
  durations = set_phase r.durations phase (some (accumulate (at_phase r.durations phase) value));
}

-- A method of a recorder that may be nil.
abbrev pub Recorder : Type 0
Recorder = Option Record

unfoldable pub on : (Record → Record) → Recorder → Recorder
on f none = none
on f (some r) = some (f r)

-- `AddDuration`
unfoldable pub add_duration : Str → ℕ → Recorder → Recorder
unfolding on add_named phase_named
add_duration phase value = on (add_named (phase_named phase) value)

-- `SetCodexContext`
unfoldable pub set_codex_context : Str → ℤ → Recorder → Recorder
unfolding on
set_codex_context status records =
    on λ r. record r { codex_context_status = status; codex_context_records = records }

-- `SetPlanning`
unfoldable pub set_planning : Str → Str → Counts → Recorder → Recorder
unfolding on
set_planning model context counts =
    on λ r. record r { model = model; context = context; counts = counts }

-- `SetAnalysis`: the number of summaries stays.
unfoldable pub set_analysis : Str → ℤ → ℤ → ℤ → ℤ → ℤ → Recorder → Recorder
unfolding on
set_analysis model files lines bytes success fallback = on λ r. record r {
  model = model;
  counts = record {
    files = files;
    lines = lines;
    bytes = bytes;
    syntax_success = success;
    syntax_fallback = fallback;
    summaries = r.counts.summaries;
  };
}

-- `SetContext`: an empty model leaves the model.
unfoldable pub set_context : Str → Str → Recorder → Recorder
unfolding on
set_context model context =
    on λ r. record r { model = if not (model == []) then model else r.model; context = context }

-- `SetContextCeiling`
unfoldable pub set_context_ceiling : Str → Recorder → Recorder
unfolding on
set_context_ceiling ceiling = on λ r. record r { context_ceiling = ceiling }

-- `SetCompressionProfile`
unfoldable pub set_compression_profile : Str → Recorder → Recorder
unfolding on
set_compression_profile profile = on λ r. record r { compression_profile = profile }

-- `AddSummaries`: nothing for a count that is not positive.
unfoldable pub add_summaries : ℕ → Recorder → Recorder
unfolding on add64
add_summaries count = on λ r.
    if eqb count 0 || leb (2 ^ 63) count
    then r
    else record r { counts = record r.counts { summaries = add64 r.counts.summaries count } }

-- `Finish`, of a recorder that is not nil: the copy goes through JSON and keeps every field.
unfoldable pub finish : Str → Record → Record × Record
finish classification r = let done = record r { exit = classification } in (done, done)
