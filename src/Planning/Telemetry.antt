-- ===== src/Planning/Telemetry.antt =====
-- internal/llm/types.go: what a model answers; internal/planning/types.go and generator.go: the
-- numbers that a result keeps of the answers. An int64 or an int is its pattern of 64 bits.
use commiter_cli.Base.{ℕ, Bool, ◌&&◌, ◌+◌, ◌%◌, ◌^◌, List, if◌then◌else◌}
use commiter_cli.Base.Int.{ℤ}
use commiter_cli.Base.Str.{Str}

pub record TelemetryAvailability : Type 0 where
  pub total_duration : Bool
  pub load_duration : Bool
  pub prompt_eval_count : Bool
  pub prompt_eval_duration : Bool
  pub eval_count : Bool
  pub eval_duration : Bool

pub record Response : Type 0 where
  pub backend : Str
  pub model : Str
  pub content : Str
  pub stop_reason : Str
  pub total_duration : ℕ
  pub load_duration : ℕ
  pub prompt_eval_count : ℕ
  pub prompt_eval_duration : ℕ
  pub eval_count : ℕ
  pub eval_duration : ℕ
  pub selected_history_indices : List ℤ
  pub availability : TelemetryAvailability

pub record Telemetry : Type 0 where
  pub context_tokens : ℕ
  pub backend : Str
  pub model : Str
  pub total_duration : ℕ
  pub load_duration : ℕ
  pub prompt_eval_duration : ℕ
  pub eval_duration : ℕ
  pub prompt_eval_count : ℕ
  pub eval_count : ℕ
  pub availability : TelemetryAvailability

both_available : TelemetryAvailability → TelemetryAvailability → TelemetryAvailability
both_available a b = record {
  total_duration = a.total_duration && b.total_duration;
  load_duration = a.load_duration && b.load_duration;
  prompt_eval_count = a.prompt_eval_count && b.prompt_eval_count;
  prompt_eval_duration = a.prompt_eval_duration && b.prompt_eval_duration;
  eval_count = a.eval_count && b.eval_count;
  eval_duration = a.eval_duration && b.eval_duration;
}

-- `if available { sum += amount }`
add_if : Bool → ℕ → ℕ → ℕ
add_if available sum amount = if available then (sum + amount) % 2 ^ 64 else sum

-- `Telemetry.add`
unfoldable pub add_response : Telemetry → Response → Bool → Telemetry
unfolding both_available add_if
add_response t r first =
    let a = r.availability in
    record t {
      backend = r.backend;
      model = r.model;
      availability = if first then a else both_available t.availability a;
      total_duration = add_if a.total_duration t.total_duration r.total_duration;
      load_duration = add_if a.load_duration t.load_duration r.load_duration;
      prompt_eval_duration =
          add_if a.prompt_eval_duration t.prompt_eval_duration r.prompt_eval_duration;
      eval_duration = add_if a.eval_duration t.eval_duration r.eval_duration;
      prompt_eval_count = add_if a.prompt_eval_count t.prompt_eval_count r.prompt_eval_count;
      eval_count = add_if a.eval_count t.eval_count r.eval_count;
    }
