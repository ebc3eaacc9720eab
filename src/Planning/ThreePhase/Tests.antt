-- ===== src/Planning/ThreePhase/Tests.antt =====
-- A generation for two files, with evidence for one of them.
use mathlib.Core.List.{mem-cons_self}
use commiter_cli.Base.{
  ◌↔◌, ◌≡◌, refl, ℕ, suc, ◌+◌, true, false, List, [], ◌∷◌, none, some, leb, All,
}
use commiter_cli.Base.Atoi.{digit}
use commiter_cli.Base.Sets.{add_all}
use commiter_cli.Planning.Assignment.{complete_assignment}
use commiter_cli.Base.Int.{int_eq}
use commiter_cli.Base.Str.{
  lit, str_eq, trim_space, has_prefix, has_infix, utf8, any, trim_left, str_lt,
}
use commiter_cli.Planning.Evidence.{
  BreakingEvidence, host_evidence_error, check_categories, allowed_references, applicable,
  any_confirmed, applies, git_evidence, compose,
}
use commiter_cli.Planning.Evidence.Breaking.{Announces}
use commiter_cli.Planning.Grouping.{
  InputFile, structural, raw_diff_projection, labelled_files, sort_files, grouped, natural_less,
}
use commiter_cli.Planning.Attempt.{Attempt, gave}
use commiter_cli.Planning.Invoke.{Prepared, responded, Planner, Progress, ◌>>=◌}
use commiter_cli.Planning.Sensitive.{SensitiveValues, contains_sensitive}
use commiter_cli.Planning.Strict.Distinct.{walk_iff, HasDistinctKeys}
use commiter_cli.Planning.Strict.{
  JsonTree, walk, json_object, json_scalar, member, no_members, strict_candidate_json,
}
use commiter_cli.Planning.Telemetry.{TelemetryAvailability, Response}
use commiter_cli.Planning.ThreePhase.{plan_of, generate}
use commiter_cli.Planning.ThreePhase.Returned.{IsEnded, generate-IsEnded, generate-Announces}
use commiter_cli.Planning.Types.{Plan, english, allowed_types, violation_eq}
use commiter_cli.Planning.Validate.{
  Unicode, decode_plan, wire_plan, validate, sensitive_violations, one_non_empty_line,
  summary_matches_language,
}
use commiter_cli.Planning.Validate.Accepts.{IsAccepted}
use commiter_cli.Planning.ThreePhase.Encoding.{
  put_text, text_of, put_texts, texts_of, put_commits, head_of, tail_of, commits_of, encode, json,
  reads_back,
}

abbrev two_files : List InputFile
two_files =
    record {
      id = lit "b";
      old_path = none;
      new_path = some (lit "y2.go");
      mode = structural;
      binary = false;
      opaque = false;
      grouping_raw_diff = [];
      raw_diff = lit "+y";
    }
    ∷ record {
      id = lit "a";
      old_path = some (lit "x10.go");
      new_path = none;
      mode = structural;
      binary = false;
      opaque = false;
      grouping_raw_diff = lit "-x";
      raw_diff = [];
    }
    ∷ []

abbrev prepared : Prepared
prepared = record {
  files = two_files;
  summary_count = 0;
  evidence_reduction_count = 0;
  compression_profile = [];
  prompt = lit "{}";
}

abbrev nothing_available : TelemetryAvailability
nothing_available = record {
  total_duration = false;
  load_duration = false;
  prompt_eval_count = false;
  prompt_eval_duration = false;
  eval_count = true;
  eval_duration = false;
}

abbrev answer : Response
answer = record {
  backend = lit "local";
  model = lit "m";
  content = lit "{}";
  stop_reason = lit "completed";
  total_duration = 0;
  load_duration = 0;
  prompt_eval_count = 0;
  prompt_eval_duration = 0;
  eval_count = 7;
  eval_duration = 0;
  selected_history_indices = [];
  availability = nothing_available;
}

abbrev planner : Planner
planner = record {
  World = ℕ;
  Payload = Unit {0};
  Messages = Unit {0};
  History = Unit {0};
  Common = Unit {0};
  expired = λ w. (w, false);
  supports_options = true;
  begin_cycle = λ w. (w, none);
  close_cycle = λ w. w;
  chat = λ q w. (suc w, responded answer);
  feedback = λ s. some none;
  grouping_projection = λ fs. gave [];
  grouping_payload = λ fs ls f. gave tt;
  metadata_payload = λ gs fs p l f es. gave tt;
  text_payload = λ p cs. tt;
  safe_history = λ p v. p;
  messages = λ f p h c. gave (tt, c);
  optional_history = λ m. gave none;
  select = λ h is. gave tt;
  tokens = λ s.
      some (json_object (member (lit "F1") json_scalar (member (lit "F2") json_scalar no_members)));
  decode_membership = λ s. some ((lit "F1", lit "G002") ∷ (lit "F2", lit "G001") ∷ []);
  decode_categories = λ s. some (
      (lit "G001", record { type = lit "feat"; reference = lit "api" })
      ∷ (lit "G002", record { type = lit "fix"; reference = lit "none" })
      ∷ []);
  decode_texts = λ s. some (
      (lit "G001", record { scope = lit "core"; summary = lit "add" })
      ∷ (lit "G002", record { scope = lit "core"; summary = lit "guard" })
      ∷ []);
  marshal = encode;
  decimal = λ n. (48 + n) ∷ [];
}

abbrev evidence : BreakingEvidence
evidence = record { id = lit "api"; file_ids = lit "a" ∷ []; fact = lit "removed" }

abbrev begun : Progress planner
begun = record {
  world = 0;
  calls = 0;
  telemetry = record {
    context_tokens = 0;
    backend = [];
    model = [];
    total_duration = 0;
    load_duration = 0;
    prompt_eval_duration = 0;
    eval_duration = 0;
    prompt_eval_count = 0;
    eval_count = 0;
    availability = nothing_available;
  };
  common = none;
}

abbrev unicode : Unicode
unicode = record {
  hiragana = λ c. false;
  katakana = λ c. false;
  han = λ c. false;
  latin = λ c. leb b'a' c;
  lower = λ c. c;
}

abbrev values : SensitiveValues
values = record { values = lit "hunter2" ∷ [] }

abbrev planned : Plan
planned = plan_of (
    record {
      type = lit "feat";
      scope = lit "core";
      breaking = true;
      summary = lit "add";
      file_ids = lit "a" ∷ [];
    }
    ∷ record {
      type = lit "fix";
      scope = lit "core";
      breaking = false;
      summary = lit "guard";
      file_ids = lit "b" ∷ [];
    }
    ∷ [])

abbrev run : Progress planner × Attempt Plan
run = generate planner (evidence ∷ []) values unicode json prepared english begun

run-planned : run ≡ (run.0, gave planned)
unfolding generate ◌>>=◌ str_eq add_all raw_diff_projection labelled_files sort_files digit
    host_evidence_error has_prefix contains_sensitive has_infix utf8 grouped natural_less
    strict_candidate_json check_categories allowed_references applicable any_confirmed applies
    git_evidence compose allowed_types validate decode_plan wire_plan json encode head_of tail_of
    commits_of put_commits text_of put_text texts_of put_texts int_eq trim_space any violation_eq
    sensitive_violations complete_assignment one_non_empty_line summary_matches_language trim_left
    str_lt
run-planned = refl

generate-IsEnded_example :
    IsEnded planner
      (evidence ∷ [])
      values
      unicode
      json
      0
      (λ plan. IsAccepted unicode values english plan (lit "b" ∷ lit "a" ∷ []))
      run
generate-IsEnded_example =
    generate-IsEnded planner (evidence ∷ []) values unicode json prepared english begun

generate-Announces_example : All (Announces evidence) planned.commits
generate-Announces_example =
    generate-Announces planner (evidence ∷ []) values unicode json prepared english begun run.0
      planned reads_back run-planned evidence mem-cons_self

-- A key twice in an inner object, below a key of another name.
abbrev repeated_key : JsonTree
repeated_key = json_object (
    member (lit "G001")
      (json_object (member (lit "type") json_scalar (member (lit "type") json_scalar no_members)))
      no_members)

walk_iff_example : (walk repeated_key ≡ true) ↔ HasDistinctKeys repeated_key
walk_iff_example = walk_iff repeated_key

walk-repeated : walk repeated_key ≡ false
unfolding walk str_eq
walk-repeated = refl
