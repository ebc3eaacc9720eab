-- ===== src/Planning/Invoke.antt =====
-- internal/planning/three_phase.go: one request of the planner, `invoke`, with what the program asks
-- of its client. The texts of the requests and encoding/json are parameters.
pub mod Costs
use commiter_cli.Base.{
  ℕ, suc, Bool, true, false, not, List, [], ◌∷◌, ◌++◌, Option, none, some, if◌then◌else◌, ◌==◌, eqb,
  is_nil, max,
}
use commiter_cli.Base.Int.{ℤ}
use commiter_cli.Base.Str.{Str, lit, str_eq, utf8}
use commiter_cli.Cli.ExitCode.{ExitError, code_internal, code_llm}
use commiter_cli.Context.Budget.{context_64k}
use commiter_cli.Planning.Evidence.{BreakingEvidence, GroupingFile, Category, CommitText}
use commiter_cli.Planning.Grouping.{InputFile, CandidateGroup}
use commiter_cli.Planning.Sensitive.{SensitiveValues, contains_sensitive}
use commiter_cli.Planning.Strict.{JsonTree, strict_candidate_json}
use commiter_cli.Planning.Telemetry.{Response, Telemetry, add_response}
use commiter_cli.Planning.Types.{
  Plan, Violation, invalid_json, invalid_schema, invalid_type, invalid_scope, invalid_summary,
  invalid_summary_language, invalid_assignment, sensitive_output, incomplete_output,
}
use commiter_cli.Planning.Attempt.{
  Attempt, gave, stopped, required, forbid, unless, violation_code, generation_error, plain_error,
  llm_error,
}

-- `contextinput.Prepared`, as far as the planner reads it.
pub record Prepared : Type 0 where
  pub files : List InputFile
  pub summary_count : ℕ
  pub evidence_reduction_count : ℕ
  pub compression_profile : Str
  pub prompt : Str

pub data Profile : Type 0 where
  bounded_grouping bounded_category bounded_text : Profile

-- The schemas that `candidateObject` describes, by what their enumerations list.
pub data RequestedShape : Type 0 where
  grouping_shape : List Str → List Str → RequestedShape
  category_shape : List (Str × List Str) → RequestedShape
  text_shape : List Str → RequestedShape

-- The answer of `ChatWithOptions`: `llm.ErrInputTooLarge` is told apart from other errors.
pub data ChatAnswer : Type 0 where
  responded : Response → ChatAnswer
  too_large chat_failed : ChatAnswer

-- A request as the client of the model gets it.
pub record ChatRequest (Messages History : Type 0) : Type 0 where
  pub messages : Messages
  pub shape : RequestedShape
  pub profile : Profile
  pub history : Option History
  pub context_tokens : ℕ
  pub output_tokens : ℕ

-- The world of a generation, the client, the texts of the requests with the history that they share,
-- and the decoders.
pub record Planner : Type 1 where
  pub World : Type 0
  pub Payload : Type 0
  pub Messages : Type 0
  pub History : Type 0
  pub Common : Type 0
  -- `ctx.Err() != nil`
  pub expired : World → World × Bool
  -- Whether the client is an `optionsChatClient`; `BeginCycle` and what it gives for closing, which
  -- do nothing for a client without a life cycle.
  pub supports_options : Bool
  pub begin_cycle : World → World × Option ExitError
  pub close_cycle : World → World
  pub chat : ChatRequest Messages History → World → World × ChatAnswer
  -- The `regeneration_feedback` of the prompt; none in front if it is not a JSON object.
  pub feedback : Str → Option (Option Str)
  pub grouping_projection : List InputFile → Attempt (List GroupingFile)
  pub grouping_payload : List GroupingFile → List (Str × InputFile) → Option Str → Attempt Payload
  pub metadata_payload :
      List CandidateGroup
      → List GroupingFile
      → Payload
      → Str
      → Option Str
      → List BreakingEvidence
      → Attempt Payload
  pub text_payload : Payload → List (Str × Category) → Payload
  pub safe_history : Payload → SensitiveValues → Payload
  pub messages :
      Profile → Payload → RequestedShape → Option Common → Attempt (Messages × Option Common)
  pub optional_history : Messages → Attempt (Option History)
  pub select : History → List ℤ → Attempt Common
  -- The tokens of an answer up to its end, `Decode` with `DisallowUnknownFields` into the map of each
  -- phase, and `json.Marshal` of a plan
  pub tokens : Str → Option JsonTree
  pub decode_membership : Str → Option (List (Str × Str))
  pub decode_categories : Str → Option (List (Str × Category))
  pub decode_texts : Str → Option (List (Str × CommitText))
  pub marshal : Plan → Str
  pub decimal : ℕ → Str

-- The world, and what the result counts; the history that the phases share.
pub record Progress (P : Planner) : Type 0 where
  pub world : P.World
  pub calls : ℕ
  pub telemetry : Telemetry
  pub common : Option P.Common

abbrev pub Gen : Planner → Type 0 → Type 0
Gen P A = Progress P → Progress P × Attempt A

module _ {P : Planner} {A B : Type 0} where
  abbrev pub continued : Attempt A → (A → Gen P B) → Gen P B
  continued (gave a) f s = f a s
  continued (stopped e) f s = (s, stopped e)

  infixl 10 ◌>>=◌
  unfoldable pub ◌>>=◌ : Gen P A → (A → Gen P B) → Gen P B
  ◌>>=◌ m f s = continued (m s).1 f (m s).0

module _ {P : Planner} {A : Type 0} where
  unfoldable pub attempt : Attempt A → Gen P A
  attempt r s = (s, r)

-- The checks on a response, and its decoding.
accept_content :
    {A : Type 0}
    → (Str → Option JsonTree)
    → SensitiveValues
    → (Str → Option A)
    → Response
    → Attempt A
accept_content tokens S decode r =
    if not (r.stop_reason == lit "completed")
    then stopped (generation_error (incomplete_output ∷ []))
    else if contains_sensitive S (utf8 r.content)
    then stopped (generation_error (sensitive_output ∷ []))
    else required (strict_candidate_json tokens decode r.content)
        (generation_error (invalid_schema ∷ []))

module _ (P : Planner) where
  history_of : Profile → P.Messages → Attempt (Option P.History)
  history_of bounded_text m = gave none
  history_of _ m = P.optional_history m

  -- The history that an answer selects is shared from the first phase on.
  shared_history : Profile → Option P.Common → Attempt P.Common → Option P.Common
  shared_history bounded_grouping old (gave new) = some new
  shared_history _ old _ = old

  selection : Attempt P.Common → Attempt (Unit {0})
  selection (gave new) = gave tt
  selection (stopped e) = stopped e

  formed : Attempt (P.Messages × Option P.Common) → Attempt P.Messages
  formed (gave (m, common)) = gave m
  formed (stopped e) = stopped e

  common_after : Attempt (P.Messages × Option P.Common) → Option P.Common → Option P.Common
  common_after (gave (m, common)) old = common
  common_after (stopped e) old = old

answer_of : ChatAnswer → Attempt Response
answer_of (responded r) = gave r
answer_of too_large = stopped (plain_error (lit "planning input exceeds the allowed context"))
answer_of chat_failed = stopped (generation_error [])

module _ {P : Planner} where
  unfoldable pub unless_expired : Gen P (Unit {0})
  unless_expired s = (
    record s { world = (P.expired s.world).0 },
    unless (P.expired s.world).1 (generation_error (incomplete_output ∷ [])),
  )

  -- The messages of a request, which may read the shared history and set it.
  unfoldable pub form_messages :
      SensitiveValues → Profile → P.Payload → RequestedShape → Gen P P.Messages
  unfolding formed common_after
  form_messages S profile payload shape s =
      let r = P.messages profile (P.safe_history payload S) shape s.common in
      (record s { common = common_after P r s.common }, formed P r)

  -- `result.Calls++`, the window that is asked for, and the call.
  unfoldable pub chat_once : ChatRequest P.Messages P.History → Gen P Response
  unfolding answer_of
  chat_once q s =
      let t = s.telemetry in
      let answer = P.chat q s.world in
      let counted : Progress P = record s {
        world = answer.0;
        calls = suc s.calls;
        telemetry = record t { context_tokens = max t.context_tokens q.context_tokens };
      } in
      (counted, answer_of answer.1)

  unfoldable pub keep_selected : Profile → Option P.History → Response → Gen P (Unit {0})
  unfolding shared_history selection
  keep_selected profile none r s = (s, gave tt)
  keep_selected profile (some h) r s =
      let new = P.select h r.selected_history_indices in
      (record s { common = shared_history P profile s.common new }, selection P new)

  unfoldable pub note_response : Response → Gen P (Unit {0})
  note_response r s = (record s { telemetry = add_response s.telemetry r (eqb s.calls 1) }, gave tt)

  -- `invoke`
  unfoldable pub invoke :
      {A : Type 0}
      → SensitiveValues
      → Profile
      → P.Payload
      → RequestedShape
      → (Str → Option A)
      → Gen P A
  unfolding unless_expired form_messages history_of chat_once keep_selected note_response
      accept_content attempt
  invoke S profile payload shape decode = unless_expired >>= λ _.
      form_messages S profile payload shape >>= λ m. attempt (history_of P profile m) >>= λ history.
      chat_once (record {
        messages = m;
        shape = shape;
        profile = profile;
        history = history;
        context_tokens = context_64k;
        output_tokens = 4096;
      })
      >>= λ r. keep_selected profile history r >>= λ _. note_response r >>= λ _.
          unless_expired >>= λ _. attempt (accept_content P.tokens S decode r)
