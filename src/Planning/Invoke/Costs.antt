-- ===== src/Planning/Invoke/Costs.antt =====
-- internal/planning/three_phase.go: how many requests a step of the planner makes.
use commiter_cli.Base.{◌≡◌, refl, ℕ, ◌+◌, ◌≤◌, Option, none, some, arith}
use commiter_cli.Base.Str.{Str}
use commiter_cli.Planning.Attempt.{Attempt, gave, stopped}
use commiter_cli.Planning.Invoke.{
  Profile, RequestedShape, Planner, Progress, Gen, continued, ◌>>=◌, attempt, unless_expired,
  form_messages, history_of, accept_content, ChatRequest, chat_once, keep_selected, note_response,
  invoke,
}
use commiter_cli.Planning.Sensitive.{SensitiveValues}
use commiter_cli.Planning.Telemetry.{Response}

-- A step that gives a value has made `k` calls and the value is as `Q` says; one that stops made no
-- more than `k`.
abbrev pub Spent :
    {A : Type 0} (P : Planner) → ℕ → ℕ → (A → Type 0) → Progress P × Attempt A → Type 0
Spent P n k Q (s, gave a) = (s.calls ≡ n + k) × Q a
Spent P n k Q (s, stopped e) = s.calls ≤ n + k

pub record Costs {A : Type 0} (P : Planner) (k : ℕ) (m : Gen P A) (Q : A → Type 0) : Type 0 where
  pub spent : (s : Progress P) → Spent P s.calls k Q (m s)

module _ {P : Planner} where
  Spent-shift :
      {B : Type 0} (R : B → Type 0) (c k n l : ℕ) (r : Progress P × Attempt B)
      → c + k ≡ n + l
      → Spent P c k R r
      → Spent P n l R r
  Spent-shift R c k n l (s, gave b) e h = (omega (arith, h.0, e), h.1)
  Spent-shift R c k n l (s, stopped x) e h = omega (arith, h, e)

  Spent-continued :
      {A B : Type 0} {Q : A → Type 0} {R : B → Type 0} (n j k : ℕ) (f : A → Gen P B)
      (r : Progress P × Attempt A)
      → Spent P n j Q r
      → ((a : A) → Q a → Costs P k (f a) R)
      → Spent P n (j + k) R (continued {P = P} r.1 f r.0)
  Spent-continued {R} n j k f (s, gave a) h g =
      Spent-shift R s.calls k n (j + k) (f a s) (omega (arith, h.0)) ((g a h.1).spent s)
  Spent-continued n j k f (s, stopped e) h g = omega (arith, h)

  pub costs_bind :
      {A B : Type 0} {Q : A → Type 0} {R : B → Type 0} (j k : ℕ) {m : Gen P A} {f : A → Gen P B}
      → Costs P j m Q
      → ((a : A) → Q a → Costs P k (f a) R)
      → Costs P (j + k) (◌>>=◌ {P = P} m f) R
  unfolding ◌>>=◌
  costs_bind j k {m} {f} h g = record {
    spent = λ s. Spent-continued s.calls j k f (m s) (h.spent s) g;
  }

  Spent-weaken :
      {A : Type 0} {Q R : A → Type 0} (n k : ℕ) (r : Progress P × Attempt A)
      → Spent P n k Q r
      → ((a : A) → Q a → R a)
      → Spent P n k R r
  Spent-weaken n k (s, gave a) h g = (h.0, g a h.1)
  Spent-weaken n k (s, stopped e) h g = h

  pub costs_weaken :
      {A : Type 0} {Q R : A → Type 0} {k : ℕ} {m : Gen P A}
      → Costs P k m Q
      → ((a : A) → Q a → R a)
      → Costs P k m R
  costs_weaken {k} {m} h g = record { spent = λ s. Spent-weaken s.calls k (m s) (h.spent s) g }

  pub costs_attempt :
      {A : Type 0} {Q : A → Type 0} (r : Attempt A)
      → ((a : A) → r ≡ gave a → Q a)
      → Costs P 0 (attempt {P = P} r) Q
  unfolding attempt
  costs_attempt (gave a) g = record { spent = λ s. (omega arith, g a refl) }
  costs_attempt (stopped e) g = record { spent = λ s. omega arith }

  pub Spent-outcome :
      {A : Type 0} (s : Progress P) (n k : ℕ) (r : Attempt A)
      → s.calls ≡ n + k
      → Spent P n k (λ a. Unit {0}) (s, r)
  Spent-outcome s n k (gave a) h = (h, tt)
  Spent-outcome s n k (stopped e) h = omega (arith, h)

  pub costs_unless_expired : Costs P 0 (unless_expired {P = P}) (λ a. Unit {0})
  unfolding unless_expired
  costs_unless_expired = record {
    spent = λ s.
        Spent-outcome (unless_expired {P = P} s).0 s.calls 0 (unless_expired {P = P} s).1
          (omega arith);
  }

  costs_form_messages :
      (S : SensitiveValues) (profile : Profile) (payload : P.Payload) (shape : RequestedShape)
      → Costs P 0 (form_messages {P = P} S profile payload shape) (λ a. Unit {0})
  unfolding form_messages
  costs_form_messages S profile payload shape = record {
    spent = λ s.
        Spent-outcome (form_messages {P = P} S profile payload shape s).0 s.calls 0
          (form_messages {P = P} S profile payload shape s).1 (omega arith);
  }

  costs_chat_once :
      (q : ChatRequest P.Messages P.History) → Costs P 1 (chat_once {P = P} q) (λ a. Unit {0})
  unfolding chat_once
  costs_chat_once q = record {
    spent = λ s.
        Spent-outcome (chat_once {P = P} q s).0 s.calls 1 (chat_once {P = P} q s).1 (omega arith);
  }

  costs_keep_selected :
      (profile : Profile) (h : Option P.History) (r : Response)
      → Costs P 0 (keep_selected {P = P} profile h r) (λ a. Unit {0})
  unfolding keep_selected
  costs_keep_selected profile none r = record { spent = λ s. (omega arith, tt) }
  costs_keep_selected profile (some h) r = record {
    spent = λ s.
        Spent-outcome (keep_selected {P = P} profile (some h) r s).0 s.calls 0
          (keep_selected {P = P} profile (some h) r s).1 (omega arith);
  }

  costs_note_response : (r : Response) → Costs P 0 (note_response {P = P} r) (λ a. Unit {0})
  unfolding note_response
  costs_note_response r = record { spent = λ s. (omega arith, tt) }

  pub costs_invoke :
      {A : Type 0} (S : SensitiveValues) (profile : Profile) (payload : P.Payload)
      (shape : RequestedShape) (decode : Str → Option A)
      → Costs P 1 (invoke {P = P} S profile payload shape decode) (λ a. Unit {0})
  unfolding invoke
  costs_invoke S profile payload shape decode = costs_bind 0 1 costs_unless_expired λ _ _.
      costs_bind 0 1 (costs_form_messages S profile payload shape) λ m _.
        costs_bind 0 1 (costs_attempt (history_of P profile m) (λ _ _. tt)) λ h _.
          costs_bind 1 0 (costs_chat_once _) λ r _.
            costs_bind 0 0 (costs_keep_selected profile h r) λ _ _.
              costs_bind 0 0 (costs_note_response r) λ _ _.
                costs_bind 0 0 costs_unless_expired
                  λ _ _. costs_attempt (accept_content P.tokens S decode r) (λ _ _. tt)
