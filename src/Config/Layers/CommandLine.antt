-- ===== src/Config/Layers/CommandLine.antt =====
-- internal/config/config.go: `applyCLI` puts a layer on top.
use commiter_cli.Base.{
  Bool, true, false, List, [], ◌∷◌, ◌++◌, Option, none, some, if◌then◌else◌, ◌≡◌, refl, ap, sym,
  ◌∙◌, is_nil,
}
use commiter_cli.Base.Dict.{insert}
use commiter_cli.Base.Result.{ok, err, >>=-ok, ok-injective}
use commiter_cli.Base.Str.{Str, lit, str_eq}
use commiter_cli.Config.Values.{
  source_cli, Values, Value, string_value, boolean_value, Entry, Effective, entries,
  pinned_planner_revision, planner_model_quantization,
}
use commiter_cli.Config.Apply.{with_source, CliOverrides, override, override_model, apply_cli}
use commiter_cli.Config.Layers.{overlay}

-- The entry of one option that was given.
abbrev pub given {ℓ} : {A : Type ℓ} → Option A → Str → (A → Value) → List (Str × Entry)
given none key value = []
given (some a) key value = (key, record { value = value a; source = source_cli }) ∷ []

-- A model brings its pinned revision and its quantization.
abbrev pub given_model : Option Str → List (Str × Entry)
given_model none = []
given_model (some model) =
    given (some model) (lit "llm.model") string_value
    ++ given (some (pinned_planner_revision model)) (lit "llm.model_revision") string_value
    ++ given (some planner_model_quantization) (lit "llm.model_quantization") string_value

abbrev pub cli_settings : CliOverrides → List (Str × Entry)
cli_settings cli =
    given cli.language (lit "commit.language") string_value
    ++ given cli.commit_confirm (lit "commit.confirm") boolean_value
    ++ given cli.push_enabled (lit "push.enabled") boolean_value
    ++ given cli.push_confirm (lit "push.confirm") boolean_value
    ++ given_model cli.model
    ++ given cli.metrics_persist (lit "metrics.persist") boolean_value

-- A configuration that has the layer on top of the one below.
record OnTop (layer below top : List (Str × Entry)) : Type 0 where
  same : top ≡ overlay layer below

overlay-append :
    (xs ys below : List (Str × Entry)) → overlay (xs ++ ys) below ≡ overlay ys (overlay xs below)
overlay-append [] ys below = refl
overlay-append ((k, x) ∷ xs) ys below = overlay-append xs ys (insert below k x)

-- An option changes the entry of its key, if the write does.
module _ {A : Type 0} (key : Str) (value : A → Value) (write : A → Values → Values) where
  Overrides : Type 0
  Overrides =
      (e : Effective) (a : A)
      → entries
          (record { values = write a e.values; sources = with_source e.sources key source_cli })
        ≡ insert (entries e) key (record { value = value a; source = source_cli })

  override-given :
      Overrides
      → (o : Option A) (e : Effective)
      → OnTop (given o key value) (entries e) (entries (override o key write e))
  unfolding override Overrides
  override-given w none e = record { same = refl }
  override-given w (some a) e = record { same = w e a }

override_model-given :
    (o : Option Str) (e e' : Effective)
    → override_model o e ≡ ok e'
    → OnTop (given_model o) (entries e) (entries e')
unfolding override_model override entries str_eq
override_model-given none e e' h = record { same = ap entries (sym (ok-injective _ _ h)) }
override_model-given (some model) e e' h = record {
  same = go (is_nil (pinned_planner_revision model)) h;
}
  where
    go :
        (b : Bool)
        → (if b
            then err (lit "--model requires a supported pinned model")
            else ok (
                override
                  (some planner_model_quantization)
                  (lit "llm.model_quantization")
                  (λ s v. record v { model_quantization = s })
                  (override
                    (some (pinned_planner_revision model))
                    (lit "llm.model_revision")
                    (λ s v. record v { model_revision = s })
                    (override (some model) (lit "llm.model") (λ s v. record v { model = s }) e))))
          ≡ ok e'
        → entries e' ≡ overlay (given_model (some model)) (entries e)
    go true q = cc
    go false q = ap entries (sym (ok-injective _ _ q)) ∙ refl

language-given :
    (o : Option Str) (e : Effective)
    → OnTop
        (given o (lit "commit.language") string_value)
        (entries e)
        (entries (override o (lit "commit.language") (λ s v. record v { language = s }) e))
unfolding Overrides entries str_eq
language-given =
    override-given (lit "commit.language") string_value (λ s v. record v { language = s })
      (λ e a. refl)

commit_confirm-given :
    (o : Option Bool) (e : Effective)
    → OnTop
        (given o (lit "commit.confirm") boolean_value)
        (entries e)
        (entries (override o (lit "commit.confirm") (λ b v. record v { commit_confirm = b }) e))
unfolding Overrides entries str_eq
commit_confirm-given =
    override-given (lit "commit.confirm") boolean_value (λ b v. record v { commit_confirm = b })
      (λ e a. refl)

push_enabled-given :
    (o : Option Bool) (e : Effective)
    → OnTop
        (given o (lit "push.enabled") boolean_value)
        (entries e)
        (entries (override o (lit "push.enabled") (λ b v. record v { push_enabled = b }) e))
unfolding Overrides entries str_eq
push_enabled-given =
    override-given (lit "push.enabled") boolean_value (λ b v. record v { push_enabled = b })
      (λ e a. refl)

push_confirm-given :
    (o : Option Bool) (e : Effective)
    → OnTop
        (given o (lit "push.confirm") boolean_value)
        (entries e)
        (entries (override o (lit "push.confirm") (λ b v. record v { push_confirm = b }) e))
unfolding Overrides entries str_eq
push_confirm-given =
    override-given (lit "push.confirm") boolean_value (λ b v. record v { push_confirm = b })
      (λ e a. refl)

metrics_persist-given :
    (o : Option Bool) (e : Effective)
    → OnTop
        (given o (lit "metrics.persist") boolean_value)
        (entries e)
        (entries (override o (lit "metrics.persist") (λ b v. record v { metrics_persist = b }) e))
unfolding Overrides entries str_eq
metrics_persist-given =
    override-given (lit "metrics.persist") boolean_value (λ b v. record v { metrics_persist = b })
      (λ e a. refl)

last_option :
    (o : Option Bool) (e e' : Effective)
    → override o (lit "metrics.persist") (λ b v. record v { metrics_persist = b }) e ≡ e'
    → OnTop (given o (lit "metrics.persist") boolean_value) (entries e) (entries e')
last_option o e e' h = record { same = ap entries (sym h) ∙ (metrics_persist-given o e).same }

stack :
    {xs ys below middle top : List (Str × Entry)}
    → OnTop xs below middle
    → OnTop ys middle top
    → OnTop (xs ++ ys) below top
stack {xs} {ys} {below} p q = record {
  same = q.same ∙ ap (overlay ys) p.same ∙ sym (overlay-append xs ys below);
}

-- The overrides of the command line are a layer.
pub apply_cli-overlay :
    (e e' : Effective) (cli : CliOverrides)
    → apply_cli e cli ≡ ok e'
    → entries e' ≡ overlay (cli_settings cli) (entries e)
unfolding apply_cli
apply_cli-overlay e e' cli h =
    let e1 = override cli.language (lit "commit.language") (λ s v. record v { language = s }) e in
    let e2 =
      override cli.commit_confirm (lit "commit.confirm") (λ b v. record v { commit_confirm = b })
        e1 in
    let e3 =
      override cli.push_enabled (lit "push.enabled") (λ b v. record v { push_enabled = b }) e2 in
    let e4 =
      override cli.push_confirm (lit "push.confirm") (λ b v. record v { push_confirm = b }) e3 in
    let (e5, h5, h6) =
      >>=-ok (override_model cli.model e4)
        (λ e5. ok (
          override cli.metrics_persist (lit "metrics.persist")
            (λ b v. record v { metrics_persist = b }) e5))
        e' h in
    OnTop.same (
      stack
        (stack
          (stack
            (stack
              (stack (language-given cli.language e) (commit_confirm-given cli.commit_confirm e1))
              (push_enabled-given cli.push_enabled e2))
            (push_confirm-given cli.push_confirm e3))
          (override_model-given cli.model e4 e5 h5))
        (last_option cli.metrics_persist e5 e' (ok-injective _ _ h6)))
