-- ===== src/Verification/Runner/Stops.antt =====
-- internal/verification/runner.go: the commands run in order, up to the first that fails.
use commiter_cli.Base.{
  Bool, true, false, List, [], ◌∷◌, Option, none, some, ◌≡◌, refl, ap, sym, ◌∙◌,
}
use mathlib.Core.Path.{subst}
use mathlib.Core.Option.{some-injective}
use commiter_cli.Base.Result.{Result, ok, err}
use commiter_cli.Base.Str.{Str}
use commiter_cli.Verification.Definition.{Command}
use commiter_cli.Verification.State.{RepositoryState}
use commiter_cli.Verification.Runner.{
  run_failed, RunError, of_command, CommandResult, Processes, reported, round_error, round,
  add_result, run_commands, after_run, prepend,
}

module _ (P : Processes) where
  -- A command that passed: the repository could be read before and behind it, and its process succeeded.
  -- Its result has its name, its output, and the paths that changed.
  pub record Passed (c : Command) (w w' : P.World) (r : CommandResult) : Type 0 where
    pub before : RepositoryState
    pub after : RepositoryState
    pub readable : P.capture w ≡ ok before
    pub still_readable : P.capture w' ≡ ok after
    pub output : Str
    pub succeeded : P.run w c ≡ (w', output, true)
    pub result :
        r ≡ record { name = c.name; output = output; changed_paths = reported P before (ok after) }

  -- The commands passed one after the other, each in the world that the one before it left.
  pub data AllPassed : P.World → List Command → P.World → List CommandResult → Type 0 where
    done : {w : P.World} → AllPassed w [] w []
    next :
        {w w' w'' : P.World} {c : Command} {cs : List Command} {r : CommandResult}
        {rs : List CommandResult}
        → Passed c w w' r
        → AllPassed w' cs w'' rs
        → AllPassed w (c ∷ cs) w'' (r ∷ rs)

  -- The commands passed up to one whose round failed, and none ran behind it.
  pub data StoppedAt
      : P.World → List Command → P.World → List CommandResult → RunError → Type 0 where
    here :
        {w w' : P.World} {c : Command} {cs : List Command} {o : Option CommandResult}
        {rs : List CommandResult} {e : RunError}
        → round P w c ≡ (w', o, some e)
        → rs ≡ add_result P o []
        → StoppedAt w (c ∷ cs) w' rs e
    later :
        {w w' w'' : P.World} {c : Command} {cs : List Command} {r : CommandResult}
        {rs : List CommandResult} {e : RunError}
        → Passed c w w' r
        → StoppedAt w' cs w'' rs e
        → StoppedAt w (c ∷ cs) w'' (r ∷ rs) e

  round_error-none :
      (c : Command) (b : Bool) (after : Result RepositoryState) (w : P.World)
      → round_error P c b after w ≡ none
      → (b ≡ true) × (s : RepositoryState) × (after ≡ ok s)
  unfolding round_error
  round_error-none c false after w h = cc
  round_error-none c true (err m) w h = cc
  round_error-none c true (ok s) w h = (refl, s, refl)

  after_run-none :
      (w : P.World) (c : Command) (before : RepositoryState) (t : P.World × Str × Bool)
      → P.capture w ≡ ok before
      → P.run w c ≡ t
      → (after_run P c before t).2 ≡ none
      → (r : CommandResult) × ((after_run P c before t).1 ≡ some r) × Passed c w t.0 r
  unfolding after_run
  after_run-none w c before (w', text, b) e e' h =
      let (p, after, q) = round_error-none c b (P.capture w') w' h in
      (
        _,
        refl,
        record {
          before = before;
          after = after;
          readable = e;
          still_readable = q;
          output = text;
          succeeded = e' ∙ ap (λ x. (w', text, x)) p;
          result =
              ap (λ x. record { name = c.name; output = text; changed_paths = reported P before x })
                q;
        },
      )

  round-none :
      (w : P.World) (c : Command)
      → (round P w c).2 ≡ none
      → (r : CommandResult) × ((round P w c).1 ≡ some r) × Passed c w (round P w c).0 r
  unfolding round
  round-none w c h = go (P.capture w) refl h
    where
      body : Result RepositoryState → P.World × Option CommandResult × Option RunError
      body r = elim r [
        | err m ↦ (w, none, some (of_command run_failed c.name))
        | ok before ↦ after_run P c before (P.run w c)
      ]

      go :
          (r : Result RepositoryState)
          → P.capture w ≡ r
          → (body r).2 ≡ none
          → (q : CommandResult) × ((body r).1 ≡ some q) × Passed c w (body r).0 q
      go (err m) e h = cc
      go (ok before) e h = after_run-none w c before (P.run w c) e refl h

  -- How a run of the commands ended.
  pub Ended : P.World → List Command → P.World × List CommandResult × Option RunError → Type 0
  Ended w cs (w', rs, none) = AllPassed w cs w' rs
  Ended w cs (w', rs, some e) = StoppedAt w cs w' rs e

  Ended-prepend :
      (w w' : P.World) (c : Command) (cs : List Command) (o : Option CommandResult)
      (r : CommandResult) (t : P.World × List CommandResult × Option RunError)
      → o ≡ some r
      → Passed c w w' r
      → Ended w' cs t
      → Ended w (c ∷ cs) (prepend P o t)
  unfolding Ended prepend add_result
  Ended-prepend w w' c cs none r t h p q = cc
  Ended-prepend w w' c cs (some s) r (w'', rs, none) h p q =
      next (subst (Passed c w w') (sym (some-injective _ _ h)) p) q
  Ended-prepend w w' c cs (some s) r (w'', rs, some e) h p q =
      later (subst (Passed c w w') (sym (some-injective _ _ h)) p) q

  -- The commands run in their order. Without an error each of them passed, in the world that the one
  -- before it left, and there is one result for each; with an error some of them passed, then the
  -- round of the next one failed with that error, and the commands behind it did not run.
  pub run_commands-Ended : (w : P.World) (cs : List Command) → Ended w cs (run_commands P w cs)
  unfolding run_commands Ended
  run_commands-Ended w [] = done
  run_commands-Ended w (c ∷ cs) =
      go (round P w c) refl (round-none w c) (λ w'. run_commands-Ended w' cs)
    where
      go :
          (t : P.World × Option CommandResult × Option RunError)
          → round P w c ≡ t
          → ((round P w c).2 ≡ none
              → (r : CommandResult) × ((round P w c).1 ≡ some r) × Passed c w (round P w c).0 r)
          → ((w' : P.World) → Ended w' cs (run_commands P w' cs))
          → Ended w (c ∷ cs) (elim t.2 [
            | some e ↦ (t.0, add_result P t.1 [], some e)
            | none ↦ prepend P t.1 (run_commands P t.0 cs)
          ])
      go (w', o, some e) h passed rest = here h refl
      go (w', o, none) h passed rest =
          let (r, q, p) = passed (ap (λ t. t.2) h) in
          Ended-prepend w w' c cs o r (run_commands P w' cs) (sym (ap (λ t. t.1) h) ∙ q)
            (subst (λ x. Passed c w x r) (ap (λ t. t.0) h) p) (rest w')
