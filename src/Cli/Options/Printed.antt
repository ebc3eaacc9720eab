-- ===== src/Cli/Options/Printed.antt =====
-- internal/cli/cli.go: arguments for options, and what `parse` makes of them.
use commiter_cli.Base.{
  ◌≡◌, refl, ap, sym, ◌∙◌, Bool, true, false, List, [], ◌∷◌, ◌++◌, Option, none, some,
}
use commiter_cli.Base.Result.{ok}
use commiter_cli.Base.Str.{Str, lit, str_eq, has_prefix, trim_prefix}
use commiter_cli.Cli.Options.{Flags, no_flags, argument, sets, set_language, set_model, parse}

-- The arguments of a switch and of an option with a value.
abbrev pub switch : Bool → Str → List Str
switch true name = name ∷ []
switch false name = []

abbrev pub valued : Option Str → Str → List Str
valued none name = []
valued (some value) name = (name ++ value) ∷ []

-- The arguments that ask for options with no command: each option once, then the path specs.
unfoldable pub arguments : Flags → List Str
arguments o =
    switch o.help (lit "--help")
    ++ (switch o.json (lit "--json")
        ++ (switch o.dry_run (lit "--dry-run")
            ++ (switch o.no_push (lit "--no-push")
                ++ (switch o.no_confirm_commit (lit "--no-confirm-commit")
                    ++ (switch o.no_confirm_push (lit "--no-confirm-push")
                        ++ (switch o.record_metrics (lit "--record-metrics")
                            ++ (valued o.language (lit "--language=")
                                ++ (valued o.model (lit "--model=")
                                    ++ (lit "--" ∷ o.pathspecs)))))))))

-- An argument that sets an option is parsed away.
parse-sets :
    (o : Flags) (arg : Str) (rest : List Str) (f : Flags → Flags)
    → argument arg ≡ sets f
    → parse o (arg ∷ rest) ≡ parse (f o) rest
unfolding parse
parse-sets o arg [] f e = rw (e, parse)
parse-sets o arg (next ∷ rest) f e = rw (e, parse)

-- The arguments of a switch turn an option on that was off, if they are there.
parse-switch :
    (s : Bool → Flags) (b : Bool) (name : Str) (rest : List Str) (f : Flags → Flags)
    → argument name ≡ sets f
    → f (s false) ≡ s true
    → parse (s false) (switch b name ++ rest) ≡ parse (s b) rest
parse-switch s false name rest f e turned = refl
parse-switch s true name rest f e turned =
    parse-sets (s false) name rest f e ∙ ap (λ o. parse o rest) turned

parse-valued :
    (s : Option Str → Flags) (v : Option Str) (name : Str) (rest : List Str)
    (f : Str → Flags → Flags)
    → ((value : Str) → argument (name ++ value) ≡ sets (f value))
    → ((value : Str) → f value (s none) ≡ s (some value))
    → parse (s none) (valued v name ++ rest) ≡ parse (s v) rest
parse-valued s none name rest f e turned = refl
parse-valued s (some value) name rest f e turned =
    parse-sets (s none) (name ++ value) rest (f value) (e value)
    ∙ ap (λ o. parse o rest) (turned value)

parse-separator :
    (o : Flags) (paths : List Str)
    → parse (record o { pathspecs = [] }) (lit "--" ∷ paths) ≡ ok (record o { pathspecs = paths })
unfolding parse argument str_eq
parse-separator o [] = refl
parse-separator o (p ∷ paths) = refl

abbrev chosen : Bool → Bool → Bool → Bool → Bool → Bool → Bool → Option Str → Option Str → Flags
chosen help json dry push commit confirm metrics language model = record {
  json = json;
  dry_run = dry;
  no_push = push;
  no_confirm_commit = commit;
  no_confirm_push = confirm;
  record_metrics = metrics;
  language = language;
  model = model;
  command = [];
  args = [];
  pathspecs = [];
  help = help;
}

-- Options with no command are what `parse` makes of their arguments, whatever their values and path
-- specs are, such as ones that begin with a dash.
pub parse-arguments :
    (o : Flags) → o.command ≡ [] → o.args ≡ [] → parse no_flags (arguments o) ≡ ok o
unfolding arguments argument str_eq has_prefix trim_prefix
parse-arguments o c a =
    let F = false in
    parse-switch (λ b. chosen b F F F F F F none none) o.help _ _ _ refl refl
    ∙ parse-switch (λ b. chosen o.help b F F F F F none none) o.json _ _ _ refl refl
    ∙ parse-switch (λ b. chosen o.help o.json b F F F F none none) o.dry_run _ _ _ refl refl
    ∙ parse-switch (λ b. chosen o.help o.json o.dry_run b F F F none none) o.no_push _ _ _ refl refl
    ∙ parse-switch (λ b. chosen o.help o.json o.dry_run o.no_push b F F none none)
        o.no_confirm_commit _ _ _ refl refl
    ∙ parse-switch (λ b. chosen o.help o.json o.dry_run o.no_push o.no_confirm_commit b F none none)
        o.no_confirm_push _ _ _ refl refl
    ∙ parse-switch
        (λ b.
          chosen o.help o.json o.dry_run o.no_push o.no_confirm_commit o.no_confirm_push b none
            none)
        o.record_metrics _ _ _ refl refl
    ∙ parse-valued
        (λ l.
          chosen o.help o.json o.dry_run o.no_push o.no_confirm_commit o.no_confirm_push
            o.record_metrics l none)
        o.language (lit "--language=") _ set_language (λ value. refl) (λ value. refl)
    ∙ parse-valued
        (λ m.
          chosen o.help o.json o.dry_run o.no_push o.no_confirm_commit o.no_confirm_push
            o.record_metrics o.language m)
        o.model (lit "--model=") _ set_model (λ value. refl) (λ value. refl)
    ∙ parse-separator (record o { command = []; args = [] }) o.pathspecs
    ∙ λ i. ok (record o { command = sym c i; args = sym a i })
