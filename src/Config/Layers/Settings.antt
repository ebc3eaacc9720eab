-- ===== src/Config/Layers/Settings.antt =====
-- internal/config/config.go: `applyFile` and `applyValue` write the entry of the key, and no other.
use commiter_cli.Base.{
  Bool, true, false, not, List, [], ◌∷◌, Option, none, some, if◌then◌else◌, ◌==◌, ==_iff, ◌≡◌, refl,
  ap, ap₂, sym, ◌∙◌,
}
use mathlib.Core.Path.{subst}
use mathlib.Core.Option.{some-injective}
use commiter_cli.Base.Dict.{lookup, insert}
use commiter_cli.Base.Result.{Result, ok, err, ◌>>=◌, >>=-ok, ok-injective}
use commiter_cli.Base.Str.{Str, lit, str_eq}
use commiter_cli.Config.Values.{
  Source, VerificationCommand, Value, commands_value, Entry, Effective, commands_kind, SchemaEntry,
  schema, entries,
}
use commiter_cli.Config.Toml.{Toml, Flat, parse_commands, unknown_key}
use commiter_cli.Config.Apply.{
  with_source, set_integer, set_string, set_boolean, set_strings, apply_value, apply_commands,
  allows, apply_setting, apply_settings,
}
use commiter_cli.Config.Layers.{
  overlay, decoded, Writes, Fits, integer-Writes, string-Writes, boolean-Writes, strings-Writes,
}

abbrev commands_key : Str
commands_key = lit "verification.commands"

commands_value-entries :
    (e : Effective) (cs : List VerificationCommand) (s : Source)
    → entries (record {
      values = record e.values { commands = cs; commands_set = true };
      sources = with_source e.sources commands_key s;
    })
      ≡ insert (entries e) commands_key (record { value = commands_value cs; source = s })
unfolding entries str_eq
commands_value-entries e cs s = refl

apply_commands-writes :
    (r : Result (List VerificationCommand)) (e e' : Effective) (s : Source)
    → (r >>= λ commands. ok (record {
      values = record e.values { commands = commands; commands_set = true };
      sources = with_source e.sources commands_key s;
    }))
      ≡ ok e'
    → (v : Value) × (elim r [ err m ↦ none | ok cs ↦ some (commands_value cs) ] ≡ some v)
      × (entries e' ≡ insert (entries e) commands_key (record { value = v; source = s }))
apply_commands-writes (err m) e e' s h = cc
apply_commands-writes (ok cs) e e' s h =
    (commands_value cs, refl, ap entries (sym (ok-injective _ _ h)) ∙ commands_value-entries e cs s)

commands-Writes : Writes commands_key commands_kind
unfolding Writes apply_value apply_commands str_eq
commands-Writes e e' raw s h = apply_commands-writes (parse_commands raw) e e' s h

data EachWrites : List (Str × SchemaEntry) → Type 0 where
  end : EachWrites []
  ◌◃◌ :
      {key : Str} {x : SchemaEntry} {rest : List (Str × SchemaEntry)}
      → Writes key x.kind
      → EachWrites rest
      → EachWrites ((key, x) ∷ rest)

infixr 5 ◌◃◌
schema-EachWrites : EachWrites schema
unfolding Fits entries set_integer set_string set_boolean set_strings str_eq
schema-EachWrites =
    integer-Writes (lit "schema_version") refl (λ e a s. refl)
    ◃ string-Writes (lit "commit.language") refl (λ e a s. refl)
    ◃ boolean-Writes (lit "commit.confirm") refl (λ e a s. refl)
    ◃ boolean-Writes (lit "push.enabled") refl (λ e a s. refl)
    ◃ boolean-Writes (lit "push.confirm") refl (λ e a s. refl)
    ◃ string-Writes (lit "llm.planner") refl (λ e a s. refl)
    ◃ string-Writes (lit "llm.model") refl (λ e a s. refl)
    ◃ string-Writes (lit "llm.backend") refl (λ e a s. refl)
    ◃ string-Writes (lit "llm.model_revision") refl (λ e a s. refl)
    ◃ string-Writes (lit "llm.model_quantization") refl (λ e a s. refl)
    ◃ string-Writes (lit "llm.context") refl (λ e a s. refl)
    ◃ integer-Writes (lit "llm.max_context_tokens") refl (λ e a s. refl)
    ◃ string-Writes (lit "analysis.untracked") refl (λ e a s. refl)
    ◃ strings-Writes (lit "analysis.include") refl (λ e a s. refl)
    ◃ strings-Writes (lit "analysis.exclude") refl (λ e a s. refl)
    ◃ boolean-Writes (lit "verification.autodetect") refl (λ e a s. refl)
    ◃ integer-Writes (lit "verification.timeout_seconds") refl (λ e a s. refl)
    ◃ commands-Writes
    ◃ boolean-Writes (lit "metrics.persist") refl (λ e a s. refl)
    ◃ strings-Writes (lit "safety.additional_sensitive_patterns") refl (λ e a s. refl)
    ◃ end

lookup-Writes :
    (m : List (Str × SchemaEntry)) (key : Str) (x : SchemaEntry)
    → EachWrites m
    → lookup m key ≡ some x
    → Writes key x.kind
lookup-Writes [] key x _ h = cc
lookup-Writes ((j, y) ∷ m) key x (w ◃ ws) h = go (j == key) refl (lookup-Writes m key x ws) h
  where
    go :
        (b : Bool)
        → (j == key) ≡ b
        → (lookup m key ≡ some x → Writes key x.kind)
        → (if b then some y else lookup m key) ≡ some x
        → Writes key x.kind
    go true e rest q =
        subst (λ z. Writes key z.kind) (some-injective _ _ q)
          (subst (λ k. Writes k y.kind) ((==_iff j key).0 e) w)
    go false e rest q = rest q

-- The entry that a setting of the file stands for: its key is known and may come from this file, and
-- its value has the right type.
unfoldable pub setting : Source → Str → Toml → Option Entry
setting s key raw = elim (lookup schema key) [
  | none ↦ none
  | some x ↦ if not (allows x.allowed s) then none else elim (decoded x.kind raw) [
    | none ↦ none
    | some v ↦ some (record { value = v; source = s })
  ]
]

unfoldable pub settings : Source → Flat → Option (List (Str × Entry))
unfolding setting
settings s [] = some []
settings s ((key, raw) ∷ rest) = elim (setting s key raw) [
  | none ↦ none
  | some x ↦ elim (settings s rest) [ none ↦ none | some xs ↦ some ((key, x) ∷ xs) ]
]

apply_setting-setting :
    (s : Source) (e e' : Effective) (key : Str) (raw : Toml)
    → apply_setting s e key raw ≡ ok e'
    → (x : Entry) × (setting s key raw ≡ some x) × (entries e' ≡ insert (entries e) key x)
unfolding apply_setting setting Writes
apply_setting-setting s e e' key raw h = go (lookup schema key) refl h
  where
    at : Option SchemaEntry → Result Effective
    at o = elim o [
      | none ↦ err unknown_key
      | some x ↦
          if not (allows x.allowed s)
          then err (lit "configuration key is not allowed")
          else apply_value e key x.kind raw s
    ]

    read : Option SchemaEntry → Option Entry
    read o = elim o [
      | none ↦ none
      | some x ↦ if not (allows x.allowed s) then none else elim (decoded x.kind raw) [
        | none ↦ none
        | some v ↦ some (record { value = v; source = s })
      ]
    ]

    by_test :
        (x : SchemaEntry) (w : Writes key x.kind) (b : Bool)
        → (if not b
            then err (lit "configuration key is not allowed")
            else apply_value e key x.kind raw s)
          ≡ ok e'
        → (y : Entry) × ((if not b then none else elim (decoded x.kind raw) [
          | none ↦ none
          | some v ↦ some (record { value = v; source = s })
        ])
            ≡ some y)
          × (entries e' ≡ insert (entries e) key y)
    by_test x w false q = cc
    by_test x w true q =
        let (v, d, r) = w e e' raw s q in
        (
          record { value = v; source = s },
          ap (λ o. elim o [ none ↦ none | some v ↦ some (record { value = v; source = s }) ]) d,
          r,
        )

    go :
        (o : Option SchemaEntry)
        → lookup schema key ≡ o
        → at o ≡ ok e'
        → (y : Entry) × (read o ≡ some y) × (entries e' ≡ insert (entries e) key y)
    go none q h = cc
    go (some x) q h =
        by_test x (lookup-Writes schema key x schema-EachWrites q) (allows x.allowed s) h

settings-cons :
    (s : Source) (key : Str) (raw : Toml) (rest : Flat) (x : Entry) (xs : List (Str × Entry))
    → setting s key raw ≡ some x
    → settings s rest ≡ some xs
    → settings s ((key, raw) ∷ rest) ≡ some ((key, x) ∷ xs)
unfolding settings
settings-cons s key raw rest x xs p q =
    ap₂
      (λ o r. elim o [
        | none ↦ none
        | some y ↦ elim r [ none ↦ none | some ys ↦ some ((key, y) ∷ ys) ]
      ])
      p q

-- The settings of a file are a layer.
pub apply_settings-overlay :
    (s : Source) (e e' : Effective) (flat : Flat)
    → apply_settings s e flat ≡ ok e'
    → (xs : List (Str × Entry)) × (settings s flat ≡ some xs)
      × (entries e' ≡ overlay xs (entries e))
unfolding apply_settings settings
apply_settings-overlay s e e' [] h = ([], refl, ap entries (sym (ok-injective _ _ h)))
apply_settings-overlay s e e' ((key, raw) ∷ rest) h =
    let (e1, h1, h2) = >>=-ok (apply_setting s e key raw) (λ e1. apply_settings s e1 rest) e' h in
    let (x, q, r) = apply_setting-setting s e e1 key raw h1 in
    let (xs, q', r') = apply_settings-overlay s e1 e' rest h2 in
    ((key, x) ∷ xs, settings-cons s key raw rest x xs q q', r' ∙ ap (overlay xs) r)
