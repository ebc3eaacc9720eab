-- ===== src/Config/Layers.antt =====
-- internal/config/config.go: a configuration as layers, each a list of settings on top of the one
-- before it, and what a single setting writes.
pub mod Settings
pub mod CommandLine
pub mod Precedence
pub mod Guarded
use commiter_cli.Base.{
  Bool, true, false, not, List, [], ◌∷◌, ◌++◌, Option, none, some, if◌then◌else◌, ◌==◌, ==_iff, ◌≡◌,
  refl, ap, sym, ◌∙◌, Bool-cases, inl, inr,
}
use commiter_cli.Base.Dict.{lookup, insert, lookup-insert}
use commiter_cli.Base.Int.{ℤ}
use commiter_cli.Base.Result.{Result, ok, err, ◌>>=◌, >>=-ok, ok-injective}
use commiter_cli.Base.Str.{Str, lit, str_eq}
use commiter_cli.Config.Values.{
  Source, Values, VerificationCommand, Value, integer_value, string_value, boolean_value,
  strings_value, commands_value, Entry, Effective, Kind, integer_kind, string_kind, boolean_kind,
  string_array_kind, commands_kind, SchemaEntry, schema, entries,
}
use commiter_cli.Config.Toml.{Toml, as_integer, as_string, as_boolean, string_array, parse_commands}
use commiter_cli.Config.Apply.{
  with_source, set_integer, set_string, set_boolean, set_strings, typed, apply_value, apply_kind,
  apply_commands, allows, apply_setting,
}
use mathlib.Core.Path.{subst}

-- The settings of a layer, on top of those below it.
abbrev pub overlay : List (Str × Entry) → List (Str × Entry) → List (Str × Entry)
overlay [] below = below
overlay ((k, x) ∷ layer) below = overlay layer (insert below k x)

-- What a value of the file says, by its kind.
abbrev pub decoded : Kind → Toml → Option Value
decoded integer_kind raw = elim (as_integer raw) [ none ↦ none | some n ↦ some (integer_value n) ]
decoded string_kind raw = elim (as_string raw) [ none ↦ none | some s ↦ some (string_value s) ]
decoded boolean_kind raw = elim (as_boolean raw) [ none ↦ none | some b ↦ some (boolean_value b) ]
decoded string_array_kind raw = elim (string_array raw) [
  | none ↦ none
  | some ss ↦ some (strings_value ss)
]
decoded commands_kind raw = elim (parse_commands raw) [
  | err m ↦ none
  | ok cs ↦ some (commands_value cs)
]

-- Writing a value of the key writes that entry and no other.
unfoldable pub Writes : Str → Kind → Type 0
Writes key kind =
    (e e' : Effective) (raw : Toml) (s : Source)
    → apply_value e key kind raw s ≡ ok e'
    → (v : Value) × (decoded kind raw ≡ some v)
      × (entries e' ≡ insert (entries e) key (record { value = v; source = s }))

typed-ok :
    {A : Type 0} (o : Option A) (write : A → Values) (sources : Str → Source) (e : Effective)
    → typed o write sources ≡ ok e
    → (a : A) × (o ≡ some a) × (record { values = write a; sources = sources } ≡ e)
unfolding typed
typed-ok none write sources e h = cc
typed-ok (some a) write sources e h = (a, refl, ok-injective _ _ h)

-- A kind writes an entry when its setter does.
module _ {A : Type 0} (read : Toml → Option A) (value : A → Value)
    (set : Str → A → Values → Values) where
  unfoldable pub Fits : Str → Type 0
  Fits key =
      (e : Effective) (a : A) (s : Source)
      → entries (record { values = set key a e.values; sources = with_source e.sources key s })
        ≡ insert (entries e) key (record { value = value a; source = s })

  typed-writes :
      (key : Str) (fits : Fits key) (e e' : Effective) (raw : Toml) (s : Source)
      → typed (read raw) (λ a. set key a e.values) (with_source e.sources key s) ≡ ok e'
      → (v : Value) × (elim (read raw) [ none ↦ none | some a ↦ some (value a) ] ≡ some v)
        × (entries e' ≡ insert (entries e) key (record { value = v; source = s }))
  unfolding Fits
  typed-writes key fits e e' raw s h =
      let (a, r, q) =
        typed-ok (read raw) (λ a. set key a e.values) (with_source e.sources key s) e' h in
      (
        value a,
        ap (λ o. elim o [ none ↦ none | some a ↦ some (value a) ]) r,
        sym (ap entries q) ∙ fits e a s,
      )

-- A key of a kind that its setter fits.
module _ (key : Str) (plain : (key == lit "verification.commands") ≡ false) where
  by_kind :
      (e : Effective) (kind : Kind) (raw : Toml) (s : Source)
      → apply_value e key kind raw s ≡ apply_kind e key kind raw s
  unfolding apply_value apply_kind
  by_kind e kind raw s = rw plain refl

  pub integer-Writes : Fits as_integer integer_value set_integer key → Writes key integer_kind
  unfolding Writes apply_kind
  integer-Writes fits e e' raw s h =
      typed-writes as_integer integer_value set_integer key fits e e' raw s
        (sym (by_kind e integer_kind raw s) ∙ h)

  pub string-Writes : Fits as_string string_value set_string key → Writes key string_kind
  unfolding Writes apply_kind
  string-Writes fits e e' raw s h =
      typed-writes as_string string_value set_string key fits e e' raw s
        (sym (by_kind e string_kind raw s) ∙ h)

  pub boolean-Writes : Fits as_boolean boolean_value set_boolean key → Writes key boolean_kind
  unfolding Writes apply_kind
  boolean-Writes fits e e' raw s h =
      typed-writes as_boolean boolean_value set_boolean key fits e e' raw s
        (sym (by_kind e boolean_kind raw s) ∙ h)

  pub strings-Writes :
      Fits string_array strings_value set_strings key → Writes key string_array_kind
  unfolding Writes apply_kind
  strings-Writes fits e e' raw s h =
      typed-writes string_array strings_value set_strings key fits e e' raw s
        (sym (by_kind e string_array_kind raw s) ∙ h)
