-- ===== src/Config/Toml.antt =====
-- internal/config/config.go: what a decoded TOML file holds, and how values are read from it. An
-- error stands without the key that its message quotes.
use commiter_cli.Base.{
  Bool, true, false, not, ◌&&◌, ◌||◌, List, [], ◌∷◌, ◌++◌, Option, none, some, if◌then◌else◌, ◌==◌,
  is_nil,
}
use commiter_cli.Base.Dict.{insert}
use commiter_cli.Base.Int.{ℤ}
use commiter_cli.Base.Result.{Result, ok, err, ◌>>=◌}
use commiter_cli.Base.Str.{Str, lit, str_eq, has_prefix}
use commiter_cli.Config.Values.{VerificationCommand, SchemaEntry, schema}

-- A value of type `any`: the last kind is a float or a date.
mutual
  pub data Toml : Type 0 where
    integer : ℤ → Toml
    string : Str → Toml
    boolean : Bool → Toml
    array : Items → Toml
    table : Table → Toml
    other : Toml

  pub data Items : Type 0 where
    no_items : Items
    item : Toml → Items → Items

  pub data Table : Type 0 where
    no_fields : Table
    field : Str → Toml → Table → Table

abbrev pub Flat : Type 0
Flat = List (Str × Toml)

abbrev pub unknown_key : Str
unknown_key = lit "unknown configuration key"

any_key : Str → List (Str × SchemaEntry) → Bool
any_key prefix [] = false
any_key prefix ((key, entry) ∷ rest) = has_prefix key prefix || any_key prefix rest

-- `isSchemaTable`
unfoldable pub is_schema_table : Str → Bool
unfolding any_key
is_schema_table path = any_key (path ++ lit ".") schema

-- `flatten`, over the fields in the order of the file; the source takes them in any order.
unfoldable mutual
  unfolding is_schema_table

  pub flatten : Str → Table → Flat → Result Flat
  flatten prefix no_fields flat = ok flat
  flatten prefix (field key value rest) flat =
      flatten_value (if is_nil prefix then key else prefix ++ lit "." ++ key) value flat
      >>= flatten prefix rest

  pub flatten_value : Str → Toml → Flat → Result Flat
  flatten_value path (table t) flat =
      let nested = flatten path t flat in
      if path == lit "verification.commands" || path == lit "llm.endpoint"
      then ok (insert flat path (table t))
      else if is_schema_table path
      then nested
      else err unknown_key
  flatten_value path (integer n) flat = ok (insert flat path (integer n))
  flatten_value path (string s) flat = ok (insert flat path (string s))
  flatten_value path (boolean b) flat = ok (insert flat path (boolean b))
  flatten_value path (array xs) flat = ok (insert flat path (array xs))
  flatten_value path other flat = ok (insert flat path other)

-- `integer`: an int has 64 bits, so the conversion keeps the value.
abbrev pub as_integer : Toml → Option ℤ
as_integer (integer n) = some n
as_integer _ = none

abbrev pub as_string : Toml → Option Str
as_string (string s) = some s
as_string _ = none

abbrev pub as_boolean : Toml → Option Bool
as_boolean (boolean b) = some b
as_boolean _ = none

strings : Items → Option (List Str)
strings no_items = some []
strings (item (string s) xs) = elim (strings xs) [ none ↦ none | some ss ↦ some (s ∷ ss) ]
strings (item _ xs) = none

-- `stringArray`
unfoldable pub string_array : Toml → Option (List Str)
unfolding strings
string_array (array xs) = strings xs
string_array _ = none

tables : Items → Result (List Table)
tables no_items = ok []
tables (item (table t) xs) = tables xs >>= λ ts. ok (t ∷ ts)
tables (item _ xs) = err (lit "must contain tables")

tables_of : Toml → Result (List Table)
unfolding tables
tables_of (array xs) = tables xs
tables_of _ = err (lit "must be an array of tables")

get : Table → Str → Option Toml
get no_fields key = none
get (field k v rest) key = if k == key then some v else get rest key

known_fields : Table → Bool
known_fields no_fields = true
known_fields (field k v rest) =
    (k == lit "name" || k == lit "argv" || k == lit "cwd") && known_fields rest

abbrev field_with {ℓ} : {A : Type ℓ} → Option Toml → (Toml → Option A) → Option A
field_with none read = none
field_with (some v) read = read v

requires : Result VerificationCommand
requires = err (lit "requires non-empty name, argv, and cwd")

-- One table: its fields are known, and none of them is empty.
unfoldable pub parse_command : Table → Result VerificationCommand
unfolding get known_fields string_array requires
parse_command t =
    if not (known_fields t)
    then err (lit "contains unknown field")
    else elim (field_with (get t (lit "name")) as_string) [
      | none ↦ requires
      | some name ↦ elim (field_with (get t (lit "argv")) string_array) [
        | none ↦ requires
        | some argv ↦ elim (field_with (get t (lit "cwd")) as_string) [
          | none ↦ requires
          | some cwd ↦
              if name == [] || is_nil argv || cwd == []
              then requires
              else ok (record { name = name; argv = argv; cwd = cwd })
        ]
      ]
    ]

parse_tables : List Table → Result (List VerificationCommand)
unfolding parse_command
parse_tables [] = ok []
parse_tables (t ∷ ts) = parse_command t >>= λ c. parse_tables ts >>= λ cs. ok (c ∷ cs)

-- `parseCommands`
unfoldable pub parse_commands : Toml → Result (List VerificationCommand)
unfolding tables_of parse_tables
parse_commands raw = tables_of raw >>= λ ts.
    if is_nil ts then err (lit "must contain at least one command") else parse_tables ts
