-- ===== src/Config/Layers/Guarded.antt =====
-- internal/config/config.go: what the file of a repository cannot change.
use commiter_cli.Base.{
  Bool, false, not, List, [], ◌∷◌, Option, none, some, if◌then◌else◌, ◌==◌, ==_iff, ◌≡◌, refl, ap,
  sym, ◌∙◌, Bool-cases, inl, inr, take,
}
use mathlib.Core.Option.{some-injective}
use commiter_cli.Base.Dict.{lookup, insert, lookup-insert}
use commiter_cli.Base.FilePaths.{FilePaths}
use commiter_cli.Base.Result.{Result, ok, err}
use commiter_cli.Base.Str.{Str, str_eq}
use commiter_cli.Config.Values.{
  Source, source_repo, Entry, Effective, entries, defaults, SchemaEntry, schema,
}
use commiter_cli.Config.Toml.{Toml, Table, Flat, flatten}
use commiter_cli.Config.Apply.{
  File, absent, cannot_open, cannot_inspect, file, CliOverrides, allows, sort_settings,
}
use commiter_cli.Config.Resolve.{resolve_config}
use commiter_cli.Config.Layers.{overlay, decoded}
use commiter_cli.Config.Layers.Settings.{setting, settings}
use commiter_cli.Config.Layers.CommandLine.{cli_settings}
use commiter_cli.Config.Layers.Precedence.{file_settings, IsLayered, resolve_config-IsLayered}

-- A layer shows the same entry of a key on top of two that do.
lookup-overlay :
    (xs a b : List (Str × Entry)) (key : Str)
    → lookup a key ≡ lookup b key
    → lookup (overlay xs a) key ≡ lookup (overlay xs b) key
lookup-overlay [] a b key h = h
lookup-overlay ((k, x) ∷ xs) a b key h = lookup-overlay xs (insert a k x) (insert b k x) key (
    lookup-insert a k key x
    ∙ ap (λ o. if k == key then some x else o) h
    ∙ sym (lookup-insert b k key x))

module _ (key : Str) (x : SchemaEntry) (known : lookup schema key ≡ some x) (s : Source)
    (refused : allows x.allowed s ≡ false) where
  setting-none : (raw : Toml) → setting s key raw ≡ none
  unfolding setting
  setting-none raw =
      ap
        (λ o. elim o [
          | none ↦ none
          | some y ↦ if not (allows y.allowed s) then none else elim (decoded y.kind raw) [
            | none ↦ none
            | some v ↦ some (record { value = v; source = s })
          ]
        ])
        known
      ∙ ap
          (λ b. if not b then none else elim (decoded x.kind raw) [
            | none ↦ none
            | some v ↦ some (record { value = v; source = s })
          ])
          refused

  settings-untouched :
      (flat : Flat) (xs m : List (Str × Entry))
      → settings s flat ≡ some xs
      → lookup (overlay xs m) key ≡ lookup m key
  unfolding settings
  settings-untouched [] xs m h = ap (λ ys. lookup (overlay ys m) key) (sym (some-injective _ _ h))
  settings-untouched ((k, raw) ∷ rest) xs m h =
      go (setting s k raw) refl (settings s rest) refl (settings-untouched rest) h
    where
      other_key : (y : Entry) → setting s k raw ≡ some y → (k == key) ≡ false
      other_key y q = elim (Bool-cases (k == key)) [
        | inl e ↦
            absurd (
              cc
                (sym (setting-none raw) ∙ ap (λ j. setting s j raw) (sym ((==_iff k key).0 e)) ∙ q))
        | inr e ↦ e
      ]

      go :
          (o : Option Entry)
          → setting s k raw ≡ o
          → (r : Option (List (Str × Entry))) → settings s rest ≡ r
          → ((ys n : List (Str × Entry))
              → settings s rest ≡ some ys
              → lookup (overlay ys n) key ≡ lookup n key)
          → (elim o [
            | none ↦ none
            | some y ↦ elim r [ none ↦ none | some ys ↦ some ((k, y) ∷ ys) ]
          ])
            ≡ some xs
          → lookup (overlay xs m) key ≡ lookup m key
      go none e r e' rec q = cc
      go (some y) e none e' rec q = cc
      go (some y) e (some ys) e' rec q =
          ap (λ zs. lookup (overlay zs m) key) (sym (some-injective _ _ q))
          ∙ rec ys (insert m k y) e'
          ∙ lookup-insert m k key y
          ∙ ap (λ b. if b then some y else lookup m key) (other_key y e)

module _ (decode : Str → Option Table) (F : FilePaths) (valid_glob : Str → Bool) where
  file_settings-untouched :
      (key : Str) (x : SchemaEntry) (s : Source) (f : File) (xs m : List (Str × Entry))
      → lookup schema key ≡ some x
      → allows x.allowed s ≡ false
      → file_settings decode s f ≡ some xs
      → lookup (overlay xs m) key ≡ lookup m key
  unfolding file_settings
  file_settings-untouched key x s absent xs m k a h =
      ap (λ ys. lookup (overlay ys m) key) (sym (some-injective _ _ h))
  file_settings-untouched key x s cannot_open xs m k a h = cc
  file_settings-untouched key x s cannot_inspect xs m k a h = cc
  file_settings-untouched key x s (file size content) xs m k a h =
      parsed (decode (take 1048577 content)) h
    where
      flattened :
          (r : Result Flat)
          → (elim r [ err m ↦ none | ok flat ↦ settings s (sort_settings flat) ]) ≡ some xs
          → lookup (overlay xs m) key ≡ lookup m key
      flattened (err _) q = cc
      flattened (ok flat) q = settings-untouched key x k s a (sort_settings flat) xs m q

      parsed :
          (o : Option Table)
          → (elim o [
            | none ↦ none
            | some raw ↦ elim (flatten [] raw []) [
              | err m ↦ none
              | ok flat ↦ settings s (sort_settings flat)
            ]
          ])
            ≡ some xs
          → lookup (overlay xs m) key ≡ lookup m key
      parsed none q = cc
      parsed (some raw) q = flattened (flatten [] raw []) q

  IsLayered-without :
      (global repo : File) (cli : CliOverrides) (e : Effective) (key : Str) (x : SchemaEntry)
      → lookup schema key ≡ some x
      → allows x.allowed source_repo ≡ false
      → (l : IsLayered decode F valid_glob global repo cli e)
      → lookup (entries e) key
        ≡ lookup (overlay (cli_settings cli) (overlay l.global_layer (entries defaults))) key
  IsLayered-without global repo cli e key x k a l =
      ap (λ m. lookup m key) l.layered
      ∙ lookup-overlay (cli_settings cli) _ _ key
          (file_settings-untouched key x source_repo repo l.repo_layer _ k a l.read_repo)

  -- A key of the schema that the file of a repository may not set has the same entry, value and source,
  -- in any two configurations that are resolved from the same global file and command line,
  -- whatever the two repositories' files say.
  pub resolve_config-guarded :
      (global repo repo' : File) (root root' : Str) (cli : CliOverrides) (e e' : Effective)
      (key : Str) (x : SchemaEntry)
      → lookup schema key ≡ some x
      → allows x.allowed source_repo ≡ false
      → resolve_config decode F valid_glob global repo root cli ≡ ok e
      → resolve_config decode F valid_glob global repo' root' cli ≡ ok e'
      → lookup (entries e) key ≡ lookup (entries e') key
  resolve_config-guarded global repo repo' root root' cli e e' key x k a h h' =
      let (l, _) = resolve_config-IsLayered decode F valid_glob global repo root cli e h in
      let (l', _) = resolve_config-IsLayered decode F valid_glob global repo' root' cli e' h' in
      let same = some-injective _ _ (sym l.read_global ∙ l'.read_global) in
      IsLayered-without global repo cli e key x k a l
      ∙ ap (λ g. lookup (overlay (cli_settings cli) (overlay g (entries defaults))) key) same
      ∙ sym (IsLayered-without global repo' cli e' key x k a l')
