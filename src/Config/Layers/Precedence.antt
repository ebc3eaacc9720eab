-- ===== src/Config/Layers/Precedence.antt =====
-- internal/config/config.go: `Resolve` puts the layers on top of each other.
use commiter_cli.Base.{
  Bool, true, false, List, [], Option, none, some, if◌then◌else◌, ◌≡◌, refl, ap, sym, ◌∙◌, ltb,
  take,
}
use mathlib.Core.Path.{subst}
use commiter_cli.Base.FilePaths.{FilePaths}
use commiter_cli.Base.Result.{Result, ok, err, ◌>>=◌, >>=-ok, ok-injective}
use commiter_cli.Base.Str.{Str, lit, str_eq}
use commiter_cli.Config.Values.{
  Source, source_global, source_repo, Entry, Effective, entries, defaults,
}
use commiter_cli.Config.Toml.{Table, Flat, flatten}
use commiter_cli.Config.Apply.{
  File, absent, cannot_open, cannot_inspect, file, max_file_size, sort_settings, apply_settings,
  apply_flat, apply_file, apply_cli, CliOverrides,
}
use commiter_cli.Config.Check.{validate_values}
use commiter_cli.Config.Resolve.{checked, validated, resolve_config}
use commiter_cli.Config.Layers.{overlay}
use commiter_cli.Config.Layers.Settings.{settings, apply_settings-overlay}
use commiter_cli.Config.Layers.CommandLine.{cli_settings, apply_cli-overlay}

module _ (decode : Str → Option Table) where
  -- What a file says: nothing if there is none, and else its settings in the order of their keys.
  unfoldable pub file_settings : Source → File → Option (List (Str × Entry))
  unfolding settings
  file_settings s absent = some []
  file_settings s cannot_open = none
  file_settings s cannot_inspect = none
  file_settings s (file size content) = elim (decode (take 1048577 content)) [
    | none ↦ none
    | some raw ↦ elim (flatten [] raw []) [
      | err m ↦ none
      | ok flat ↦ settings s (sort_settings flat)
    ]
  ]

  apply_flat-overlay :
      (s : Source) (e e' : Effective) (flat : Flat)
      → apply_flat s e flat ≡ ok e'
      → (xs : List (Str × Entry)) × (settings s (sort_settings flat) ≡ some xs)
        × (entries e' ≡ overlay xs (entries e))
  unfolding apply_flat
  apply_flat-overlay s e e' flat h =
      apply_settings-overlay s e e' (sort_settings flat) (by_tests _ _ h)
    where
      by_tests :
          (a b : Bool)
          → (if a
              then err (lit "remove llm.endpoint")
              else if b
              then err (lit "set llm.planner explicitly when migrating model settings")
              else apply_settings s e (sort_settings flat))
            ≡ ok e'
          → apply_settings s e (sort_settings flat) ≡ ok e'
      by_tests true b q = cc
      by_tests false true q = cc
      by_tests false false q = q

  apply_file-overlay :
      (s : Source) (e e' : Effective) (f : File)
      → apply_file decode s e f ≡ ok e'
      → (xs : List (Str × Entry)) × (file_settings s f ≡ some xs)
        × (entries e' ≡ overlay xs (entries e))
  unfolding apply_file file_settings
  apply_file-overlay s e e' absent h = ([], refl, ap entries (sym (ok-injective _ _ h)))
  apply_file-overlay s e e' cannot_open h = cc
  apply_file-overlay s e e' cannot_inspect h = cc
  apply_file-overlay s e e' (file size content) h = sized (ltb max_file_size size) h
    where
      flattened :
          (r : Result Flat)
          → (r >>= apply_flat s e) ≡ ok e'
          → (xs : List (Str × Entry)) × (elim r [
            | err m ↦ none
            | ok flat ↦ settings s (sort_settings flat)
          ]
              ≡ some xs)
            × (entries e' ≡ overlay xs (entries e))
      flattened (err m) q = cc
      flattened (ok flat) q = apply_flat-overlay s e e' flat q

      parsed :
          (o : Option Table)
          → (elim o [
            | none ↦ err (lit "invalid TOML in configuration")
            | some raw ↦ flatten [] raw [] >>= apply_flat s e
          ])
            ≡ ok e'
          → (xs : List (Str × Entry)) × (elim o [
            | none ↦ none
            | some raw ↦ elim (flatten [] raw []) [
              | err m ↦ none
              | ok flat ↦ settings s (sort_settings flat)
            ]
          ]
              ≡ some xs)
            × (entries e' ≡ overlay xs (entries e))
      parsed none q = cc
      parsed (some raw) q = flattened (flatten [] raw []) q

      sized :
          (b : Bool)
          → (if b
              then err (lit "configuration is too large")
              else elim (decode (take 1048577 content)) [
                | none ↦ err (lit "invalid TOML in configuration")
                | some raw ↦ flatten [] raw [] >>= apply_flat s e
              ])
            ≡ ok e'
          → (xs : List (Str × Entry)) × (file_settings s (file size content) ≡ some xs)
            × (entries e' ≡ overlay xs (entries e))
      sized true q = cc
      sized false q = parsed (decode (take 1048577 content)) q

checked-ok : (o : Option Str) (e e' : Effective) → checked o e ≡ ok e' → (o ≡ none) × (e ≡ e')
unfolding checked
checked-ok none e e' h = (refl, ok-injective _ _ h)
checked-ok (some m) e e' h = cc

module _ (decode : Str → Option Table) (F : FilePaths) (valid_glob : Str → Bool) where
  -- The layers of a configuration that was resolved.
  pub record IsLayered (global repo : File) (cli : CliOverrides) (e : Effective) : Type 0 where
    pub global_layer : List (Str × Entry)
    pub repo_layer : List (Str × Entry)
    pub read_global : file_settings decode source_global global ≡ some global_layer
    pub read_repo : file_settings decode source_repo repo ≡ some repo_layer
    pub layered :
        entries e
        ≡ overlay (cli_settings cli) (overlay repo_layer (overlay global_layer (entries defaults)))

  -- A configuration that is resolved shows, for its keys, the defaults with the settings of the global
  -- file on top, those of the repository's file on top of them, and the options of the command line
  -- on top of all; and its values were found valid.
  pub resolve_config-IsLayered :
      (global repo : File) (root : Str) (cli : CliOverrides) (e : Effective)
      → resolve_config decode F valid_glob global repo root cli ≡ ok e
      → IsLayered global repo cli e × (validate_values F valid_glob root e.values ≡ none)
  unfolding resolve_config validated
  resolve_config-IsLayered global repo root cli e h =
      let check = λ (x : Effective). checked (validate_values F valid_glob root x.values) x in
      let (e5, h5, c5) = >>=-ok _ check e h in
      let (e4, h4, c4) = >>=-ok _ (λ x. apply_cli x cli) e5 h5 in
      let (e3, h3, c3) = >>=-ok _ check e4 h4 in
      let (e2, h2, c2) = >>=-ok _ (λ x. apply_file decode source_repo x repo) e3 h3 in
      let (e1, h1, c1) = >>=-ok (apply_file decode source_global defaults global) check e2 h2 in
      let (valid, q5) = checked-ok _ e5 e c5 in
      let (_, q3) = checked-ok _ e3 e4 c3 in
      let (_, q1) = checked-ok _ e1 e2 c1 in
      let (gs, g, below) = apply_file-overlay decode source_global defaults e1 global h1 in
      let (rs, r, middle) = apply_file-overlay decode source_repo e2 e3 repo c2 in
      let top = apply_cli-overlay e4 e5 cli c4 in
      (
        record {
          global_layer = gs;
          repo_layer = rs;
          read_global = g;
          read_repo = r;
          layered =
              ap entries (sym q5)
              ∙ top
              ∙ ap (overlay (cli_settings cli))
                  (ap entries (sym q3) ∙ middle ∙ ap (overlay rs) (ap entries (sym q1) ∙ below));
        },
        subst (λ x. validate_values F valid_glob root x.values ≡ none) q5 valid,
      )
