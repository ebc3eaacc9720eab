-- ===== src/Verification/Definition/Canonical.antt =====
-- internal/verification/definition.go: what the canonical form says of a definition.
use commiter_cli.Base.{
  Bool, true, false, not, ◌||◌, List, [], ◌∷◌, map, Option, none, some, if◌then◌else◌, ◌==◌, ◌≡◌,
  refl, ap, ap₂, sym, ◌∙◌, is_nil, arith,
}
use mathlib.Core.Option.{some-injective}
use commiter_cli.Base.Result.{Result, ok, err, ◌>>=◌, >>=-ok, ok-injective}
use commiter_cli.Base.Str.{Str, str_eq}
use commiter_cli.Verification.Definition.{
  Command, Definition, ManifestScript, CanonicalCommand, CanonicalDefinition, repo, autodetected,
  repo_command, autodetect_command, valid_common_command, invalid_definition, source_repo_config,
  source_package_json_autodetect, canonical_commands, encoder, canonical,
}

-- The command that a canonical command stands for.
pub decode : CanonicalCommand → Command
decode (repo n c a) = record {
  name = n;
  cwd = c;
  argv = a;
  manifest_path = [];
  script_name = [];
  script_body = [];
  implicit_lifecycle_scripts = [];
}
decode (autodetected n c a m s b l) = record {
  name = n;
  cwd = c;
  argv = a;
  manifest_path = m;
  script_name = s;
  script_body = b;
  implicit_lifecycle_scripts = l;
}

-- The definition that a canonical one stands for.
pub restore : CanonicalDefinition → Definition
unfolding decode
restore c = record {
  schema_version = c.schema_version;
  source_type = c.source_type;
  commands = map decode c.commands;
}

blank :
    (v : Bool) (m s b : Str) (l : List ManifestScript)
    → (v || not (m == []) || not (s == []) || not (b == []) || not (is_nil l)) ≡ false
    → (m ≡ []) × (s ≡ []) × (b ≡ []) × (l ≡ [])
blank v m s b l h = ground arith

decode-repo_command : (c : Command) (x : CanonicalCommand) → repo_command c ≡ ok x → decode x ≡ c
unfolding repo_command decode
decode-repo_command c x h = go _ refl h
  where
    go :
        (b : Bool)
        → (not (valid_common_command c)
            || not (c.manifest_path == [])
            || not (c.script_name == [])
            || not (c.script_body == [])
            || not (is_nil c.implicit_lifecycle_scripts))
          ≡ b
        → (if b then err invalid_definition else ok (repo c.name c.cwd c.argv)) ≡ ok x
        → decode x ≡ c
    go true e q = cc
    go false e q =
        let (m, n, b, l) =
          blank (not (valid_common_command c)) c.manifest_path c.script_name c.script_body
            c.implicit_lifecycle_scripts e in
        ap decode (sym (ok-injective _ _ q)) ∙ cc (m, n, b, l)

decode-autodetect_command :
    (c : Command) (x : CanonicalCommand) → autodetect_command c ≡ ok x → decode x ≡ c
unfolding autodetect_command decode
decode-autodetect_command c x h = go _ h
  where
    go :
        (b : Bool)
        → (if b
            then err invalid_definition
            else ok (
                autodetected c.name c.cwd c.argv c.manifest_path c.script_name c.script_body
                  c.implicit_lifecycle_scripts))
          ≡ ok x
        → decode x ≡ c
    go true q = cc
    go false q = ap decode (sym (ok-injective _ _ q))

decode-canonical_commands :
    (encode : Command → Result CanonicalCommand)
    → ((c : Command) (x : CanonicalCommand) → encode c ≡ ok x → decode x ≡ c)
    → (cs : List Command) (xs : List CanonicalCommand) → canonical_commands encode cs ≡ ok xs
    → map decode xs ≡ cs
unfolding canonical_commands
decode-canonical_commands encode back [] xs h = ap (map decode) (sym (ok-injective _ _ h))
decode-canonical_commands encode back (c ∷ cs) xs h =
    let (x, e, h1) = >>=-ok (encode c) _ xs h in
    let (ys, e', h2) = >>=-ok (canonical_commands encode cs) _ xs h1 in
    ap (map decode) (sym (ok-injective _ _ h2))
    ∙ ap₂ (λ a as_. a ∷ as_) (back c x e) (decode-canonical_commands encode back cs ys e')

decode-encoder :
    (source : Str) (encode : Command → Result CanonicalCommand)
    → encoder source ≡ some encode
    → (c : Command) (x : CanonicalCommand) → encode c ≡ ok x
    → decode x ≡ c
unfolding encoder
decode-encoder source encode h c x =
    go (source == source_repo_config) (source == source_package_json_autodetect) h
  where
    go :
        (b b' : Bool)
        → (if b then some repo_command else if b' then some autodetect_command else none)
          ≡ some encode
        → encode c ≡ ok x
        → decode x ≡ c
    go true b' q e = decode-repo_command c x (ap (λ f. f c) (some-injective _ _ q) ∙ e)
    go false true q e = decode-autodetect_command c x (ap (λ f. f c) (some-injective _ _ q) ∙ e)
    go false false q e = cc

-- The canonical form that a definition is hashed by determines the definition: when a definition
-- has one, the definition can be read back from it, whatever its source is.
pub restore-canonical :
    (d : Definition) (c : CanonicalDefinition) → canonical d ≡ ok c → restore c ≡ d
unfolding canonical restore
restore-canonical d c h = go _ h
  where
    with_encoder :
        (o : Option (Command → Result CanonicalCommand))
        → encoder d.source_type ≡ o
        → elim o [
          | none ↦ err invalid_definition
          | some encode ↦ canonical_commands encode d.commands >>= λ commands. ok (record {
            schema_version = d.schema_version;
            source_type = d.source_type;
            commands = commands;
          })
        ]
          ≡ ok c
        → restore c ≡ d
    with_encoder none e q = cc
    with_encoder (some encode) e q =
        let (xs, e', q') = >>=-ok (canonical_commands encode d.commands) _ c q in
        ap restore (sym (ok-injective _ _ q'))
        ∙ ap (λ cs. record d { commands = cs })
            (decode-canonical_commands encode (decode-encoder d.source_type encode e) d.commands xs
              e')

    go :
        (b : Bool)
        → (if b then err invalid_definition else elim (encoder d.source_type) [
          | none ↦ err invalid_definition
          | some encode ↦ canonical_commands encode d.commands >>= λ commands. ok (record {
            schema_version = d.schema_version;
            source_type = d.source_type;
            commands = commands;
          })
        ])
          ≡ ok c
        → restore c ≡ d
    go true q = cc
    go false q = with_encoder (encoder d.source_type) refl q
