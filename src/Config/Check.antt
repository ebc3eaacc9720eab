-- ===== src/Config/Check.antt =====
-- internal/config/config.go: which values are accepted.
pub mod Supported
pub mod Accepted
use commiter_cli.Base.{
  ℕ, Bool, true, false, not, ◌&&◌, ◌||◌, List, [], ◌∷◌, ◌++◌, Option, none, some, if◌then◌else◌,
  ◌==◌, is_nil, contains, ltb, leb, eqb, length,
}
use commiter_cli.Base.FilePaths.{FilePaths}
use commiter_cli.Base.Int.{ℤ, pos, negsuc, int_eq}
use commiter_cli.Base.Str.{Str, lit, str_eq, has_prefix, has_suffix, trim_suffix, split, any}
use commiter_cli.Config.Values.{
  Values, VerificationCommand, candidate_planner, planner_model_quantization,
  pinned_planner_revision,
}

-- `if !test { return error }`, in a row: the first test that does not hold.
unfoldable pub require : List (Bool × Str) → Option Str
require [] = none
require ((holds, message) ∷ rest) =
    let later = require rest in if holds then later else some message

unfoldable pub or_else : Option Str → Option Str → Option Str
or_else none later = later
or_else (some m) later = some m

-- `for _, x := range xs { if err := check(x); err != nil { return err } }`
unfoldable pub first_error {ℓ} : {A : Type ℓ} → (A → Option Str) → List A → Option Str
unfolding or_else
first_error check [] = none
first_error check (x ∷ xs) = or_else (check x) (first_error check xs)

digit : ℕ → Bool
digit c = leb b'0' c && leb c b'9'

model_char : ℕ → Bool
model_char c =
    (leb b'a' c && leb c b'z')
    || (leb b'A' c && leb c b'Z')
    || (leb b'0' c && leb c b'9')
    || eqb c b'-'
    || eqb c b'_'
    || eqb c b'.'

model_part : Str → Bool
unfolding model_char any
model_part part =
    not (part == [] || part == lit "." || part == lit "..")
    && not (any (λ c. not (model_char c)) part)

-- `validMLXModel`
unfoldable pub valid_mlx_model : Str → Bool
unfolding model_part
valid_mlx_model value = elim (split b'/' value) [
  | owner ∷ (repository ∷ []) ↦ model_part owner && model_part repository
  | _ ↦ false
]

hex_char : ℕ → Bool
hex_char c = (leb b'0' c && leb c b'9') || (leb b'a' c && leb c b'f') || (leb b'A' c && leb c b'F')

-- `validHexRevision`, of a text in ASCII, where bytes and code points are the same.
unfoldable pub valid_hex_revision : Str → Bool
unfolding hex_char any
valid_hex_revision value = eqb (length value) 40 && not (any (λ c. not (hex_char c)) value)

bits_label : Str → Bool
unfolding digit any
bits_label [] = false
bits_label (c ∷ s) =
    not (eqb c b'0' || ltb 2 (length (c ∷ s))) && not (any (λ d. not (digit d)) (c ∷ s))

-- `validMLXQuantization`
unfoldable pub valid_mlx_quantization : Str → Bool
unfolding bits_label
valid_mlx_quantization value =
    value == lit "none"
    || (has_suffix value (lit "bit") && bits_label (trim_suffix value (lit "bit")))

-- `SupportedPlannerModel`
unfoldable pub supported_planner_model : Values → Bool
supported_planner_model v =
    let revision = pinned_planner_revision v.model in
    v.backend == lit "mlx"
    && v.model_quantization == planner_model_quantization
    && not (revision == [])
    && v.model_revision == revision

abbrev pub is_positive : ℤ → Bool
is_positive (pos n) = ltb 0 n
is_positive (negsuc n) = false

unfoldable pub mlx : Values → Bool
mlx v = v.backend == lit "mlx"

-- The tests of `validateValues` on single values, in order.
unfoldable pub scalar_checks : Values → List (Bool × Str)
unfolding mlx
scalar_checks v =
    (v.schema_version == pos 1, lit "unsupported schema_version")
    ∷ (v.language == lit "en" || v.language == lit "ja", lit "commit.language must be en or ja")
    ∷ (
      v.context == lit "auto"
          || v.context == lit "8k"
          || v.context == lit "16k"
          || v.context == lit "32k"
          || v.context == lit "64k",
      lit "llm.context is not supported",
    )
    ∷ (
      v.max_tokens == pos 8192
          || v.max_tokens == pos 16384
          || v.max_tokens == pos 32768
          || v.max_tokens == pos 65536,
      lit "llm.max_context_tokens is not supported",
    )
    ∷ (is_positive v.timeout, lit "verification.timeout_seconds must be positive")
    ∷ (v.planner == candidate_planner, lit "single-pass planning has been removed")
    ∷ (not (v.model == []), lit "llm.model must not be empty")
    ∷ (mlx v, lit "planning requires llm.backend")
    ∷ (
      not (mlx v) || valid_mlx_model v.model,
      lit "llm.model must be a Hugging Face owner/repository for MLX",
    )
    ∷ (
      not (mlx v) || valid_hex_revision v.model_revision,
      lit "llm.model_revision must be a 40-character commit hash for MLX",
    )
    ∷ (
      not (mlx v) || valid_mlx_quantization v.model_quantization,
      lit "llm.model_quantization must be none or a positive Nbit label for MLX",
    )
    ∷ (supported_planner_model v, lit "three-phase planning requires a supported pinned model")
    ∷ (
      v.max_tokens == pos 65536 && (v.context == lit "auto" || v.context == lit "64k"),
      lit "three-phase planning uses a fixed 64k window",
    )
    ∷ []

module _ (F : FilePaths) (valid_glob : Str → Bool) where
  unfoldable pub pattern_checks : Str → List (Bool × Str)
  pattern_checks pattern =
      (
        not (pattern == [] || F.is_abs pattern || has_prefix pattern (lit "/")),
        lit "analysis glob must be repo-root relative",
      )
      ∷ (
        not (contains (split b'/' (F.to_slash pattern)) (lit "..")),
        lit "analysis glob must not escape the repo root",
      )
      ∷ (valid_glob pattern, lit "analysis glob is invalid")
      ∷ []

  -- `validateRepoPattern`
  unfoldable pub validate_repo_pattern : Str → Option Str
  unfolding pattern_checks
  validate_repo_pattern pattern = require (pattern_checks pattern)

  -- `validateCommandCWD`
  unfoldable pub validate_command_cwd : Str → Str → Option Str
  validate_command_cwd cwd root =
      if root == []
      then some (lit "cannot validate verification cwd without a repository root")
      else elim (F.eval_symlinks root) [
        | none ↦ some (lit "cannot resolve repository root")
        | some real ↦ elim (F.eval_symlinks (if F.is_abs cwd then cwd else F.join real cwd)) [
          | none ↦ some (lit "verification cwd cannot be resolved")
          | some candidate ↦ elim (F.rel real candidate) [
            | none ↦ some (lit "verification cwd must stay inside the repo root")
            | some relative ↦
                if relative == lit ".." || has_prefix relative (lit "../")
                then some (lit "verification cwd must stay inside the repo root")
                else none
          ]
        ]
      ]

  unfoldable pub validate_commands : Str → Values → Option Str
  unfolding validate_command_cwd first_error
  validate_commands root v =
      if not v.commands_set
      then none
      else if is_nil v.commands
      then some (lit "verification.commands must contain at least one command")
      else first_error (λ c. validate_command_cwd c.cwd root) v.commands

  -- `validateValues`
  unfoldable pub validate_values : Str → Values → Option Str
  unfolding scalar_checks validate_repo_pattern validate_commands
  validate_values root v = or_else (require (scalar_checks v)) (
      or_else (first_error validate_repo_pattern (v.include ++ v.exclude))
        (validate_commands root v))
