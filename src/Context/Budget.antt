-- ===== src/Context/Budget.antt =====
-- internal/contextinput/budget.go: the choice of a context window. Token and byte counts are
-- natural numbers; the two arguments that the code tests for a sign are integers.
pub mod Smallest
use commiter_cli.Base.{
  ℕ, ◌+◌, ◌*◌, Bool, true, false, List, [], ◌∷◌, ◌++◌, ◌&&◌, not, ltb, leb, eqb, if◌then◌else◌,
  ◌==◌, length, Option, none, some,
}
use commiter_cli.Base.Str.{Str, lit, str_eq}
use commiter_cli.Base.Int.{ℤ, pos, negsuc}

abbrev pub context_8k : ℕ
context_8k = 8192

abbrev pub context_16k : ℕ
context_16k = 16384

abbrev pub context_32k : ℕ
context_32k = 32768

abbrev pub context_64k : ℕ
context_64k = 65536

abbrev pub template_reserve : ℕ
template_reserve = 256

abbrev pub minimum_output_space : ℕ
minimum_output_space = 1024

abbrev pub output_per_file : ℕ
output_per_file = 48

pub record BudgetConfig : Type 0 where
  pub require_uncompressed : Bool
  pub context : Str
  pub max_context_tokens : ℕ
  pub prompt_overhead_bytes : ℤ

pub record Budget : Type 0 where
  pub context_tokens : ℕ
  pub estimated_tokens : ℕ
  pub prompt_bytes : ℕ
  pub template_tokens : ℕ
  pub reserved_output_tokens : ℕ

-- A budget; a budget with `ErrTooLarge`; or another error and no budget.
pub data Selection : Type 0 where
  fits : Budget → Selection
  too_large : Budget → Selection
  invalid : Str → Selection

abbrev pub new_budget : ℕ → ℕ → ℕ → ℕ → Budget
new_budget limit estimated prompt_bytes output = record {
  context_tokens = limit;
  estimated_tokens = estimated;
  prompt_bytes = prompt_bytes;
  template_tokens = template_reserve;
  reserved_output_tokens = output;
}

-- The `auto` case of `allowedContexts`.
auto_contexts : ℕ → Option (List ℕ)
auto_contexts limit =
    if not (eqb limit context_8k)
      && (not (eqb limit context_16k)
          && (not (eqb limit context_32k) && not (eqb limit context_64k)))
    then none
    else some (
        context_8k
        ∷ ((if leb context_16k limit then context_16k ∷ [] else [])
            ++ ((if leb context_32k limit then context_32k ∷ [] else [])
                ++ (if leb context_64k limit then context_64k ∷ [] else []))))

unfoldable pub allowed_contexts : BudgetConfig → Option (List ℕ)
unfolding auto_contexts
allowed_contexts config =
    if config.context == lit "8k"
    then some (context_8k ∷ [])
    else if config.context == lit "16k"
    then some (context_8k ∷ context_16k ∷ [])
    else if config.context == lit "32k"
    then some (context_8k ∷ context_16k ∷ context_32k ∷ [])
    else if config.context == lit "64k"
    then some (context_8k ∷ context_16k ∷ context_32k ∷ context_64k ∷ [])
    else if config.context == lit "auto"
    then auto_contexts config.max_context_tokens
    else none

-- The loop over the limits, and the return after it with the last one.
pick : ℕ → ℕ → ℕ → List ℕ → Selection
pick estimated prompt_bytes output [] = invalid (lit "no context")
pick estimated prompt_bytes output (limit ∷ []) =
    if leb estimated limit
    then fits (new_budget limit estimated prompt_bytes output)
    else too_large (new_budget limit estimated prompt_bytes output)
pick estimated prompt_bytes output (limit ∷ (next ∷ limits)) =
    let rest = pick estimated prompt_bytes output (next ∷ limits) in
    if leb estimated limit then fits (new_budget limit estimated prompt_bytes output) else rest

-- The reservation for the model's answer.
abbrev pub output_space : ℕ → ℕ
output_space files =
    if ltb minimum_output_space (output_per_file * files)
    then output_per_file * files
    else minimum_output_space

-- `SelectContext` after the test of the file count.
select_with : Str → ℕ → ℤ → Option (List ℕ) → Selection
select_with prompt files (negsuc _) limits = invalid (lit "prompt overhead must not be negative")
select_with prompt files (pos overhead) none = invalid (lit "unsupported context")
select_with prompt files (pos overhead) (some limits) =
    let bytes = length prompt + overhead in
    let output = output_space files in pick (bytes + template_reserve + output) bytes output limits

unfoldable pub select_context : Str → ℤ → BudgetConfig → Selection
unfolding pick select_with
select_context prompt (negsuc _) config = invalid (lit "file count must not be negative")
select_context prompt (pos files) config =
    select_with prompt files config.prompt_overhead_bytes (allowed_contexts config)
