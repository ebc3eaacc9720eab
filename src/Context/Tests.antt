-- ===== src/Context/Tests.antt =====
-- The choice of a context window for a short prompt, and the cut of a line.
use commiter_cli.Base.{◌≡◌, ◌≤◌, refl, true, false, [], ◌∷◌, ◌++◌, some, length}
use commiter_cli.Base.Utf8.{valid_string}
use commiter_cli.Context.Chunk.{truncate_utf8}
use commiter_cli.Context.Chunk.Truncate.{truncate_utf8-fits}
use commiter_cli.Base.Str.{Str, lit, str_eq, utf8}
use commiter_cli.Base.Int.{pos}
use commiter_cli.Context.Budget.{BudgetConfig, fits, select_context, allowed_contexts, new_budget}
use commiter_cli.Context.Budget.Smallest.{Picked, needed, select_context-Picked}

abbrev config : BudgetConfig
config = record {
  require_uncompressed = false;
  context = lit "16k";
  max_context_tokens = 0;
  prompt_overhead_bytes = pos 8000;
}

limits : allowed_contexts config ≡ some (8192 ∷ 16384 ∷ [])
unfolding allowed_contexts str_eq
limits = refl

selected : select_context (lit "diff") (pos 3) config ≡ fits (new_budget 16384 9284 8004 1024)
unfolding select_context allowed_contexts str_eq
selected = refl

select_context-Picked_example :
    Picked
      (needed (lit "diff") 3 8000)
      (8192 ∷ 16384 ∷ [])
      (select_context (lit "diff") (pos 3) config)
select_context-Picked_example =
    select_context-Picked (lit "diff") 3 8000 config (8192 ∷ 16384 ∷ []) refl limits

-- An accented letter takes two bytes, which are not parted.
abbrev accented : Str
accented = lit "a" ++ utf8 (0xe9 ∷ []) ++ lit "bcdef"

accented_valid : valid_string accented ≡ true
unfolding valid_string utf8
accented_valid = refl

accented_cut : truncate_utf8 accented 6 ≡ lit "a...f"
unfolding truncate_utf8 utf8 valid_string
accented_cut = refl

truncate_utf8-fits_example :
    (length (truncate_utf8 accented 6) ≤ 6)
    × (valid_string (truncate_utf8 accented 6) ≡ true)
    × (length accented ≤ 6 → truncate_utf8 accented 6 ≡ accented)
truncate_utf8-fits_example = truncate_utf8-fits accented 6 accented_valid
