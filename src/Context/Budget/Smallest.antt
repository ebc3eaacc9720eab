-- ===== src/Context/Budget/Smallest.antt =====
-- The chosen window is the smallest allowed one that holds the input.
use mathlib.Core.Path.{subst₂}
use commiter_cli.Base.{
  All, sym, ◌≡◌, ℕ, ◌+◌, ◌*◌, ◌<◌, ◌≤◌, ◌⊎◌, List, [], ◌∷◌, arith, length, some, max, inl, inr,
}
use commiter_cli.Base.Str.{Str}
use commiter_cli.Base.Int.{pos}
use commiter_cli.Context.Budget.{
  BudgetConfig, Selection, fits, too_large, invalid, pick, select_context, allowed_contexts,
  select_with, output_space, template_reserve, context_8k, context_16k, context_32k, context_64k,
}

abbrev pub Among : ℕ → List ℕ → Type 0
Among x [] = ⊥
Among x (y ∷ ys) = (x ≡ y) ⊎ Among x ys

-- The tokens that an input is taken to need: a byte each, the template, and the answer's space.
abbrev pub needed : Str → ℕ → ℕ → ℕ
needed prompt files overhead = length prompt + overhead + template_reserve + max 1024 (48 * files)

abbrev IsLadder : List ℕ → Type 0
IsLadder limits =
    (limits ≡ context_8k ∷ [])
    ⊎ ((limits ≡ context_8k ∷ (context_16k ∷ []))
        ⊎ ((limits ≡ context_8k ∷ (context_16k ∷ (context_32k ∷ [])))
            ⊎ (limits ≡ context_8k ∷ (context_16k ∷ (context_32k ∷ (context_64k ∷ []))))))

allowed_contexts-IsLadder :
    (config : BudgetConfig) {limits : List ℕ}
    → allowed_contexts config ≡ some limits
    → IsLadder limits
unfolding allowed_contexts
allowed_contexts-IsLadder config h = ground arith

abbrev pub Picked : ℕ → List ℕ → Selection → Type 0
Picked estimated limits (fits b) =
    (b.estimated_tokens ≡ estimated)
    × Among b.context_tokens limits
    × (estimated ≤ b.context_tokens)
    × All (λ l. l < b.context_tokens → l < estimated) limits
Picked estimated limits (too_large b) =
    (b.estimated_tokens ≡ estimated) × All (λ l. (l ≤ b.context_tokens) × (l < estimated)) limits
Picked estimated limits (invalid _) = ⊥

pick-Picked :
    (estimated bytes output : ℕ) (limits : List ℕ)
    → IsLadder limits
    → Picked estimated limits (pick estimated bytes output limits)
unfolding pick
pick-Picked estimated bytes output limits (inl e) = rw e (ground arith)
pick-Picked estimated bytes output limits (inr (inl e)) = rw e (ground arith)
pick-Picked estimated bytes output limits (inr (inr (inl e))) = rw e (ground arith)
pick-Picked estimated bytes output limits (inr (inr (inr e))) = rw e (ground arith)

output_space-eq-max : (files : ℕ) → output_space files ≡ max 1024 (48 * files)
output_space-eq-max files = ground arith

-- With no negative argument and a supported context, the selection never reports another error. It
-- fits exactly at the smallest allowed window that holds the needed tokens, and otherwise it is too
-- large: every allowed window, none larger than the reported one, is smaller than what is needed.
pub select_context-Picked :
    (prompt : Str) (files overhead : ℕ) (config : BudgetConfig) (limits : List ℕ)
    → config.prompt_overhead_bytes ≡ pos overhead
    → allowed_contexts config ≡ some limits
    → Picked (needed prompt files overhead) limits (select_context prompt (pos files) config)
unfolding select_context
select_context-Picked prompt files overhead config limits o a =
    subst₂ (λ v l. Picked (needed prompt files overhead) limits (select_with prompt files v l))
      (sym o) (sym a)
      (rw (← output_space-eq-max files)
        (pick-Picked _ _ _ limits (allowed_contexts-IsLadder config a)))
