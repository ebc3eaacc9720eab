-- ===== src/Config/Check/Supported.antt =====
-- internal/config/config.go: the tests of `validateValues` on single values, as a predicate.
use commiter_cli.Base.{
  Bool, true, false, not, ◌&&◌, ◌||◌, List, [], ◌∷◌, Option, none, some, ◌==◌, ==_iff, ==_refl, ◌≡◌,
  ◌↔◌, ◌⊎◌, inl, inr, refl, ap, sym, ◌∙◌, All, Bool-cases,
}
use commiter_cli.Base.Int.{ℤ, pos, int_eq}
use commiter_cli.Base.Str.{Str, lit, str_eq, has_prefix, has_suffix, trim_suffix, split}
use commiter_cli.Config.Values.{
  Values, candidate_planner, candidate_model, candidate_revision, planner_model_quantization,
  pinned_planner_revision,
}
use commiter_cli.Config.Check.{
  require, or_else, first_error, scalar_checks, mlx, valid_mlx_model, valid_hex_revision,
  valid_mlx_quantization, supported_planner_model, is_positive,
}

abbrev pub qwen_model : Str
qwen_model = lit "mlx-community/Qwen3.5-4B-4bit"

abbrev pub qwen_revision : Str
qwen_revision = lit "0e7ffd5c629ef7719d4cbc04069232580bfa9d9c"

-- The two models, each with its revision.
pub IsPinned : Str → Str → Type 0
IsPinned model revision =
    ((model ≡ candidate_model) × (revision ≡ candidate_revision))
    ⊎ ((model ≡ qwen_model) × (revision ≡ qwen_revision))

pub record IsSupported (v : Values) : Type 0 where
  pub schema_version : v.schema_version ≡ pos 1
  pub language : (v.language ≡ lit "en") ⊎ (v.language ≡ lit "ja")
  pub context : (v.context ≡ lit "auto") ⊎ (v.context ≡ lit "64k")
  pub max_tokens : v.max_tokens ≡ pos 65536
  pub timeout : is_positive v.timeout ≡ true
  pub planner : v.planner ≡ candidate_planner
  pub backend : v.backend ≡ lit "mlx"
  pub quantization : v.model_quantization ≡ planner_model_quantization
  pub model : IsPinned v.model v.model_revision

pub require-none :
    (b : Bool) (m : Str) (rest : List (Bool × Str))
    → (require ((b, m) ∷ rest) ≡ none) ↔ ((b ≡ true) × (require rest ≡ none))
unfolding require
require-none true m rest = (λ h. (refl, h), λ (_, h). h)
require-none false m rest = (λ h. cc, λ (h, _). cc)

pub require-nil : require [] ≡ none
unfolding require
require-nil = refl

pub or_else-none : (a b : Option Str) → (or_else a b ≡ none) ↔ ((a ≡ none) × (b ≡ none))
unfolding or_else
or_else-none none b = (λ h. (refl, h), λ (_, h). h)
or_else-none (some m) b = (λ h. cc, λ (h, _). cc)

pub first_error-none :
    {A : Type 0} (check : A → Option Str) (xs : List A)
    → (first_error check xs ≡ none) ↔ All (λ x. check x ≡ none) xs
unfolding first_error
first_error-none check [] = (λ _. tt, λ _. refl)
first_error-none check (x ∷ xs) =
    let (there, back) = first_error-none check xs in
    let split_off = or_else-none (check x) (first_error check xs) in
    (λ h. ((split_off.0 h).0, there (split_off.0 h).1), λ (a, rest). split_off.1 (a, back rest))

or-true : (a b : Bool) → (a || b) ≡ true → (a ≡ true) ⊎ (b ≡ true)
or-true true b h = inl refl
or-true false b h = inr h

and-true : (a b : Bool) → (a && b) ≡ true → (a ≡ true) × (b ≡ true)
and-true true b h = (refl, h)
and-true false b h = cc

or_true : (b : Bool) → (b || true) ≡ true
or_true true = refl
or_true false = refl

-- Which of two texts.
either : (s a b : Str) → (s == a || s == b) ≡ true → (s ≡ a) ⊎ (s ≡ b)
either s a b h = elim (or-true (s == a) (s == b) h) [
  | inl e ↦ inl ((==_iff s a).0 e)
  | inr e ↦ inr ((==_iff s b).0 e)
]

one_of : (s a b : Str) → (s ≡ a) ⊎ (s ≡ b) → (s == a || s == b) ≡ true
one_of s a b (inl e) = rw ((==_iff s a).1 e) refl
one_of s a b (inr e) = ap (λ r. s == a || r) ((==_iff s b).1 e) ∙ or_true (s == a)

unpinned :
    (model : Str)
    → (model == candidate_model) ≡ false
    → (model == qwen_model) ≡ false
    → pinned_planner_revision model ≡ []
unfolding pinned_planner_revision
unpinned model n n' = rw (n, n') refl

pinned_candidate : pinned_planner_revision candidate_model ≡ candidate_revision
unfolding pinned_planner_revision str_eq
pinned_candidate = refl

pinned_qwen : pinned_planner_revision qwen_model ≡ qwen_revision
unfolding pinned_planner_revision str_eq
pinned_qwen = refl

revision-IsPinned :
    (model revision : Str)
    → not (pinned_planner_revision model == []) ≡ true
    → (revision == pinned_planner_revision model) ≡ true
    → IsPinned model revision
unfolding IsPinned
revision-IsPinned model revision n q =
    let same = (==_iff revision (pinned_planner_revision model)).0 q in
    elim (Bool-cases (model == candidate_model)) [
      | inl e ↦
          let e' = (==_iff model candidate_model).0 e in
          inl (e', same ∙ ap pinned_planner_revision e' ∙ pinned_candidate)
      | inr n1 ↦ elim (Bool-cases (model == qwen_model)) [
        | inl e ↦
            let e' = (==_iff model qwen_model).0 e in
            inr (e', same ∙ ap pinned_planner_revision e' ∙ pinned_qwen)
        | inr n2 ↦
            let false_true : false ≡ true =
              sym (ap not (==_refl {A = Str} []))
              ∙ sym (ap (λ s. not (s == [])) (unpinned model n1 n2))
              ∙ n in
            cc
      ]
    ]

known_revision :
    (model revision : Str) → IsPinned model revision → pinned_planner_revision model ≡ revision
unfolding IsPinned
known_revision model revision (inl (e, q)) = ap pinned_planner_revision e ∙ pinned_candidate ∙ sym q
known_revision model revision (inr (e, q)) = ap pinned_planner_revision e ∙ pinned_qwen ∙ sym q

both_true : (a b : Bool) → a ≡ true → b ≡ true → (a && b) ≡ true
both_true a b p q = rw (p, q) refl

known-ne_nil : (model revision : Str) → IsPinned model revision → not (revision == []) ≡ true
unfolding IsPinned str_eq
known-ne_nil model revision (inl (e, q)) = ap (λ s. not (s == [])) q
known-ne_nil model revision (inr (e, q)) = ap (λ s. not (s == [])) q

supported_planner_model_iff :
    (v : Values)
    → (supported_planner_model v ≡ true) ↔ (
        (v.backend ≡ lit "mlx")
        × (v.model_quantization ≡ planner_model_quantization)
        × IsPinned v.model v.model_revision)
unfolding supported_planner_model
supported_planner_model_iff v = (
  λ h.
      let (h3, r) = and-true _ _ h in
      let (h2, n) = and-true _ _ h3 in
      let (b, q) = and-true _ _ h2 in
      (
        (==_iff v.backend (lit "mlx")).0 b,
        (==_iff v.model_quantization planner_model_quantization).0 q,
        revision-IsPinned v.model v.model_revision n r,
      ),
  λ (b, q, p).
      let known = known_revision v.model v.model_revision p in
      both_true _ _
        (both_true _ _
          (both_true _ _ ((==_iff v.backend (lit "mlx")).1 b)
            ((==_iff v.model_quantization planner_model_quantization).1 q))
          (ap (λ s. not (s == [])) known ∙ known-ne_nil v.model v.model_revision p))
        ((==_iff v.model_revision (pinned_planner_revision v.model)).1 (sym known)),
)

pub checks-IsSupported : (v : Values) → require (scalar_checks v) ≡ none → IsSupported v
unfolding scalar_checks mlx
checks-IsSupported v h =
    let (c1, r1) = (require-none _ _ _).0 h in
    let (c2, r2) = (require-none _ _ _).0 r1 in
    let (c3, r3) = (require-none _ _ _).0 r2 in
    let (c4, r4) = (require-none _ _ _).0 r3 in
    let (c5, r5) = (require-none _ _ _).0 r4 in
    let (c6, r6) = (require-none _ _ _).0 r5 in
    let (c7, r7) = (require-none _ _ _).0 r6 in
    let (c8, r8) = (require-none _ _ _).0 r7 in
    let (c9, r9) = (require-none _ _ _).0 r8 in
    let (c10, r10) = (require-none _ _ _).0 r9 in
    let (c11, r11) = (require-none _ _ _).0 r10 in
    let (c12, r12) = (require-none _ _ _).0 r11 in
    let (c13, _) = (require-none _ _ _).0 r12 in
    let (backend, quantization, pinned) = (supported_planner_model_iff v).0 c12 in
    let (tokens, window) = and-true _ _ c13 in
    record {
      schema_version = (==_iff v.schema_version (pos 1)).0 c1;
      language = either v.language (lit "en") (lit "ja") c2;
      context = either v.context (lit "auto") (lit "64k") window;
      max_tokens = (==_iff v.max_tokens (pos 65536)).0 tokens;
      timeout = c5;
      planner = (==_iff v.planner candidate_planner).0 c6;
      backend = backend;
      quantization = quantization;
      model = pinned;
    }

IsPinned-valid_model :
    (model revision : Str)
    → IsPinned model revision
    → (valid_mlx_model model ≡ true) × (not (model == []) ≡ true)
unfolding IsPinned valid_mlx_model split str_eq
IsPinned-valid_model model revision (inl (e, q)) = (ap valid_mlx_model e, ap (λ s. not (s == [])) e)
IsPinned-valid_model model revision (inr (e, q)) = (ap valid_mlx_model e, ap (λ s. not (s == [])) e)

IsPinned-valid_revision :
    (model revision : Str) → IsPinned model revision → valid_hex_revision revision ≡ true
unfolding IsPinned valid_hex_revision
IsPinned-valid_revision model revision (inl (e, q)) = ap valid_hex_revision q
IsPinned-valid_revision model revision (inr (e, q)) = ap valid_hex_revision q

quantization-valid : (s : Str) → s ≡ planner_model_quantization → valid_mlx_quantization s ≡ true
unfolding valid_mlx_quantization has_suffix str_eq trim_suffix has_prefix
quantization-valid s e = ap valid_mlx_quantization e

window-valid :
    (s : Str)
    → (s ≡ lit "auto") ⊎ (s ≡ lit "64k")
    → (s == lit "auto" || s == lit "8k" || s == lit "16k" || s == lit "32k" || s == lit "64k")
      ≡ true
unfolding str_eq
window-valid s (inl e) =
    ap (λ s. s == lit "auto" || s == lit "8k" || s == lit "16k" || s == lit "32k" || s == lit "64k")
      e
window-valid s (inr e) =
    ap (λ s. s == lit "auto" || s == lit "8k" || s == lit "16k" || s == lit "32k" || s == lit "64k")
      e

tokens-valid :
    (n : ℤ)
    → n ≡ pos 65536
    → (n == pos 8192 || n == pos 16384 || n == pos 32768 || n == pos 65536) ≡ true
unfolding int_eq
tokens-valid n e = ap (λ n. n == pos 8192 || n == pos 16384 || n == pos 32768 || n == pos 65536) e

pub IsSupported-checks : (v : Values) → IsSupported v → require (scalar_checks v) ≡ none
unfolding scalar_checks mlx require
IsSupported-checks v s =
    let (valid_model, named) = IsPinned-valid_model v.model v.model_revision s.model in
    rw
      (
        (==_iff v.schema_version (pos 1)).1 s.schema_version,
        one_of v.language (lit "en") (lit "ja") s.language,
        window-valid v.context s.context,
        tokens-valid v.max_tokens s.max_tokens,
        s.timeout,
        (==_iff v.planner candidate_planner).1 s.planner,
        named,
        (==_iff v.backend (lit "mlx")).1 s.backend,
        valid_model,
        IsPinned-valid_revision v.model v.model_revision s.model,
        quantization-valid v.model_quantization s.quantization,
        (supported_planner_model_iff v).1 (s.backend, s.quantization, s.model),
        (==_iff v.max_tokens (pos 65536)).1 s.max_tokens,
        one_of v.context (lit "auto") (lit "64k") s.context,
      )
      refl
