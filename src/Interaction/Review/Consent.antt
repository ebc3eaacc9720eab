-- ===== src/Interaction/Review/Consent.antt =====
-- internal/interaction/interaction.go: a plan is approved by a clear yes only.
use commiter_cli.Base.{
  ℕ, suc, Bool, true, false, List, [], ◌∷◌, ◌++◌, map, Option, none, some, if◌then◌else◌, ◌≡◌, refl,
  ap, All,
}
use commiter_cli.Base.Str.{Str, lit, trim_space}
use commiter_cli.Interaction.Review.{
  Decision, approve, regenerate, reject, Read, line, eof, failed, Terminal, Outcome, Choice, empty,
  yes, no_thanks, again, invalid, choice, supplement, printed, decide, review_from, review,
}

module _ (T : Terminal) where
  -- Lines that were no choice, and then one that says yes.
  pub Consents : List Read → Type 0
  Consents input =
      (retried : List Str) × (answer : Str) × (rest : List Read) × (input
        ≡ map line retried ++ line answer ∷ rest)
      × All (λ text. choice T text ≡ invalid) retried
      × (choice T answer ≡ yes)

  printed-approve : (n : ℕ) (next : Outcome) → (printed T n next).0 ≡ approve → next.0 ≡ approve
  unfolding printed
  printed-approve n next h = go (T.print_error n) h
    where
      body : Option Str → Outcome
      body o = elim o [ some m ↦ (reject, [], some m) | none ↦ next ]

      go : (o : Option Str) → (body o).0 ≡ approve → next.0 ≡ approve
      go (some m) q = cc
      go none q = q

  supplement-rejects : (input : List Read) → ¬ ((supplement T input).0 ≡ approve)
  unfolding supplement
  supplement-rejects [] h = cc
  supplement-rejects (eof ∷ rest) h = cc
  supplement-rejects (failed m ∷ rest) h = cc
  supplement-rejects (line text ∷ rest) h = go _ h
    where
      either : Bool → Str → Outcome
      either b s = if b then (Decision.reject_empty_feedback, [], none) else (regenerate, s, none)

      go : (b : Bool) → (either b (trim_space text)).0 ≡ approve → ⊥
      go true q = cc
      go false q = cc

  review_from-Consents :
      (n : ℕ) (input : List Read) → (review_from T n input).0 ≡ approve → Consents input
  unfolding review_from Consents
  review_from-Consents n [] h = cc
  review_from-Consents n (eof ∷ rest) h = cc
  review_from-Consents n (failed m ∷ rest) h = cc
  review_from-Consents n (line text ∷ rest) h =
      go (choice T text) refl h (review_from-Consents (suc n) rest)
    where
      go :
          (c : Choice)
          → choice T text ≡ c
          → (decide T n c (supplement T rest) (review_from T (suc n) rest)).0 ≡ approve
          → ((review_from T (suc n) rest).0 ≡ approve → Consents rest)
          → Consents (line text ∷ rest)
      go empty e q rec = cc
      go yes e q rec = ([], text, rest, refl, tt, e)
      go no_thanks e q rec = cc
      go again e q rec = absurd (supplement-rejects rest (printed-approve n (supplement T rest) q))
      go invalid e q rec =
          let (retried, answer, behind, same, all, yes_found) =
            rec (printed-approve n (review_from T (suc n) rest) q) in
          (text ∷ retried, answer, behind, ap (λ xs. line text ∷ xs) same, (e, all), yes_found)

  -- When the review approves a plan, the input has a line that says y or yes, and each line before it
  -- was no choice at all: neither an empty line, nor the end of the input, nor an error of the input or
  -- the printer, nor a line that says anything else ever approves.
  pub review-Consents : (input : List Read) → (review T input).0 ≡ approve → Consents input
  unfolding review
  review-Consents input h = go T.connected h
    where
      body : Bool → Outcome
      body b =
          if b
          then printed T 0 (printed T 1 (review_from T 2 input))
          else (reject, [], some (lit "review input and output are required"))

      go : (b : Bool) → (body b).0 ≡ approve → Consents input
      go true q = review_from-Consents 2 input (printed-approve 1 _ (printed-approve 0 _ q))
      go false q = cc
