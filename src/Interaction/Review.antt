-- ===== src/Interaction/Review.antt =====
-- internal/interaction/interaction.go: the dialogue of `ReviewContext` behind the text that it shows.
pub mod Consent
use commiter_cli.Base.{
  ℕ, suc, ◌+◌, Bool, true, false, ◌||◌, List, [], ◌∷◌, Option, none, some, if◌then◌else◌, ◌==◌,
}
use commiter_cli.Base.Str.{Str, lit, str_eq, trim_space}

pub data Decision : Type 0 where
  approve regenerate reject reject_empty reject_eof reject_empty_feedback reject_eof_feedback :
      Decision

-- What a read gives: a line, the end of the input, or an error, which a canceled context is one of.
pub data Read : Type 0 where
  line : Str → Read
  eof : Read
  failed : Str → Read

-- The printer, as the error of each of its calls, and strings.ToLower.
pub record Terminal : Type 0 where
  pub connected : Bool
  pub print_error : ℕ → Option Str
  pub to_lower : Str → Str

abbrev pub Outcome : Type 0
Outcome = Decision × Str × Option Str

pub data Choice : Type 0 where
  empty yes no_thanks again invalid : Choice

module _ (T : Terminal) where
  -- The answer on a line, trimmed.
  unfoldable pub choice : Str → Choice
  choice text =
      let answer = trim_space text in
      let lower = T.to_lower answer in
      if answer == []
      then empty
      else if lower == lit "y" || lower == lit "yes"
      then yes
      else if lower == lit "n" || lower == lit "no"
      then no_thanks
      else if lower == lit "r" || lower == lit "regenerate"
      then again
      else invalid

  -- The supplement of a regeneration.
  unfoldable pub supplement : List Read → Outcome
  supplement [] = (reject_eof_feedback, [], none)
  supplement (eof ∷ rest) = (reject_eof_feedback, [], none)
  supplement (failed m ∷ rest) = (reject, [], some m)
  supplement (line text ∷ rest) =
      if trim_space text == []
      then (reject_empty_feedback, [], none)
      else (regenerate, trim_space text, none)

  unfoldable pub printed : ℕ → Outcome → Outcome
  printed n next = elim (T.print_error n) [ some m ↦ (reject, [], some m) | none ↦ next ]

  -- The branches of the switch: what a supplement and the next round give.
  unfoldable pub decide : ℕ → Choice → Outcome → Outcome → Outcome
  unfolding printed
  decide n empty asked next = (reject_empty, [], none)
  decide n yes asked next = (approve, [], none)
  decide n no_thanks asked next = (reject, [], none)
  decide n again asked next = printed n asked
  decide n invalid asked next = printed n next

  -- The loop, behind `n` calls of the printer.
  unfoldable pub review_from : ℕ → List Read → Outcome
  unfolding choice supplement decide
  review_from n [] = (reject_eof, [], none)
  review_from n (eof ∷ rest) = (reject_eof, [], none)
  review_from n (failed m ∷ rest) = (reject, [], some m)
  review_from n (line text ∷ rest) =
      decide n (choice text) (supplement rest) (review_from (suc n) rest)

  -- `ReviewContext`, of the reads that follow; behind the last one is the end of the input.
  unfoldable pub review : List Read → Outcome
  unfolding review_from
  review input =
      if T.connected
      then printed 0 (printed 1 (review_from 2 input))
      else (reject, [], some (lit "review input and output are required"))
