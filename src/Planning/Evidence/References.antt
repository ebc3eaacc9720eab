-- ===== src/Planning/Evidence/References.antt =====
-- internal/planning/three_phase.go: the references that confirmed evidence leaves to a group.
use mathlib.Core.List.{Mem, mem-cons, mem-append, not-mem-nil}
use mathlib.Core.Logic.Or
use mathlib.Core.Bool.{Bool-set, false≢true}
use mathlib.Core.Path.{subst}
use commiter_cli.Base.{
  ◌≡◌, ◌≢◌, refl, sym, ◌∙◌, ap, ℕ, true, false, List, [], ◌∷◌, ◌++◌, map, none, ◌==◌, contains, All,
  arith, inl, inr, Bool-cases, ne→==, ==_refl, ==_iff,
}
use commiter_cli.Base.Str.{Str, lit, str_eq}
use commiter_cli.Planning.Evidence.{
  BreakingEvidence, ChangeBlock, GroupingFile, invalid_evidence, check_evidence,
  host_evidence_error, block_evidence, git_evidence, applies, applicable, any_confirmed,
  allowed_references,
}
use commiter_cli.Planning.Grouping.{InputFile, candidate_path}

abbrev pub IsNamed : BreakingEvidence → Type 0
IsNamed e = e.id ≢ lit "none"

pub All-append :
    {A : Type 0} (P : A → Type 0) (xs ys : List A) → All P xs → All P ys → All P (xs ++ ys)
All-append P [] ys h k = k
All-append P (x ∷ xs) ys h k = (h.0, All-append P xs ys h.1 k)

check_evidence-none :
    (ids seen : List Str) (e : BreakingEvidence) (es : List BreakingEvidence)
    → check_evidence ids seen (e ∷ es) ≡ none
    → (e.id == lit "none") ≡ false
unfolding check_evidence invalid_evidence
check_evidence-none ids seen e es h = ground arith

check_evidence-IsNamed :
    (ids seen : List Str) (es : List BreakingEvidence)
    → check_evidence ids seen es ≡ none
    → All IsNamed es
unfolding check_evidence invalid_evidence
check_evidence-IsNamed ids seen [] h = tt
check_evidence-IsNamed ids seen (e ∷ es) h = (
  λ p. false≢true (sym (check_evidence-none ids seen e es h) ∙ (==_iff e.id (lit "none")).1 p),
  check_evidence-IsNamed ids (e.id ∷ seen) es (ground arith),
)

pub host_evidence_error-IsNamed :
    (ids : List Str) (es : List BreakingEvidence)
    → host_evidence_error ids es ≡ none
    → All IsNamed es
unfolding host_evidence_error
host_evidence_error-IsNamed ids es h = check_evidence-IsNamed ids [] es h

abbrev first_byte : Str → ℕ
first_byte [] = 0
first_byte (c ∷ s) = c

abbrev nonzero : ¬ (◌≡◌ {A = ℕ} b'g' b'n')
nonzero h = absurd (omega arith)

block_evidence-IsNamed :
    (decimal : ℕ → Str) (files : List (Str × InputFile)) (path : Str) (g : GroupingFile)
    (bs : List ChangeBlock)
    → All IsNamed (block_evidence decimal files path g bs)
unfolding block_evidence
block_evidence-IsNamed decimal files path g [] = tt
block_evidence-IsNamed decimal files path g (b ∷ bs) =
    (λ h. nonzero (ap first_byte h), block_evidence-IsNamed decimal files path g bs)

pub git_evidence-IsNamed :
    (decimal : ℕ → Str) (files ls : List (Str × InputFile)) (gs : List GroupingFile)
    → All IsNamed (git_evidence decimal files ls gs)
unfolding git_evidence
git_evidence-IsNamed decimal files ls [] = tt
git_evidence-IsNamed decimal files [] (g ∷ gs) = tt
git_evidence-IsNamed decimal files (l ∷ ls) (g ∷ gs) =
    All-append IsNamed (block_evidence decimal files (candidate_path l.1) g g.change_blocks) _
      (block_evidence-IsNamed decimal files (candidate_path l.1) g g.change_blocks)
      (git_evidence-IsNamed decimal files ls gs)

applicable-named :
    (all : List BreakingEvidence) (ids : List Str)
    → All IsNamed all
    → contains (applicable all ids) (lit "none") ≡ false
unfolding applicable
applicable-named [] ids h = refl
applicable-named (e ∷ es) ids h = elim (Bool-cases (applies ids e.file_ids)) [
  | inl a ↦ rw (a, ne→== (lit "none") e.id (λ p. h.0 (sym p))) (applicable-named es ids h.1)
  | inr a ↦ rw a (applicable-named es ids h.1)
]

applicable-applies :
    (all : List BreakingEvidence) (ids : List Str) (e : BreakingEvidence)
    → Mem e all
    → applies ids e.file_ids ≡ true
    → contains (applicable all ids) e.id ≡ true
unfolding applicable
applicable-applies [] ids e m h = absurd (not-mem-nil m)
applicable-applies (d ∷ es) ids e m h =
    Or.elim (Bool-set _ _) (mem-cons.0 m) (λ p. ground (arith, p, ==_refl e.id))
      (λ later. ground (arith, applicable-applies es ids e later h))

any_confirmed-contains :
    (host_ids ids : List Str) (id : Str)
    → contains ids id ≡ true
    → contains host_ids id ≡ true
    → any_confirmed host_ids ids ≡ true
unfolding any_confirmed
any_confirmed-contains host_ids [] id h k = cc
any_confirmed-contains host_ids (i ∷ ids) id h k = elim (Bool-cases (contains ids id)) [
  | inl later ↦ ground (arith, any_confirmed-contains host_ids ids id later k)
  | inr n ↦ ground (arith, (==_iff id i).0)
]

map-contains :
    (host : List BreakingEvidence) (e : BreakingEvidence)
    → Mem e host
    → contains (map (λ d. d.id) host) e.id ≡ true
map-contains [] e m = absurd (not-mem-nil m)
map-contains (d ∷ ds) e m =
    Or.elim (Bool-set _ _) (mem-cons.0 m) (λ p. ground (arith, p, ==_refl e.id))
      (λ later. ground (arith, map-contains ds e later))

module _ (host git : List BreakingEvidence) where
  allowed_references-none :
      (ids : List Str)
      → any_confirmed (map (λ d. d.id) host) (applicable (host ++ git) ids) ≡ true
      → contains (applicable (host ++ git) ids) (lit "none") ≡ false
      → contains (allowed_references host (host ++ git) ids) (lit "none") ≡ false
  unfolding allowed_references str_eq
  allowed_references-none ids confirmed free = rw (confirmed, free) refl

  pub allowed_references-named :
      (ids : List Str) (reference : Str) (e : BreakingEvidence)
      → All IsNamed (host ++ git)
      → contains (allowed_references host (host ++ git) ids) reference ≡ true
      → Mem e host
      → applies ids e.file_ids ≡ true
      → (reference == lit "none") ≡ false
  unfolding allowed_references
  allowed_references-named ids reference e named allowed m h =
      let all = host ++ git in
      let confirmed : any_confirmed (map (λ d. d.id) host) (applicable all ids) ≡ true =
        any_confirmed-contains (map (λ d. d.id) host) (applicable all ids) e.id
          (applicable-applies all ids e (mem-append.1 (Or.inl m)) h) (map-contains host e m) in
      let free = applicable-named all ids named in
      elim (Bool-cases (reference == lit "none")) [
        | inr good ↦ good
        | inl bad ↦ absurd (
            false≢true (
              sym (allowed_references-none ids confirmed free)
              ∙ subst (λ r. contains (allowed_references host all ids) r ≡ true)
                  ((==_iff reference (lit "none")).0 bad) allowed))
      ]
