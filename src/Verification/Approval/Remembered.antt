-- ===== src/Verification/Approval/Remembered.antt =====
-- internal/verification/approval.go: no command is authorized that the user did not approve.
use commiter_cli.Base.{
  Bool, true, false, Option, none, some, ◌≡◌, refl, ap, sym, ◌∙◌, ◌⊎◌, inl, inr, ==_refl,
  Option-cases,
}
use commiter_cli.Base.Result.{Result, ok, err}
use commiter_cli.Base.Str.{Str, str_eq}
use commiter_cli.Trust.Store.{Storage, Entry, matches, approve, approve_at}
use commiter_cli.Trust.Remembers.{approve-matches}
use commiter_cli.Verification.Definition.{Definition, Encoding, hash, argvs}
use commiter_cli.Verification.Approval.{
  Confirm, remember, ask_approval, unless_matched, with_hash, authorize,
}

module _ (S : Storage) (E : Encoding) (d d' : S.Disk) (repo : Str) (definition : Definition) where
  -- How an approval can come about: it was there, or the user gave it now, for this very definition.
  pub Approved : Str → Option Confirm → Type 0
  Approved h confirm =
      ((matches S d repo h ≡ ok true) × (d' ≡ d))
      ⊎ ((c : Confirm) × (confirm ≡ some c)
          × (c (record { definition = definition; hash = h }) ≡ ok true))

  entry : Str → Entry
  entry h = record {
    repo_path = repo;
    definition_hash = h;
    source_type = definition.source_type;
    commands = argvs definition;
  }

  -- An approval that succeeds is found.
  matches-approve :
      (h : Str) → approve S d (entry h) ≡ (d', ok true) → matches S d' repo h ≡ ok true
  unfolding entry approve approve_at
  matches-approve h q = elim (Option-cases (S.canonical repo)) [
    | inl e ↦ absurd (cc (sym (ap (approve_at S d (entry h)) e) ∙ q))
    | inr (c, e) ↦ (approve-matches S d d' (entry h) c e q repo c h e).0 refl ∙ ap ok (==_refl h)
  ]

  remember-ok :
      (h : Str) (r : Result Bool)
      → remember S E d repo definition h r ≡ (d', ok true)
      → (r ≡ ok true) × (matches S d' repo h ≡ ok true)
  unfolding remember entry
  remember-ok h (err m) q = cc
  remember-ok h (ok false) q = cc
  remember-ok h (ok true) q = (refl, matches-approve h q)

  ask_approval-ok :
      (h : Str) (confirm : Option Confirm)
      → ask_approval S E d repo definition h confirm ≡ (d', ok true)
      → (matches S d' repo h ≡ ok true) × Approved h confirm
  unfolding ask_approval Approved
  ask_approval-ok h none q = cc
  ask_approval-ok h (some confirm) q =
      let (e, m) = remember-ok h (confirm (record { definition = definition; hash = h })) q in
      (m, inr (confirm, refl, e))

  unless_matched-ok :
      (h : Str) (confirm : Option Confirm) (r : Result Bool)
      → matches S d repo h ≡ r
      → unless_matched S E d repo definition h confirm r ≡ (d', ok true)
      → (matches S d' repo h ≡ ok true) × Approved h confirm
  unfolding unless_matched Approved
  unless_matched-ok h confirm (err m) e q = cc
  unless_matched-ok h confirm (ok false) e q = ask_approval-ok h confirm q
  unless_matched-ok h confirm (ok true) e q =
      let same : d ≡ d' = ap (λ t. t.0) q in
      (ap (λ x. matches S x repo h) (sym same) ∙ e, inl (e, sym same))

  with_hash-ok :
      (confirm : Option Confirm) (r : Result Str)
      → hash E definition ≡ r
      → with_hash S E d repo definition confirm r ≡ (d', ok true)
      → (h : Str) × (hash E definition ≡ ok h)
        × (matches S d' repo h ≡ ok true)
        × Approved h confirm
  unfolding with_hash
  with_hash-ok confirm (err m) e q = cc
  with_hash-ok confirm (ok h) e q =
      let (m, a) = unless_matched-ok h confirm (matches S d repo h) refl q in (h, e, m, a)

  -- When a definition is authorized, it has a hash, the trust store matches that hash for the repository
  -- from then on, and either it matched before and nothing was written, or the user was asked for
  -- this definition with this hash and agreed.
  pub authorize-Approved :
      (confirm : Option Confirm)
      → authorize S E d repo (some definition) confirm ≡ (d', ok true)
      → (h : Str) × (hash E definition ≡ ok h)
        × (matches S d' repo h ≡ ok true)
        × Approved h confirm
  unfolding authorize
  authorize-Approved confirm q = with_hash-ok confirm (hash E definition) refl q
