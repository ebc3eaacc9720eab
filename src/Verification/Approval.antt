-- ===== src/Verification/Approval.antt =====
-- internal/verification/approval.go: `Authorize`, over the trust store.
pub mod Remembered
use commiter_cli.Base.{Bool, true, false, List, Option, none, some, if◌then◌else◌}
use commiter_cli.Base.Result.{Result, ok, err}
use commiter_cli.Base.Str.{Str, lit}
use commiter_cli.Trust.Store.{Storage, Entry, matches, approve}
use commiter_cli.Verification.Definition.{Definition, Encoding, hash, argvs}

-- `ApprovalRequest`: the definition is a copy, which the callback cannot change.
pub record ApprovalRequest : Type 0 where
  pub definition : Definition
  pub hash : Str

abbrev pub not_approved : Str
not_approved = lit "verification definition was not approved"

-- The callback: its answer, or its error.
abbrev pub Confirm : Type 0
Confirm = ApprovalRequest → Result Bool

module _ (S : Storage) (E : Encoding) where
  -- What follows the answer.
  unfoldable pub remember : S.Disk → Str → Definition → Str → Result Bool → S.Disk × Result Bool
  remember d repo definition h (err m) = (d, err m)
  remember d repo definition h (ok false) = (d, err not_approved)
  remember d repo definition h (ok true) = approve S d (record {
    repo_path = repo;
    definition_hash = h;
    source_type = definition.source_type;
    commands = argvs definition;
  })

  unfoldable pub ask_approval :
      S.Disk → Str → Definition → Str → Option Confirm → S.Disk × Result Bool
  unfolding remember
  ask_approval d repo definition h none = (d, err (lit "approval callback is required"))
  ask_approval d repo definition h (some confirm) =
      remember d repo definition h (confirm (record { definition = definition; hash = h }))

  unfoldable pub unless_matched :
      S.Disk → Str → Definition → Str → Option Confirm → Result Bool → S.Disk × Result Bool
  unfolding ask_approval
  unless_matched d repo definition h confirm (err m) = (d, err m)
  unless_matched d repo definition h confirm (ok true) = (d, ok true)
  unless_matched d repo definition h confirm (ok false) = ask_approval d repo definition h confirm

  unfoldable pub with_hash :
      S.Disk → Str → Definition → Option Confirm → Result Str → S.Disk × Result Bool
  unfolding unless_matched
  with_hash d repo definition confirm (err m) = (d, err m)
  with_hash d repo definition confirm (ok h) =
      unless_matched d repo definition h confirm (matches S d repo h)

  -- `Authorize`: `ok true` where the source returns no error.
  unfoldable pub authorize :
      S.Disk → Str → Option Definition → Option Confirm → S.Disk × Result Bool
  unfolding with_hash
  authorize d repo none confirm = (d, ok true)
  authorize d repo (some definition) confirm =
      with_hash d repo definition confirm (hash E definition)
