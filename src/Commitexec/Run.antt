-- ===== src/Commitexec/Run.antt =====
-- internal/commitexec/executor.go: errors, and the state that `Execute` and its deferred function
-- share, with a monad of steps that change it and may fail.
use commiter_cli.Base.{ℕ, Bool, List, if◌then◌else◌, []}
use commiter_cli.Base.Str.{Str}
use commiter_cli.Commitexec.Host.{Host}

-- `Error`
pub record CommitError : Type 0 where
  pub code : ℕ
  pub message : Str
  pub commit_hash : Str
  pub paths : List Str
  pub hook_output : Str
  pub restored : Bool

-- An error of type `*Error`, or any other.
pub data Failure : Type 0 where
  classified : CommitError → Failure
  plain : Failure

pub data Outcome (A : Type 0) : Type 0 where
  ok : A → Outcome A
  fail : Failure → Outcome A

abbrev pub exit_safety : ℕ
exit_safety = 7

abbrev pub exit_interrupted : ℕ
exit_interrupted = 130

abbrev pub an_error : ℕ → Str → CommitError
an_error code message = record {
  code = code;
  message = message;
  commit_hash = [];
  paths = [];
  hook_output = [];
  restored = Bool.false;
}

-- `result.Hashes`, `commitCreated`, `committedPaths` and `assigned`, with the world.
pub record Run (H : Host) : Type 0 where
  pub world : H.World
  pub hashes : List Str
  pub created : Bool
  pub committed : List Str
  pub assigned : List Str

abbrev pub M : Host → Type 0 → Type 0
M H A = Run H → Run H × Outcome A

module _ {H : Host} {A B : Type 0} where
  abbrev pub continue : Outcome A → (A → M H B) → M H B
  continue (ok a) f r = f a r
  continue (fail e) f r = (r, fail e)

  infixl 10 ◌>>=◌ ◌>>◌
  unfoldable pub ◌>>=◌ : M H A → (A → M H B) → M H B
  ◌>>=◌ m f r = let (r', a) = m r in continue a f r'

  abbrev pub ◌>>◌ : M H A → M H B → M H B
  m >> n = m >>= λ _. n

module _ {H : Host} {A : Type 0} where
  unfoldable pub raise : Failure → M H A
  raise f r = (r, fail f)

  unfoldable pub safety : Str → M H A
  unfolding raise
  safety message = raise (classified (an_error exit_safety message))

module _ {H : Host} where
  -- The step fails with a classified error unless the test passes.
  unfoldable pub require : Bool → Str → M H Unit
  unfolding safety
  require b message r = if b then (r, ok tt) else safety message r
