-- ===== src/Interaction/Push/Sends.antt =====
-- internal/pushexec/executor.go: what the one call of Git says, as Git reads its arguments.
use commiter_cli.Base.{
  Bool, true, false, not, ◌||◌, List, [], ◌∷◌, ◌++◌, Option, none, some, ◌≡◌, ◌≢◌, refl, arith,
  if◌then◌else◌, ◌==◌, Bool-cases, Option-cases, is_nil, is_nil-false, inl, inr,
}
use commiter_cli.Base.Str.{Str, lit, str_eq, has_prefix, cut_byte}
use commiter_cli.Interaction.PushTarget.{PushTarget}
use commiter_cli.Interaction.Push.{
  PushHost, Pushed, pushed, push_failed, push_interrupted, refused, push, push_args,
}

-- The arguments of `git push` as they are read: an argument with a dash in front is an option, up to
-- the argument `--`, behind which all are operands.
pub record Arguments : Type 0 where
  pub options : List Str
  pub operands : List Str

unfoldable pub read_arguments : List Str → Arguments
read_arguments [] = record { options = []; operands = [] }
read_arguments (a ∷ others) =
    let rest = read_arguments others in
    if a == lit "--"
    then record { options = []; operands = others }
    else if has_prefix a (lit "-")
    then record rest { options = a ∷ rest.options }
    else record rest { operands = a ∷ rest.operands }

-- A command line of Git: the directory of `-C`, the command, and its arguments.
pub record CommandLine : Type 0 where
  pub directory : Str
  pub command : Str
  pub arguments : Arguments

unfoldable pub read_command_line : List Str → Option CommandLine
unfolding read_arguments
read_command_line (flag ∷ (directory ∷ (command ∷ others))) =
    if flag == lit "-C"
    then some
        (record { directory = directory; command = command; arguments = read_arguments others })
    else none
read_command_line _ = none

-- The call pushes HEAD to the branch of the target at its remote, and nothing else: both names are
-- operands, whatever they look like, and the only option is the one that sets the upstream.
pub record PushesHead (directory : Str) (t : PushTarget) (args : List Str) : Type 0 where
  pub refspec : Str
  pub reads :
      read_command_line args
      ≡ some (record {
        directory = directory;
        command = lit "push";
        arguments = record {
          options = if t.set_upstream then lit "--set-upstream" ∷ [] else [];
          operands = t.remote ∷ refspec ∷ [];
        };
      })
  pub from_head : cut_byte b':' refspec ≡ some (lit "HEAD", lit "refs/heads/" ++ t.branch)

pub record IsComplete (t : PushTarget) : Type 0 where
  pub resolved : t.resolved ≡ true
  pub remote : t.remote ≢ []
  pub branch : t.branch ≢ []

-- What a result says of the call that was made.
abbrev pub Agrees : PushHost → List Str → Pushed → Type 0
Agrees H args pushed = H.run args ≡ true
Agrees H args push_failed = (H.run args ≡ false) × (H.interrupted ≡ false)
Agrees H args push_interrupted = (H.run args ≡ false) × (H.interrupted ≡ true)
Agrees H args (refused message) = ⊥

-- A result with the calls of Git: it was refused before any call, or there was one.
abbrev pub Sends : PushHost → Str → PushTarget → Pushed × List (List Str) → Type 0
Sends H root t (refused message, calls) = (calls ≡ []) × (IsComplete t → H.absolute root ≡ none)
Sends H root t (result, calls) =
    IsComplete t
    × (directory : Str) × (H.absolute root ≡ some directory)
    × (args : List Str) × (calls ≡ args ∷ [])
    × PushesHead directory t args
    × Agrees H args result

push_args-PushesHead :
    (directory : Str) (t : PushTarget) → PushesHead directory t (push_args directory t)
unfolding push_args read_command_line str_eq has_prefix cut_byte
push_args-PushesHead directory t = record {
  refspec = lit "HEAD:refs/heads/" ++ t.branch;
  reads = go t.set_upstream;
  from_head = refl;
}
  where
    go :
        (b : Bool)
        → read_command_line (
            lit "-C"
            ∷ directory
            ∷ lit "push"
            ∷ ((if b then lit "--set-upstream" ∷ [] else [])
                ++ (lit "--" ∷ t.remote ∷ (lit "HEAD:refs/heads/" ++ t.branch) ∷ [])))
          ≡ some (record {
            directory = directory;
            command = lit "push";
            arguments = record {
              options = if b then lit "--set-upstream" ∷ [] else [];
              operands = t.remote ∷ (lit "HEAD:refs/heads/" ++ t.branch) ∷ [];
            };
          })
    go true = refl
    go false = refl

module _ (H : PushHost) (root : Str) (t : PushTarget) where
  incomplete : (not t.resolved || is_nil t.remote || is_nil t.branch) ≡ true → ¬ IsComplete t
  incomplete e c =
      let r = (is_nil-false t.remote).1 c.remote in
      let b = (is_nil-false t.branch).1 c.branch in absurd (ground (arith, e, r, b, c.resolved))

  complete : (not t.resolved || is_nil t.remote || is_nil t.branch) ≡ false → IsComplete t
  complete e = record {
    resolved = ground (arith, e);
    remote = (is_nil-false t.remote).0 (ground (arith, e));
    branch = (is_nil-false t.branch).0 (ground (arith, e));
  }

  sent :
      (directory : Str)
      → IsComplete t
      → H.absolute root ≡ some directory
      → Sends H root t (
        if H.run (push_args directory t)
            then pushed
            else if H.interrupted
            then push_interrupted
            else push_failed,
        push_args directory t ∷ [],
      )
  sent directory c e = go (H.run (push_args directory t)) refl H.interrupted refl
    where
      go :
          (ran : Bool)
          → H.run (push_args directory t) ≡ ran
          → (late : Bool) → H.interrupted ≡ late
          → Sends H root t (
            if ran then pushed else if late then push_interrupted else push_failed,
            push_args directory t ∷ [],
          )
      go true r late l =
          (c, directory, e, push_args directory t, refl, push_args-PushesHead directory t, r)
      go false r true l =
          (c, directory, e, push_args directory t, refl, push_args-PushesHead directory t, (r, l))
      go false r false l =
          (c, directory, e, push_args directory t, refl, push_args-PushesHead directory t, (r, l))

  -- Every push, however it ends: it is refused, with no call of Git, only for a target that is not
  -- resolved or lacks a name, or a root that cannot be made absolute; otherwise Git was called once,
  -- in that directory, to push HEAD to the target's branch at the target's remote, where the names
  -- are operands whatever they look like, and the result is how that call ended.
  pub push-Sends : Sends H root t (push H root t)
  unfolding push
  push-Sends = elim (Bool-cases (not t.resolved || is_nil t.remote || is_nil t.branch)) [
    | inl e ↦ rw e (refl, λ c. absurd (incomplete e c))
    | inr e ↦ elim (Option-cases (H.absolute root)) [
      | inl n ↦ rw (e, n) (refl, λ c. n)
      | inr (directory, d) ↦ rw (e, d) (sent directory (complete e) d)
    ]
  ]
