-- ===== src/Interaction/Push.antt =====
-- internal/pushexec/executor.go: the one push after a plan was executed.
pub mod Sends
use commiter_cli.Base.{
  Bool, not, ◌||◌, List, [], ◌∷◌, ◌++◌, Option, none, some, if◌then◌else◌, is_nil,
}
use commiter_cli.Base.Str.{Str, lit}
use commiter_cli.Interaction.PushTarget.{PushTarget}

-- filepath.Abs, whether Git succeeds with some arguments, and whether the context ended meanwhile.
pub record PushHost : Type 0 where
  pub absolute : Str → Option Str
  pub run : List Str → Bool
  pub interrupted : Bool

pub data Pushed : Type 0 where
  pushed push_failed push_interrupted : Pushed
  refused : Str → Pushed

unfoldable pub push_args : Str → PushTarget → List Str
push_args root target =
    lit "-C"
    ∷ root
    ∷ lit "push"
    ∷ ((if target.set_upstream then lit "--set-upstream" ∷ [] else [])
        ++ (lit "--" ∷ target.remote ∷ (lit "HEAD:refs/heads/" ++ target.branch) ∷ []))

-- `Execute`: the result, and the calls of Git that were made.
unfoldable pub push : PushHost → Str → PushTarget → Pushed × List (List Str)
unfolding push_args
push H root target =
    if not target.resolved || is_nil target.remote || is_nil target.branch
    then (refused (lit "push target is unresolved; local commits were kept"), [])
    else elim (H.absolute root) [
      | none ↦ (refused (lit "push repository cannot be resolved; local commits were kept"), [])
      | some absolute ↦
          let args = push_args absolute target in
          (
            if H.run args then pushed else if H.interrupted then push_interrupted else push_failed,
            args ∷ [],
          )
    ]
