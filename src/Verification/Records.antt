-- ===== src/Verification/Records.antt =====
-- internal/verification/state.go: the records of the status that `statusFileStates` reads.
use commiter_cli.Base.{List, [], ◌∷◌, Option, none, some, if◌then◌else◌, ◌==◌, contains, option_eq}
use commiter_cli.Base.Result.{Result, ok, err}
use commiter_cli.Base.Str.{Str, lit, str_eq, split_n}
use commiter_cli.Gitstate.Status.{status_name, added, deleted}
use commiter_cli.Gitstate.Types.{ChangeIdentity, identity_eq}

-- A record of the status, read: its path, the path before a rename, and what it identifies.
pub record Visible : Type 0 where
  pub line : Str
  pub path : Str
  pub old_path : Str
  pub identity : ChangeIdentity

unfoldable pub cannot_parse : {A : Type 0} → Result A
cannot_parse = err (lit "cannot parse Git-visible state")

-- A record `? <path>`: none for an untracked file that is no target.
unfoldable pub untracked_record : List Str → Str → Result (Option Visible)
unfolding cannot_parse
untracked_record targets (q ∷ (s ∷ (c ∷ path))) = ok (
    if contains targets (c ∷ path)
    then some (record {
      line = q ∷ (s ∷ (c ∷ path));
      path = c ∷ path;
      old_path = [];
      identity = record { status = added; old_path = []; new_path = c ∷ path };
    })
    else none)
untracked_record targets _ = cannot_parse

unfoldable pub ordinary_record : Str → Result (Option Visible)
unfolding cannot_parse
ordinary_record text = elim (split_n 9 b' ' text) [
  | _ ∷ (xy ∷ (_ ∷ (head_mode ∷ (index_mode ∷ (_ ∷ (_ ∷ (_ ∷ (path ∷ [])))))))) ↦
      let status = status_name xy head_mode index_mode in
      ok (
        some (record {
          line = text;
          path = path;
          old_path = [];
          identity = record {
            status = status;
            old_path = if status == added then [] else path;
            new_path = if status == deleted then [] else path;
          };
        }))
  | _ ↦ cannot_parse
]

unfoldable pub renamed_record : Str → Option Str → Result (Option Visible)
unfolding cannot_parse
renamed_record text next = elim (split_n 10 b' ' text) [
  | _ ∷ (_ ∷ (_ ∷ (_ ∷ (_ ∷ (_ ∷ (_ ∷ (_ ∷ (_ ∷ (path ∷ []))))))))) ↦ elim next [
    | none ↦ cannot_parse
    | some old ↦ ok (
        some (record {
          line = text;
          path = path;
          old_path = old;
          identity = record { status = lit "renamed"; old_path = old; new_path = path };
        }))
  ]
  | _ ↦ cannot_parse
]
