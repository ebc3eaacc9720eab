-- ===== src/Commitexec/Host.antt =====
-- What the executor calls: Git, the index file, and the context's cancellation.
use commiter_cli.Base.{Bool, List, Option}
use commiter_cli.Base.Str.{Str}
use commiter_cli.Gitstate.Types.{Change, Excluded}

-- `World` is the repository with everything around it. A call that fails returns `none`. The bytes of
-- a temporary index file are passed as values.
pub record Host : Type 1 where
  pub World : Type 0
  -- os.ReadFile and os.WriteFile at the path of the index
  pub read_index : World → Option Str
  pub write_index : World → Str → World × Bool
  -- os.CreateTemp, Write and Close beside the index
  pub create_temp : World → World × Bool
  -- `git read-tree HEAD`, `git add -- path`, `git update-index` over a temporary index
  pub read_tree : World → Str → World × Option Str
  pub add_path : World → Str → Str → World × Option Str
  pub remove_entry : World → Str → Str → World × Option Str
  pub cache_entry : World → Str → Str → Str → Str → World × Option Str
  -- `git ls-tree -z HEAD -- path`
  pub ls_tree : World → Str → Option Str
  -- `git rev-parse HEAD`, `git rev-parse hash^`, `git diff-tree ... hash`
  pub read_head : World → Option Str
  pub parent_of : World → Str → Option Str
  pub diff_tree : World → Str → Option Str
  -- `git commit -m message`: whether it succeeded, and what its hooks wrote
  pub commit : World → Str → World × Bool × Str
  -- `ctx.Err() != nil`
  pub interrupted : World → Bool
  -- `gitstate.Collect`
  pub collect : World → List Str → World × Option (List Change × List Excluded)
  -- the writer of the options, if it is set: whether writing succeeded
  pub write_output : Str → Bool
  -- filepath.Abs: whether the root can be made absolute
  pub absolute : Str → Bool
  -- strconv.QuoteToGraphic
  pub quote : Str → Str
