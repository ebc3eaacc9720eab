-- ===== src/Base/FilePaths.antt =====
-- Package path/filepath, symbolic links and the kinds of files, as the program asks for them: none
-- is an error.
use mathlib.Core.Bool.{Bool}
use mathlib.Core.Option.{Option}
use commiter_cli.Base.Str.{Str}

pub record FilePaths : Type 0 where
  pub abs : Str → Option Str
  pub is_abs : Str → Bool
  pub join : Str → Str → Str
  pub eval_symlinks : Str → Option Str
  pub is_dir : Str → Bool
  pub clean : Str → Str
  pub rel : Str → Str → Option Str
  pub to_slash : Str → Str
