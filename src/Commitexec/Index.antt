-- ===== src/Commitexec/Index.antt =====
-- internal/commitexec/executor.go: `stageAssignment` and `restoreOutOfScopeIndex`, which build an
-- index in a temporary file and then write it over the real one.
use commiter_cli.Base.{Bool, false, not, List, [], ◌∷◌, Option, none, some, if◌then◌else◌, is_nil}
use commiter_cli.Base.Str.{Str}
use commiter_cli.Commitexec.Host.{Host}
use commiter_cli.Commitexec.Paths.{unique, parse_tree_entry}

module _ (H : Host) where
  -- `git add` for each path, until one fails.
  add_paths : List Str → Str → H.World → H.World × Option Str
  add_paths [] index w = (w, some index)
  add_paths (p ∷ ps) index w =
      let (w', r) = H.add_path w index p in
      elim r [ none ↦ (w', none) | some index' ↦ add_paths ps index' w' ]

  abbrev write_result : H.World × Option Str → H.World × Bool
  write_result (w, none) = (w, false)
  write_result (w, some index) = H.write_index w index

  staged_index : List Str → Str → H.World → H.World × Option Str
  staged_index paths original w =
      let (w', r) = H.read_tree w original in
      elim r [ none ↦ (w', none) | some index ↦ add_paths (unique paths) index w' ]

  -- `stageAssignment`: the index becomes HEAD with the assigned paths added.
  unfoldable pub stage_assignment : Str → List Str → H.World → H.World × Bool
  unfolding staged_index add_paths
  stage_assignment original paths w =
      let (w1, written) = H.write_index w original in
      if not written
      then (w1, false)
      else let (w2, made) = H.create_temp w1 in
        if not made then (w2, false) else write_result (staged_index paths original w2)

  -- One path of `restoreOutOfScopeIndex`: its entry in HEAD, or no entry.
  retain_path : Str → Str → H.World → H.World × Option Str
  retain_path path index w = elim (H.ls_tree w path) [
    | none ↦ (w, none)
    | some entry ↦
        if is_nil entry then H.remove_entry w index path else elim (parse_tree_entry entry path) [
          | none ↦ (w, none)
          | some (mode, object) ↦ H.cache_entry w index mode object path
        ]
  ]

  retain_paths : List Str → Str → H.World → H.World × Option Str
  retain_paths [] index w = (w, some index)
  retain_paths (p ∷ ps) index w =
      let (w', r) = retain_path p index w in
      elim r [ none ↦ (w', none) | some index' ↦ retain_paths ps index' w' ]

  -- `restoreOutOfScopeIndex`: the original index, with the committed paths as they are in HEAD.
  unfoldable pub restore_outside : Str → List Str → H.World → H.World × Bool
  unfolding retain_path retain_paths
  restore_outside original planned w =
      let (w1, made) = H.create_temp w in
      if made then write_result (retain_paths (unique planned) original w1) else (w1, false)
