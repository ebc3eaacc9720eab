-- ===== src/Commitexec/Paths.antt =====
-- internal/commitexec/executor.go: paths of changes, sets of paths, and lines of `git ls-tree`.
use commiter_cli.Base.{
  ℕ, Bool, true, not, ◌||◌, ◌&&◌, List, [], ◌∷◌, ◌++◌, Option, none, some, if◌then◌else◌, ◌==◌,
  contains, eqb, is_nil, length,
}
use commiter_cli.Base.Str.{Str, str_eq, sort_strings, cut_byte, trim_suffix, fields_func, split}
use commiter_cli.Base.Sets.{add}
use commiter_cli.Gitstate.Types.{Change, pointer_value}

first_of_each : List Str → List Str → List Str
first_of_each seen [] = []
first_of_each seen (v ∷ vs) =
    let rest = first_of_each (add seen v) vs in if contains seen v then rest else v ∷ rest

-- `unique`
unfoldable pub unique : List Str → List Str
unfolding first_of_each sort_strings
unique values = sort_strings (first_of_each [] values)

option_list : Option Str → List Str
option_list none = []
option_list (some s) = s ∷ []

-- `changePaths` and `stagePaths`
unfoldable pub change_paths : Change → List Str
unfolding unique option_list
change_paths c = unique (option_list c.old_path ++ option_list c.new_path)

-- `changeKey`
unfoldable pub change_key : Change → Str
change_key c = c.status ++ (0 ∷ (pointer_value c.old_path ++ (0 ∷ pointer_value c.new_path)))

all_paths : List Change → List Str
all_paths [] = []
all_paths (c ∷ cs) = change_paths c ++ all_paths cs

-- `allPlannedPaths`
unfoldable pub all_planned_paths : List Change → List Str
unfolding all_paths change_paths
all_planned_paths changes = unique (all_paths changes)

-- `pathSet`: the keys of the map.
unfoldable pub path_set : List Str → List Str
path_set [] = []
path_set (v ∷ vs) = add (path_set vs) v

unfoldable pub subset_of : List Str → List Str → Bool
subset_of [] right = true
subset_of (k ∷ ks) right = contains right k && subset_of ks right

-- `sameSet`
unfoldable pub same_set : List Str → List Str → Bool
unfolding subset_of
same_set left right = eqb (length left) (length right) && subset_of left right

minus : List Str → List Str → List Str
minus [] right = []
minus (k ∷ ks) right = if contains right k then minus ks right else k ∷ minus ks right

-- `symmetricDifference`
unfoldable pub symmetric_difference : List Str → List Str → List Str
unfolding minus sort_strings
symmetric_difference left right = sort_strings (minus left right ++ minus right left)

pub non_empty : List Str → List Str
non_empty [] = []
non_empty (s ∷ ss) = if is_nil s then non_empty ss else s ∷ non_empty ss

-- The parsing part of `commitPaths`: the paths of a NUL-separated listing, as a set.
unfoldable pub parse_paths : Str → List Str
unfolding path_set non_empty split
parse_paths value = path_set (non_empty (split 0 value))

-- White space of an ASCII line, for strings.Fields.
ascii_space : ℕ → Bool
ascii_space c = eqb c 9 || eqb c 10 || eqb c 11 || eqb c 12 || eqb c 13 || eqb c 32

three_fields : List Str → Option (Str × Str)
three_fields (mode ∷ (kind ∷ (object ∷ []))) = some (mode, object)
three_fields _ = none

-- `parseTreeEntry`: the mode and the object of the line for `path`.
unfoldable pub parse_tree_entry : Str → Str → Option (Str × Str)
unfolding three_fields fields_func cut_byte trim_suffix ascii_space
parse_tree_entry entry path = elim (cut_byte 9 (trim_suffix entry (0 ∷ []))) [
  | none ↦ none
  | some (meta, name) ↦
      if not (name == path) then none else three_fields (fields_func ascii_space meta)
]
