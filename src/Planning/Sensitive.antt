-- ===== src/Planning/Sensitive.antt =====
-- internal/planning/sensitive.go: the container of values that must not appear in a plan.
use commiter_cli.Base.{
  Bool, false, not, ◌&&◌, ◌||◌, List, [], ◌∷◌, ◌++◌, if◌then◌else◌, ◌==◌, contains,
}
use commiter_cli.Base.Str.{Str, str_eq, has_infix}

pub record SensitiveValues : Type 0 where
  pub values : List Str

-- `SensitiveValues.Contains`
unfoldable pub contains_value : List Str → Str → Bool
contains_value [] candidate = false
contains_value (v ∷ vs) candidate =
    not (v == []) && has_infix candidate v || contains_value vs candidate

unfoldable pub contains_sensitive : SensitiveValues → Str → Bool
unfolding contains_value
contains_sensitive s candidate = contains_value s.values candidate

-- `addSensitive`: nothing empty is kept, and nothing twice.
unfoldable pub add_sensitive : List Str → Str → List Str
add_sensitive values value =
    if value == [] then values else if contains values value then values else values ++ (value ∷ [])
