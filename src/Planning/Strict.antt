-- ===== src/Planning/Strict.antt =====
-- internal/planning/three_phase.go: `strictCandidateJSON`, which refuses an answer in which an object
-- has the same key twice, at any depth.
pub mod Distinct
use commiter_cli.Base.{
  Bool, true, ◌&&◌, not, List, [], ◌∷◌, Option, none, if◌then◌else◌, contains, ◌>>=◌,
}
use commiter_cli.Base.Str.{Str, str_eq}

-- What the tokens of a `json.Decoder` describe: the keys of an object in their order, repeated ones
-- included.
mutual
  pub data JsonTree : Type 0 where
    json_scalar : JsonTree
    json_array : Elements → JsonTree
    json_object : Members → JsonTree

  pub data Elements : Type 0 where
    no_elements : Elements
    element : JsonTree → Elements → Elements

  pub data Members : Type 0 where
    no_members : Members
    member : Str → JsonTree → Members → Members

-- `walk`, over the keys of an object that were seen.
unfoldable mutual
  pub walk : JsonTree → Bool
  walk json_scalar = true
  walk (json_array xs) = walk_elements xs
  walk (json_object ms) = walk_members [] ms

  pub walk_elements : Elements → Bool
  walk_elements no_elements = true
  walk_elements (element t xs) = walk t && walk_elements xs

  pub walk_members : List Str → Members → Bool
  walk_members seen no_members = true
  walk_members seen (member key t ms) =
      not (contains seen key) && (walk t && walk_members (key ∷ seen) ms)

-- `strictCandidateJSON`: the tokens up to the end of the text, and then the decoding with
-- `DisallowUnknownFields`; none for an error.
unfoldable pub strict_candidate_json :
    {A : Type 0} → (Str → Option JsonTree) → (Str → Option A) → Str → Option A
unfolding walk
strict_candidate_json tokens decode text =
    tokens text >>= λ tree. if walk tree then decode text else none
