-- ===== src/Updatecheck/Tests.antt =====
-- Versions that the comparison is tried on.
use commiter_cli.Base.{◌≡◌, refl, [], ◌∷◌}
use commiter_cli.Base.Int.{pos}
use commiter_cli.Base.Str.{lit, str_eq, str_lt, split, split_n, cut_byte, trim_prefix, any}
use commiter_cli.Base.Atoi.{atoi}
use commiter_cli.Updatecheck.Version.{
  flip, SemanticVersion, parse_version, compare, newer, when_greater,
}
use commiter_cli.Updatecheck.Order.{compare-flip, newer-asymmetric}

abbrev release : SemanticVersion
release = record { major = pos 1; minor = pos 2; patch = pos 0; prerelease = [] }

abbrev candidate : SemanticVersion
candidate = record release { prerelease = lit "rc" ∷ lit "2" ∷ [] }

released : newer (lit "v1.2.0-rc.2") (lit "v1.2.0") ≡ lit "v1.2.0"
unfolding newer when_greater compare parse_version str_eq str_lt atoi split split_n cut_byte
    trim_prefix any
released = refl

-- The dash of a build is taken for the start of a prerelease, so the version is behind its release.
dash_in_build : newer (lit "1.2.0+build-5") (lit "1.2.0") ≡ lit "1.2.0"
unfolding newer when_greater compare parse_version str_eq str_lt atoi split split_n cut_byte
    trim_prefix any
dash_in_build = refl

compare-flip_example : compare candidate release ≡ flip (compare release candidate)
compare-flip_example = compare-flip release candidate

reported : ¬ (newer (lit "v1.2.0-rc.2") (lit "v1.2.0") ≡ [])
reported h = cc (released, h)

newer-asymmetric_example : newer (lit "v1.2.0") (lit "v1.2.0-rc.2") ≡ []
newer-asymmetric_example = newer-asymmetric (lit "v1.2.0-rc.2") (lit "v1.2.0") reported
