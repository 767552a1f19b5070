-- ===== src/Tests/Versions.antt =====
-- The versions of packages/core/src/release-manager, on a few tags and commits.
use urateam.Prelude.{◌≡◌, ◌≢◌, refl, String, true, none, some, List, [], ◌∷◌, show, show_from}
use urateam.Release.Versioning.{
  by_patch, conventional_commits, minor_bump, patch_bump, Semver, strip, span, read_from, number,
  suffix, standard, parse_semver, after_scope, at_some_line, mentions_breaking, is_breaking,
  detect_kind_from, detect_kind_from_commits, next_version, print_tag, bump_from_config_and_commits,
}
use urateam.Release.Versioning.RoundTrip.{parse-print}
use urateam.Release.Versioning.Bumps.{Before, next_version-Before}

abbrev beta : Semver
beta = record {
  major = 1;
  minor = 12;
  patch = 3;
  prerelease = some (record { channel = "beta"; n = 9 });
}

abbrev commits : List String
commits = "fix: a typo" ∷ "feat(pm): pause" ∷ []

promoted :
    bump_from_config_and_commits (some "v1.12.3-beta.9") commits by_patch "none" ≡ some "v1.12.3"
unfolding bump_from_config_and_commits parse_semver standard number span strip suffix read_from
    next_version print_tag show show_from
promoted = refl

next_beta :
    bump_from_config_and_commits (some "1.12.3-beta.9") commits by_patch "beta"
    ≡ some "v1.12.3-beta.10"
unfolding bump_from_config_and_commits parse_semver standard number span strip suffix read_from
    next_version print_tag show show_from
next_beta = refl

a_feature : detect_kind_from_commits commits ≡ minor_bump
unfolding detect_kind_from_commits detect_kind_from at_some_line mentions_breaking after_scope span
    strip
a_feature = refl

breaking_in_a_body : is_breaking "fix: a\n\nBREAKING CHANGE: b" ≡ true
unfolding at_some_line mentions_breaking after_scope span strip
breaking_in_a_body = refl

malformed : parse_semver (some "v1.2") ≡ none
unfolding parse_semver standard number span strip read_from
malformed = refl

next_version-Before_example : Before beta (next_version beta patch_bump "rc")
next_version-Before_example = next_version-Before beta patch_bump "rc"

not_conventional : by_patch ≢ conventional_commits
not_conventional e = cc

parse-print_example : parse_semver (some (print_tag beta)) ≡ some beta
unfolding span
parse-print_example = parse-print beta (refl, λ e. cc)
