-- ===== src/Release/Versioning/Bumps.antt =====
-- How release-manager/versioning.ts raises a version.
use urateam.Prelude.{
  ◌<◌, ◌≡◌, ◌≢◌, refl, sym, ◌∙◌, ◌⊎◌, inl, inr, String, false, Option, none, some, List, [], ◌∷◌,
  arith, if◌then◌else◌, str_eq, eq_iff, Bool-cases, any,
}
use urateam.Release.Versioning.{
  BumpPolicy, by_patch, by_minor, conventional_commits, BumpKind, major_bump, minor_bump,
  patch_bump, Prerelease, Semver, is_breaking, is_feature, detect_kind_from,
  detect_kind_from_commits, apply_bump, kind_of, next_release, next_in, next_version,
}

-- The order of the base versions.
abbrev BaseBefore : Semver → Semver → Type 0
BaseBefore v w =
    (v.major < w.major)
    ⊎ ((v.major ≡ w.major) × ((v.minor < w.minor) ⊎ ((v.minor ≡ w.minor) × (v.patch < w.patch))))

abbrev SameBase : Semver → Semver → Type 0
SameBase v w = (v.major ≡ w.major) × (v.minor ≡ w.minor) × (v.patch ≡ w.patch)

-- A pre-release comes before the release, and before a later one of its channel.
abbrev PreBefore : Option Prerelease → Option Prerelease → Type 0
PreBefore none w = ⊥
PreBefore (some p) none = Unit
PreBefore (some p) (some q) = (p.channel ≡ q.channel) × (p.n < q.n)

-- The precedence of semantic versions, within one channel.
abbrev pub Before : Semver → Semver → Type 0
Before v w = BaseBefore v w ⊎ (SameBase v w × PreBefore v.prerelease w.prerelease)

bump-BaseBefore : (v : Semver) (kind : BumpKind) → BaseBefore v (apply_bump v kind)
bump-BaseBefore v major_bump = inl (omega arith)
bump-BaseBefore v minor_bump = inr (refl, inl (omega arith))
bump-BaseBefore v patch_bump = inr (refl, inr (refl, omega arith))

release-Before :
    (pre : Option Prerelease) (v : Semver) (kind : BumpKind)
    → v.prerelease ≡ pre
    → Before v (next_release pre v kind)
release-Before none v kind e = inl (bump-BaseBefore v kind)
release-Before (some p) v kind e = inr ((refl, refl, refl), rw e tt)

in-Before :
    (pre : Option Prerelease) (channel : String) (v : Semver) (kind : BumpKind)
    → v.prerelease ≡ pre
    → Before v (next_in pre channel v kind)
in-Before none channel v kind e = inl (bump-BaseBefore v kind)
in-Before (some p) channel v kind e = elim (Bool-cases (str_eq p.channel channel)) [
  | inl t ↦ rw (t, e) (inr ((refl, refl, refl), ((eq_iff p.channel channel).0 t, omega arith)))
  | inr f ↦ rw f (inl (bump-BaseBefore v kind))
]

-- The next version comes after the current one, by the precedence of semantic versions, whatever the
-- commits and the channel are.
pub next_version-Before :
    (v : Semver) (kind : BumpKind) (channel : String) → Before v (next_version v kind channel)
unfolding next_version
next_version-Before v kind channel = elim (Bool-cases (str_eq channel "none")) [
  | inl t ↦ rw t (release-Before v.prerelease v kind refl)
  | inr f ↦ rw f (in-Before v.prerelease channel v kind refl)
]

-- The kind does not depend on the order of the commits: it is a major bump where some commit is
-- breaking, else a minor one where some is a feature, else that seen so far.
detect_kind_lem :
    (saw : BumpKind) (commits : List String)
    → detect_kind_from saw commits ≡ (
        if any is_breaking commits
        then major_bump
        else if any is_feature commits
        then minor_bump
        else saw)
unfolding detect_kind_from
detect_kind_lem saw [] = refl
detect_kind_lem saw (c ∷ commits) = elim (Bool-cases (is_breaking c)) [
  | inl t ↦ rw t refl
  | inr f ↦ elim (Bool-cases (is_feature c)) [
    | inl g ↦ rw (f, g, detect_kind_lem minor_bump commits) (ground arith)
    | inr g ↦ rw (f, g, detect_kind_lem saw commits) refl
  ]
]

kept_major :
    (pre : Option Prerelease) (channel : String) (v : Semver) (kind : BumpKind)
    → kind ≢ major_bump
    → ((next_release pre v kind).major ≡ v.major) × ((next_in pre channel v kind).major ≡ v.major)
kept_major none channel v major_bump n = absurd (n refl)
kept_major none channel v minor_bump n = (refl, refl)
kept_major none channel v patch_bump n = (refl, refl)
kept_major (some p) channel v major_bump n = absurd (n refl)
kept_major (some p) channel v minor_bump n = (refl, ground arith)
kept_major (some p) channel v patch_bump n = (refl, ground arith)

minor_at_most :
    (policy : BumpPolicy) (commits : List String)
    → (policy ≢ conventional_commits) ⊎ (any is_breaking commits ≡ false)
    → kind_of policy commits ≢ major_bump
unfolding detect_kind_from_commits
minor_at_most by_patch commits h e = cc
minor_at_most by_minor commits h e = cc
minor_at_most conventional_commits commits (inl n) e = absurd (n refl)
minor_at_most conventional_commits commits (inr f) e = elim (Bool-cases (any is_feature commits)) [
  | inl g ↦ cc (sym (rw (f, g) at (detect_kind_lem patch_bump commits)) ∙ e)
  | inr g ↦ cc (sym (rw (f, g) at (detect_kind_lem patch_bump commits)) ∙ e)
]

-- The major number stays as it is, unless the policy is that of conventional commits and some commit
-- since the last tag is breaking.
next_version-major :
    (policy : BumpPolicy) (commits : List String) (v : Semver) (channel : String)
    → (policy ≢ conventional_commits) ⊎ (any is_breaking commits ≡ false)
    → (next_version v (kind_of policy commits) channel).major ≡ v.major
unfolding next_version detect_kind_from_commits
next_version-major policy commits v channel h =
    let (released, tagged) =
      kept_major v.prerelease channel v (kind_of policy commits) (minor_at_most policy commits h) in
    elim (Bool-cases (str_eq channel "none")) [ inl t ↦ rw t released | inr f ↦ rw f tagged ]
