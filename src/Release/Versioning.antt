-- ===== src/Release/Versioning.antt =====
-- release-manager/versioning.ts. A text is scanned by clauses where the source matches a regular
-- expression.
pub mod Bumps
pub mod Digits
pub mod RoundTrip
use Prim.Native.String
use Prim.Native.Char.{Char, code}
use urateam.Prelude.{
  template, ℕ, suc, ◌+◌, ◌-◌, ◌*◌, String, Bool, true, false, ◌||◌, ◌&&◌, not, Option, none, some,
  List, [], ◌∷◌, leb, ◌==◌, if◌then◌else◌, or_else, is_some, str_eq, show,
}

pub data BumpPolicy : Type 0 where
  by_patch by_minor conventional_commits : BumpPolicy

pub data BumpKind : Type 0 where
  major_bump minor_bump patch_bump : BumpKind

pub record Prerelease : Type 0 where
  pub channel : String
  pub n : ℕ

pub record Semver : Type 0 where
  pub major : ℕ
  pub minor : ℕ
  pub patch : ℕ
  pub prerelease : Option Prerelease

abbrev pub is_digit : Char → Bool
is_digit c = leb b'0' (code c) && leb (code c) b'9'

abbrev pub is_lower : Char → Bool
is_lower c = leb b'a' (code c) && leb (code c) b'z'

-- The rest of a text after a prefix.
unfoldable pub strip : String → String → Option String
strip String.[] s = some s
strip (String.◌∷◌ p ps) String.[] = none
strip (String.◌∷◌ p ps) (String.◌∷◌ c s) =
    let rest = strip ps s in if code p == code c then rest else none

-- The longest run of characters that pass the test, and the rest.
unfoldable pub span : (Char → Bool) → String → String × String
span p String.[] = ("", "")
span p (String.◌∷◌ c s) =
    let (run, rest) = span p s in if p c then (String.◌∷◌ c run, rest) else ("", String.◌∷◌ c s)

-- `parseInt(digits, 10)`, from the value of the digits before.
unfoldable pub read_from : ℕ → String → ℕ
read_from value String.[] = value
read_from value (String.◌∷◌ c s) = read_from (10 * value + (code c - b'0')) s

-- `\d+` at the head of a text.
unfoldable pub number : String → Option (ℕ × String)
unfolding span read_from
number s =
    let (digits, rest) = span is_digit s in
    if str_eq digits "" then none else some (read_from 0 digits, rest)

abbrev with_number : {A : Type 0} → Option (ℕ × String) → (ℕ → String → Option A) → Option A
with_number none k = none
with_number (some (value, rest)) k = k value rest

-- A number, the text, and what is made of the rest.
abbrev then_number : {A : Type 0} → Option String → (ℕ → String → Option A) → Option A
then_number none k = none
then_number (some s) k = with_number (number s) k

-- `(?:-([a-z]+)\.(\d+))?$`; the outer option is whether it matches.
unfoldable pub suffix : String → Option (Option Prerelease)
unfolding span
suffix s = if str_eq s "" then some none else elim (strip "-" s) [
  | none ↦ none
  | some t ↦
      let (channel, rest) = span is_lower t in
      if str_eq channel ""
      then none
      else then_number (strip "." rest) (λ n end.
        if str_eq end "" then some (some (record { channel = channel; n = n })) else none)
]

abbrev with_suffix : (major minor patch : ℕ) → Option (Option Prerelease) → Option Semver
with_suffix major minor patch none = none
with_suffix major minor patch (some pre) =
    some (record { major = major; minor = minor; patch = patch; prerelease = pre })

-- The match of the whole expression.
unfoldable pub standard : String → Option Semver
unfolding suffix
standard s = then_number (some s) (λ major rest. then_number (strip "." rest) (λ minor rest'.
    then_number (strip "." rest') (λ patch rest''. with_suffix major minor patch (suffix rest''))))

abbrev pub without_v : String → String
without_v s = or_else (strip "v" s) s

abbrev zero_version : Semver
zero_version = record { major = 0; minor = 0; patch = 0; prerelease = none }

-- `parseSemver` on an absent and on a standard tag; `none` where the source falls back to splitting a
-- malformed one.
unfoldable pub parse_semver : Option String → Option Semver
unfolding standard
parse_semver none = some zero_version
parse_semver (some input) =
    if str_eq input "" then some zero_version else standard (without_v input)

abbrev has_prerelease : Option Semver → Bool
has_prerelease none = false
has_prerelease (some v) = is_some v.prerelease

unfoldable is_prerelease_tag : String → Bool
is_prerelease_tag tag = has_prerelease (standard (without_v tag))

abbrev is_close : Char → Bool
is_close c = code c == b')'

-- `(\([^)]+\))?`: the rest after a scope, or the text itself where it begins with none.
unfoldable pub after_scope : String → Option String
unfolding span
after_scope s = elim (strip "(" s) [
  | none ↦ some s
  | some t ↦
      let (name, rest) = span (λ c. not (is_close c)) t in
      if str_eq name "" then none else strip ")" rest
]

-- The word, a scope, and the mark, at the head of a line.
abbrev subject : String → String → String → Bool
subject word mark line = elim (strip word line) [
  | none ↦ false
  | some rest ↦ elim (after_scope rest) [ none ↦ false | some t ↦ is_some (strip mark t) ]
]

abbrev is_terminator : Char → Bool
is_terminator c = code c == 10 || code c == 13 || code c == 0x2028 || code c == 0x2029

-- Whether some line of a text passes a test on the text from its head on.
unfoldable pub at_some_line : (String → Bool) → (at_head : Bool) → String → Bool
at_some_line test at_head String.[] = at_head && test ""
at_some_line test at_head (String.◌∷◌ c s) =
    (at_head && test (String.◌∷◌ c s)) || at_some_line test (is_terminator c) s

-- `BREAKING_SUBJECT_RE`
abbrev breaking_subject : String → Bool
breaking_subject s =
    subject "feat" "!:" s
    || subject "fix" "!:" s
    || subject "refactor" "!:" s
    || subject "perf" "!:" s

-- `BREAKING_BODY_RE`
unfoldable pub mentions_breaking : String → Bool
unfolding strip
mentions_breaking String.[] = false
mentions_breaking (String.◌∷◌ c s) =
    is_some (strip "BREAKING CHANGE:" (String.◌∷◌ c s)) || mentions_breaking s

abbrev pub is_breaking : String → Bool
is_breaking message = at_some_line breaking_subject true message || mentions_breaking message

abbrev pub is_feature : String → Bool
is_feature message = at_some_line (subject "feat" ":") true message

-- The loop of `detectKindFromCommits`, from what it saw so far.
unfoldable pub detect_kind_from : BumpKind → List String → BumpKind
detect_kind_from saw [] = saw
detect_kind_from saw (message ∷ commits) =
    let rest = detect_kind_from (if is_feature message then minor_bump else saw) commits in
    if is_breaking message then major_bump else rest

unfoldable pub detect_kind_from_commits : List String → BumpKind
detect_kind_from_commits commits = detect_kind_from patch_bump commits

abbrev pub apply_bump : Semver → BumpKind → Semver
apply_bump v major_bump = record { major = v.major + 1; minor = 0; patch = 0; prerelease = none }
apply_bump v minor_bump = record {
  major = v.major;
  minor = v.minor + 1;
  patch = 0;
  prerelease = none;
}
apply_bump v patch_bump = record {
  major = v.major;
  minor = v.minor;
  patch = v.patch + 1;
  prerelease = none;
}

abbrev pub kind_of : BumpPolicy → List String → BumpKind
kind_of by_patch commits = patch_bump
kind_of by_minor commits = minor_bump
kind_of conventional_commits commits = detect_kind_from_commits commits

abbrev first_of : String → Semver → Semver
first_of channel v = record v { prerelease = some (record { channel = channel; n = 1 }) }

-- With the channel "none".
abbrev pub next_release : Option Prerelease → Semver → BumpKind → Semver
next_release none v kind = apply_bump v kind
next_release (some pre) v kind = record v { prerelease = none }

-- With another channel.
abbrev pub next_in : Option Prerelease → String → Semver → BumpKind → Semver
next_in none channel v kind = first_of channel (apply_bump v kind)
next_in (some pre) channel v kind =
    if str_eq pre.channel channel
    then record v { prerelease = some (record { channel = channel; n = pre.n + 1 }) }
    else first_of channel (apply_bump v kind)

unfoldable pub next_version : Semver → BumpKind → (prerelease_channel : String) → Semver
next_version v kind prerelease_channel =
    if str_eq prerelease_channel "none"
    then next_release v.prerelease v kind
    else next_in v.prerelease prerelease_channel v kind

abbrev pub print_suffix : Option Prerelease → List String
print_suffix none = []
print_suffix (some pre) = "-" ∷ pre.channel ∷ "." ∷ show pre.n ∷ []

-- The template of the tag that is returned.
unfoldable pub print_tag : Semver → String
print_tag v =
    String.◌++◌ (template ("v" ∷ show v.major ∷ "." ∷ show v.minor ∷ "." ∷ show v.patch ∷ []))
      (template (print_suffix v.prerelease))

abbrev tag_of : Option Semver → BumpKind → String → Option String
tag_of none kind prerelease_channel = none
tag_of (some v) kind prerelease_channel = some (print_tag (next_version v kind prerelease_channel))

-- The next tag; `none` where the current one is malformed.
unfoldable pub bump_from_config_and_commits :
    Option String → List String → BumpPolicy → (prerelease_channel : String) → Option String
bump_from_config_and_commits current commits policy prerelease_channel =
    tag_of (parse_semver current) (kind_of policy commits) prerelease_channel
