-- ===== src/Release/Versioning/RoundTrip.antt =====
-- A tag that is printed is parsed to the version that it was printed from.
use Prim.Native.String
use Prim.Native.String.{char_at}
use text.Mathlib.TextLemmas.{cons-append, nil-append, append-nil, append_assoc}
use urateam.Prelude.{
  ◌≡◌, ◌≢◌, refl, ap, ◌∙◌, String, false, Option, none, some, arith, str_eq, eq_iff, Bool-cases,
  show, template, inl, inr,
}
use urateam.Release.Versioning.{
  Semver, Prerelease, strip, span, is_lower, suffix, standard, parse_semver, print_tag,
  print_suffix,
}
use urateam.Release.Versioning.Digits.{EndsNumber, cons-nonempty, number-show}

-- A channel is a word of lower-case letters.
abbrev pub IsChannel : String → Type 0
IsChannel channel = (span is_lower channel ≡ (channel, "")) × (channel ≢ "")

abbrev pub HasChannel : Option Prerelease → Type 0
HasChannel none = Unit
HasChannel (some pre) = IsChannel pre.channel

-- The tag, with the pieces nested to the right.
abbrev pieces : Semver → String → String
pieces v rest = String.◌++◌ "v" (
    String.◌++◌ (show v.major) (
      String.◌++◌ "."
        (String.◌++◌ (show v.minor) (String.◌++◌ "." (String.◌++◌ (show v.patch) rest)))))

print_tag-pieces : (v : Semver) → print_tag v ≡ pieces v (template (print_suffix v.prerelease))
unfolding print_tag
print_tag-pieces v = simp (append_assoc, append-nil)

dot-cons : (s : String) → String.◌++◌ "." s ≡ String.◌∷◌ (char_at "." 0) s
dot-cons s = cons-append (char_at "." 0) "" s ∙ ap (String.◌∷◌ (char_at "." 0)) (nil-append s)

dash-cons : (s : String) → String.◌++◌ "-" s ≡ String.◌∷◌ (char_at "-" 0) s
dash-cons s = cons-append (char_at "-" 0) "" s ∙ ap (String.◌∷◌ (char_at "-" 0)) (nil-append s)

v-cons : (s : String) → String.◌++◌ "v" s ≡ String.◌∷◌ (char_at "v" 0) s
v-cons s = cons-append (char_at "v" 0) "" s ∙ ap (String.◌∷◌ (char_at "v" 0)) (nil-append s)

dot-EndsNumber : (s : String) → EndsNumber (String.◌++◌ "." s)
unfolding span
dot-EndsNumber s = rw (dot-cons s) refl

dash-EndsNumber : (s : String) → EndsNumber (String.◌++◌ "-" s)
unfolding span
dash-EndsNumber s = rw (dash-cons s) refl

strip_dot : (s : String) → strip "." (String.◌++◌ "." s) ≡ some s
unfolding strip
strip_dot s = rw (dot-cons s) refl

strip_dash : (s : String) → strip "-" (String.◌++◌ "-" s) ≡ some s
unfolding strip
strip_dash s = rw (dash-cons s) refl

strip_v : (s : String) → strip "v" (String.◌++◌ "v" s) ≡ some s
unfolding strip
strip_v s = rw (v-cons s) refl

suffix-EndsNumber : (pre : Option Prerelease) → EndsNumber (template (print_suffix pre))
unfolding span
suffix-EndsNumber none = refl
suffix-EndsNumber (some pre) = dash-EndsNumber _

abbrev tail : String → String
tail String.[] = ""
tail (String.◌∷◌ c s) = s

-- A word of lower-case letters is read up to the dot.
span-channel :
    (channel rest : String)
    → span is_lower channel ≡ (channel, "")
    → span is_lower (String.◌++◌ channel (String.◌++◌ "." rest)) ≡ (channel, String.◌++◌ "." rest)
unfolding span
span-channel String.[] rest h = rw (nil-append (String.◌++◌ "." rest), dot-cons rest) refl
span-channel (String.◌∷◌ c channel) rest h = elim (Bool-cases (is_lower c)) [
  | inl t ↦
      let h' = rw t at h in
      let inner : span is_lower channel ≡ (channel, "") =
        cc (ap (λ p. tail p.0) h', ap (λ p. p.1) h') in
      rw (cons-append c channel (String.◌++◌ "." rest), t, span-channel channel rest inner) refl
  | inr f ↦ absurd (let h' = rw f at h in cc (ap (λ p. p.0) h'))
]

nonempty : (s : String) → s ≢ "" → str_eq s "" ≡ false
nonempty s h = ground (arith, eq_iff s "")

nonempty_dash : (s : String) → str_eq (String.◌++◌ "-" s) "" ≡ false
nonempty_dash s = rw (dash-cons s) (cons-nonempty (char_at "-" 0) s)

nonempty_v : (s : String) → str_eq (String.◌++◌ "v" s) "" ≡ false
nonempty_v s = rw (v-cons s) (cons-nonempty (char_at "v" 0) s)

suffix-print :
    (pre : Option Prerelease) → HasChannel pre → suffix (template (print_suffix pre)) ≡ some pre
unfolding suffix
suffix-print none h = refl
suffix-print (some pre) h =
    let rest = String.◌++◌ pre.channel (String.◌++◌ "." (String.◌++◌ (show pre.n) "")) in
    rw
      (
        nonempty_dash rest,
        strip_dash rest,
        span-channel pre.channel (String.◌++◌ (show pre.n) "") h.0,
        nonempty pre.channel h.1,
        strip_dot (String.◌++◌ (show pre.n) ""),
        number-show pre.n "" refl,
      )
      refl

standard_lem :
    (v : Semver)
    → HasChannel v.prerelease
    → let suf = template (print_suffix v.prerelease) in
      standard (
        String.◌++◌ (show v.major) (
          String.◌++◌ "."
            (String.◌++◌ (show v.minor) (String.◌++◌ "." (String.◌++◌ (show v.patch) suf)))))
      ≡ some v
unfolding standard
standard_lem v h =
    let suf = template (print_suffix v.prerelease) in
    let after_minor = String.◌++◌ "." (String.◌++◌ (show v.patch) suf) in
    let after_major = String.◌++◌ "." (String.◌++◌ (show v.minor) after_minor) in
    rw
      (
        number-show v.major after_major (dot-EndsNumber _),
        strip_dot (String.◌++◌ (show v.minor) after_minor),
        number-show v.minor after_minor (dot-EndsNumber _),
        strip_dot (String.◌++◌ (show v.patch) suf),
        number-show v.patch suf (suffix-EndsNumber v.prerelease),
        suffix-print v.prerelease h,
      )
      refl

-- A version is read back from its tag, where the channel of a pre-release is a word of lower-case
-- letters.
pub parse-print :
    (v : Semver) → HasChannel v.prerelease → parse_semver (some (print_tag v)) ≡ some v
unfolding parse_semver
parse-print v h =
    let suf = template (print_suffix v.prerelease) in
    let after_minor = String.◌++◌ "." (String.◌++◌ (show v.patch) suf) in
    let after_major = String.◌++◌ "." (String.◌++◌ (show v.minor) after_minor) in
    rw
      (
        print_tag-pieces v,
        nonempty_v (String.◌++◌ (show v.major) after_major),
        strip_v (String.◌++◌ (show v.major) after_major),
      )
      (standard_lem v h)
