-- ===== src/Glob/Words.antt =====
-- The paths that a pattern of util/glob.ts with no `**` stands for.
use mathlib.Core.List.{append-nil, append_assoc}
use urateam.Prelude.{
  ℕ, ◌≡◌, ◌≢◌, refl, ap, sym, subst, ◌∙◌, ◌↔◌, ◌⊎◌, inl, inr, false, List, [], ◌∷◌, ◌++◌, map,
  arith, ◌==◌, Bool-cases,
}
use urateam.Glob.{Token, single, not_slash}
use urateam.Glob.Language.{Lang, Then, Denotes, Each}
use urateam.Glob.Compile.{NoDeep}

-- What one unit of a pattern stands for: `*` for units of one segment, `?` for one such unit, and any
-- other for itself.
abbrev pub Stands : ℕ → List ℕ → Type 0
Stands c u =
    ((c ≡ b'*') × Each not_slash u)
    ⊎ ((c ≡ b'?') × ((d : ℕ) × (u ≡ d ∷ []) × (d ≢ b'/')))
    ⊎ ((c ≢ b'*') × (c ≢ b'?') × (u ≡ c ∷ []))

-- The paths of a pattern without `**`: the pieces that its units stand for, one after the other.
abbrev pub Fits : List ℕ → List ℕ → Type 0
Fits [] s = s ≡ []
Fits (c ∷ p) s = Then (Stands c) (Fits p) s

single-Stands : (c : ℕ) (u : List ℕ) → c ≢ 0 → Denotes (single c) u → Stands c u
unfolding single
single-Stands c u h d = elim (Bool-cases (c == b'*')) [
  | inl e ↦ inl (ground arith, rw e at d)
  | inr f ↦ elim (Bool-cases (c == b'?')) [
    | inl e ↦ let (x, cut, ok) = rw (f, e) at d in inr (inl (ground arith, (x, cut, ground arith)))
    | inr g ↦
        let zero_no : (c == 0) ≡ false = ground arith in
        inr (inr (ground arith, ground arith, rw (f, g, zero_no) at d))
  ]
]

Stands-single : (c : ℕ) (u : List ℕ) → c ≢ 0 → Stands c u → Denotes (single c) u
unfolding single
Stands-single c u h (inl (e, each)) = rw e each
Stands-single c u h (inr (inl (e, (x, cut, ok)))) = rw e (x, cut, ground arith)
Stands-single c u h (inr (inr (f, g, cut))) =
    let star_no : (c == b'*') ≡ false = ground arith in
    let one_no : (c == b'?') ≡ false = ground arith in
    let zero_no : (c == 0) ≡ false = ground arith in rw (star_no, one_no, zero_no) cut

NoDeep-head : (c : ℕ) (p : List ℕ) → NoDeep (c ∷ p) → c ≢ 0
NoDeep-head c [] h = h
NoDeep-head c (d ∷ p) h = h.0

NoDeep-rest : (c : ℕ) (p : List ℕ) → NoDeep (c ∷ p) → NoDeep p
NoDeep-rest c [] h = tt
NoDeep-rest c (d ∷ p) h = h.2

pub Lang-singles :
    (p : List ℕ) (ts : List Token) (s : List ℕ)
    → NoDeep p
    → Lang (map single p ++ ts) s
    → Then (Fits p) (Lang ts) s
Lang-singles [] ts s h l = ([], s, refl, refl, l)
Lang-singles (c ∷ p) ts s h (u, v, cut, d, rest) =
    let (w, x, cut', fits, l) = Lang-singles p ts v (NoDeep-rest c p h) rest in
    (
      u ++ w,
      x,
      cut ∙ ap (λ r. u ++ r) cut' ∙ sym (append_assoc u w x),
      (u, w, refl, single-Stands c u (NoDeep-head c p h) d, fits),
      l,
    )

pub singles-Lang :
    (p : List ℕ) (ts : List Token) (s : List ℕ)
    → NoDeep p
    → Then (Fits p) (Lang ts) s
    → Lang (map single p ++ ts) s
singles-Lang [] ts s h (u, v, cut, empty, l) =
    subst (Lang ts) (sym (cut ∙ ap (λ r. r ++ v) empty)) l
singles-Lang (c ∷ p) ts s h (u, v, cut, (a, b, cut', d, fits), l) = (
  a,
  b ++ v,
  cut ∙ ap (λ r. r ++ v) cut' ∙ append_assoc a b v,
  Stands-single c a (NoDeep-head c p h) d,
  singles-Lang p ts (b ++ v) (NoDeep-rest c p h) (b, v, refl, fits, l),
)

-- A pattern of single units, alone.
pub Lang-single_iff : (p s : List ℕ) → NoDeep p → Lang (map single p) s ↔ Fits p s
Lang-single_iff p s h = (
  λ l.
      let (u, v, cut, fits, empty) =
        Lang-singles p [] s h (subst (λ t. Lang t s) (sym (append-nil (map single p))) l) in
      subst (Fits p) (sym (cut ∙ ap (λ r. u ++ r) empty ∙ append-nil u)) fits,
  λ fits.
      subst (λ t. Lang t s) (append-nil (map single p))
        (singles-Lang p [] s h (s, [], sym (append-nil s), fits, refl)),
)
