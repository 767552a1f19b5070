-- ===== src/Glob/Compile.antt =====
-- What the chain of `replace` calls of util/glob.ts makes of a pattern.
use urateam.Prelude.{
  ℕ, ◌≡◌, refl, ap, ◌≢◌, false, List, [], ◌∷◌, ◌++◌, map, arith, All, if◌then◌else◌,
}
use urateam.Glob.{
  Token, deep, dots, is_deep, single, tokens, replace_mid, replace_lead, replace_trail,
  replace_deep, compile,
}

-- No `**`, and no U+0000.
abbrev pub NoDeep : List ℕ → Type 0
NoDeep [] = Unit
NoDeep (c ∷ []) = c ≢ 0
NoDeep (c ∷ d ∷ cs) = (c ≢ 0) × ((c ≡ b'*') → (d ≢ b'*')) × NoDeep (d ∷ cs)

abbrev pub Shallow : List Token → Type 0
Shallow ts = All (λ t. is_deep t ≡ false) ts

pub tokens-NoDeep : (p : List ℕ) → NoDeep p → tokens p ≡ map single p
unfolding tokens
tokens-NoDeep [] h = refl
tokens-NoDeep (c ∷ []) h = refl
tokens-NoDeep (c ∷ d ∷ cs) h = ground (arith, tokens-NoDeep (d ∷ cs) h.2)

pub NoDeep-Shallow : (p : List ℕ) → NoDeep p → Shallow (map single p)
unfolding single
NoDeep-Shallow [] h = tt
NoDeep-Shallow (c ∷ []) h = ground arith
NoDeep-Shallow (c ∷ d ∷ cs) h = (ground arith, NoDeep-Shallow (d ∷ cs) h.2)

pub replace_mid-Shallow : (ts : List Token) → Shallow ts → replace_mid ts ≡ ts
unfolding replace_mid
replace_mid-Shallow [] h = refl
replace_mid-Shallow (a ∷ []) h = refl
replace_mid-Shallow (a ∷ b ∷ []) h = refl
replace_mid-Shallow (a ∷ b ∷ c ∷ ts) h = ground (arith, replace_mid-Shallow (b ∷ c ∷ ts) h.1)

pub replace_lead-Shallow : (ts : List Token) → Shallow ts → replace_lead ts ≡ ts
unfolding replace_lead
replace_lead-Shallow [] h = refl
replace_lead-Shallow (a ∷ []) h = refl
replace_lead-Shallow (a ∷ b ∷ ts) h = ground arith

pub replace_trail-Shallow : (ts : List Token) → Shallow ts → replace_trail ts ≡ ts
unfolding replace_trail
replace_trail-Shallow [] h = refl
replace_trail-Shallow (a ∷ []) h = refl
replace_trail-Shallow (a ∷ b ∷ []) h = ground arith
replace_trail-Shallow (a ∷ b ∷ c ∷ ts) h = ap (λ r. a ∷ r) (replace_trail-Shallow (b ∷ c ∷ ts) h.1)

pub replace_deep-Shallow : (ts : List Token) → Shallow ts → replace_deep ts ≡ ts
unfolding replace_deep
replace_deep-Shallow [] h = refl
replace_deep-Shallow (t ∷ ts) h = ground (arith, replace_deep-Shallow ts h.1)

-- Without `**` every unit is compiled by itself.
pub compile-NoDeep : (p : List ℕ) → NoDeep p → compile p ≡ map single p
unfolding compile
compile-NoDeep p h = rw (tokens-NoDeep p h) (
    let s = NoDeep-Shallow p h in
    rw (
      replace_mid-Shallow (map single p) s,
      replace_lead-Shallow (map single p) s,
      replace_trail-Shallow (map single p) s,
      replace_deep-Shallow (map single p) s,
    ))

pub replace_deep-append :
    (ts us : List Token) → replace_deep (ts ++ us) ≡ replace_deep ts ++ replace_deep us
unfolding replace_deep
replace_deep-append [] us = refl
replace_deep-append (t ∷ ts) us =
    ap (λ r. (if is_deep t then dots else t) ∷ r) (replace_deep-append ts us)

pub replace_mid-deep : (ts : List Token) → Shallow ts → replace_mid (deep ∷ ts) ≡ deep ∷ ts
unfolding replace_mid
replace_mid-deep [] h = refl
replace_mid-deep (a ∷ []) h = refl
replace_mid-deep (a ∷ b ∷ ts) h = ap (λ r. deep ∷ r) (replace_mid-Shallow (a ∷ b ∷ ts) h)
