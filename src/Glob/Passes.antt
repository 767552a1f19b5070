-- ===== src/Glob/Passes.antt =====
-- The passes of util/glob.ts on a pattern with one `**`, beside patterns that have none.
use urateam.Prelude.{ℕ, ◌≡◌, refl, ap, ◌∙◌, false, List, [], ◌∷◌, ◌++◌, map, arith}
use urateam.Glob.{
  Token, lit, deep, mid, lead, trail, is_deep, single, tokens, replace_mid, replace_lead,
  replace_trail, compile,
}
use urateam.Glob.Compile.{
  NoDeep, Shallow, NoDeep-Shallow, tokens-NoDeep, replace_mid-Shallow, replace_lead-Shallow,
  replace_trail-Shallow, replace_deep-Shallow, replace_mid-deep,
}

-- A slash ends what is read of the pattern before it.
tokens-slash :
    (p r : List ℕ) → NoDeep p → tokens (p ++ b'/' ∷ r) ≡ map single p ++ tokens (b'/' ∷ r)
unfolding tokens
tokens-slash [] r h = refl
tokens-slash (c ∷ []) r h = ground arith
tokens-slash (c ∷ d ∷ p) r h = ground (arith, tokens-slash (d ∷ p) r h.2)

Shallow-append : (xs ys : List Token) → Shallow xs → Shallow ys → Shallow (xs ++ ys)
Shallow-append [] ys h k = k
Shallow-append (x ∷ xs) ys (e, h) k = (e, Shallow-append xs ys h k)

NoDeep-slash : (q : List ℕ) → NoDeep q → NoDeep (b'/' ∷ q)
NoDeep-slash [] h = omega arith
NoDeep-slash (c ∷ q) h = (omega arith, λ e. absurd (omega (arith, e)), h)

tokens-deep : (r : List ℕ) → tokens (b'*' ∷ b'*' ∷ r) ≡ deep ∷ tokens r
unfolding tokens
tokens-deep r = refl

single-slash : single b'/' ≡ lit b'/'
unfolding single
single-slash = refl

tokens-slash_after : (q : List ℕ) → NoDeep q → tokens (b'/' ∷ q) ≡ lit b'/' ∷ map single q
tokens-slash_after q h =
    tokens-NoDeep (b'/' ∷ q) (NoDeep-slash q h) ∙ ap (λ t. t ∷ map single q) single-slash

tokens-slash_deep : (r : List ℕ) → tokens (b'/' ∷ b'*' ∷ b'*' ∷ r) ≡ lit b'/' ∷ deep ∷ tokens r
unfolding tokens
tokens-slash_deep r = ground arith

-- A token before one that is no `**` is left alone.
replace_mid-skip :
    (a b : Token) (ts : List Token)
    → is_deep b ≡ false
    → replace_mid (a ∷ b ∷ ts) ≡ a ∷ replace_mid (b ∷ ts)
unfolding replace_mid
replace_mid-skip a b [] h = refl
replace_mid-skip a b (c ∷ ts) h = ground arith

replace_mid-trailing :
    (xs : List Token)
    → Shallow xs
    → replace_mid (xs ++ lit b'/' ∷ deep ∷ []) ≡ xs ++ lit b'/' ∷ deep ∷ []
unfolding replace_mid
replace_mid-trailing [] h = refl
replace_mid-trailing (a ∷ []) h = ground arith
replace_mid-trailing (a ∷ b ∷ xs) h =
    replace_mid-skip a b _ h.1.0 ∙ ap (λ r. a ∷ r) (replace_mid-trailing (b ∷ xs) h.1)

replace_mid-inner :
    (xs ys : List Token)
    → Shallow xs
    → Shallow ys
    → replace_mid (xs ++ lit b'/' ∷ deep ∷ lit b'/' ∷ ys) ≡ xs ++ mid ∷ ys
unfolding replace_mid
replace_mid-inner [] ys h k = ap (λ r. mid ∷ r) (replace_mid-Shallow ys k)
replace_mid-inner (a ∷ []) ys h k =
    replace_mid-skip a (lit b'/') (deep ∷ lit b'/' ∷ ys) refl
    ∙ ap (λ r. a ∷ mid ∷ r) (replace_mid-Shallow ys k)
replace_mid-inner (a ∷ b ∷ xs) ys h k =
    replace_mid-skip a b _ h.1.0 ∙ ap (λ r. a ∷ r) (replace_mid-inner (b ∷ xs) ys h.1 k)

replace_lead-trailing :
    (xs : List Token)
    → Shallow xs
    → replace_lead (xs ++ lit b'/' ∷ deep ∷ []) ≡ xs ++ lit b'/' ∷ deep ∷ []
unfolding replace_lead
replace_lead-trailing [] h = refl
replace_lead-trailing (a ∷ []) h = ground arith
replace_lead-trailing (a ∷ b ∷ xs) h = ground arith

replace_trail-trailing :
    (xs : List Token) → replace_trail (xs ++ lit b'/' ∷ deep ∷ []) ≡ xs ++ trail ∷ []
unfolding replace_trail
replace_trail-trailing [] = refl
replace_trail-trailing (a ∷ []) = refl
replace_trail-trailing (a ∷ b ∷ []) = refl
replace_trail-trailing (a ∷ b ∷ c ∷ xs) = ap (λ r. a ∷ r) (replace_trail-trailing (b ∷ c ∷ xs))

-- `p/**`
pub compile-trailing :
    (p : List ℕ) → NoDeep p → compile (p ++ b'/' ∷ b'*' ∷ b'*' ∷ []) ≡ map single p ++ trail ∷ []
unfolding compile tokens
compile-trailing p h =
    let plain = NoDeep-Shallow p h in
    rw
      (
        tokens-slash p (b'*' ∷ b'*' ∷ []) h,
        tokens-slash_deep [],
        replace_mid-trailing (map single p) plain,
        replace_lead-trailing (map single p) plain,
        replace_trail-trailing (map single p),
      )
      (replace_deep-Shallow (map single p ++ trail ∷ [])
        (Shallow-append (map single p) (trail ∷ []) plain (refl, tt)))

-- `**/q`
pub compile-leading :
    (q : List ℕ) → NoDeep q → compile (b'*' ∷ b'*' ∷ b'/' ∷ q) ≡ lead ∷ map single q
unfolding compile replace_lead
compile-leading q h =
    let plain = NoDeep-Shallow q h in
    rw
      (
        tokens-deep (b'/' ∷ q),
        tokens-slash_after q h,
        replace_mid-deep (lit b'/' ∷ map single q) (refl, plain),
        replace_trail-Shallow (lead ∷ map single q) (refl, plain),
      )
      (replace_deep-Shallow (lead ∷ map single q) (refl, plain))

-- `p/**/q`
pub compile-inner :
    (p q : List ℕ)
    → NoDeep p
    → NoDeep q
    → compile (p ++ b'/' ∷ b'*' ∷ b'*' ∷ b'/' ∷ q) ≡ map single p ++ mid ∷ map single q
unfolding compile
compile-inner p q h k =
    let before = NoDeep-Shallow p h in
    let after = NoDeep-Shallow q k in
    let all = Shallow-append (map single p) (mid ∷ map single q) before (refl, after) in
    rw
      (
        tokens-slash p (b'*' ∷ b'*' ∷ b'/' ∷ q) h,
        tokens-slash_deep (b'/' ∷ q),
        tokens-slash_after q k,
        replace_mid-inner (map single p) (map single q) before after,
        replace_lead-Shallow (map single p ++ mid ∷ map single q) all,
        replace_trail-Shallow (map single p ++ mid ∷ map single q) all,
      )
      (replace_deep-Shallow (map single p ++ mid ∷ map single q) all)
