-- ===== src/Glob/Language.antt =====
-- The language of a token list, and the matcher of util/glob.ts.
use mathlib.Core.List.{append_assoc}
use urateam.Prelude.{
  ℕ, ◌≡◌, refl, ap, ◌∙◌, ◌↔◌, ◌⊎◌, inl, inr, Bool, true, ◌||◌, List, [], ◌∷◌, ◌++◌, arith, ◌==◌,
  All, Bool-cases,
}
use urateam.Glob.{
  Token, lit, one, star, deep, mid, lead, trail, dots, is_dot, not_slash, many, once, slash,
  some_dots, run_token, run,
}

-- Every unit satisfies the test.
abbrev pub Each : (ℕ → Bool) → List ℕ → Type 0
Each p s = All (λ c. p c ≡ true) s

-- `.+`
abbrev pub SomeDots : List ℕ → Type 0
SomeDots [] = ⊥
SomeDots (c ∷ s) = Each is_dot (c ∷ s)

abbrev pub slashed : List ℕ → List ℕ
slashed v = v ++ b'/' ∷ []

-- The texts that a token stands for.
abbrev pub Denotes : Token → List ℕ → Type 0
Denotes (lit c) u = u ≡ c ∷ []
Denotes one u = (c : ℕ) × (u ≡ c ∷ []) × (not_slash c ≡ true)
Denotes star u = Each not_slash u
Denotes deep u = u ≡ 0 ∷ []
Denotes mid u = (u ≡ b'/' ∷ []) ⊎ ((v : List ℕ) × (u ≡ b'/' ∷ slashed v) × SomeDots v)
Denotes lead u = (u ≡ []) ⊎ ((v : List ℕ) × (u ≡ slashed v) × SomeDots v)
Denotes trail u = (u ≡ []) ⊎ ((v : List ℕ) × (u ≡ b'/' ∷ v) × SomeDots v)
Denotes dots u = Each is_dot u

-- A text cut in two: a piece with the property, and a rest that the continuation takes.
abbrev pub Then : (List ℕ → Type 0) → (List ℕ → Type 0) → List ℕ → Type 0
Then D K s = (u : List ℕ) × (v : List ℕ) × (s ≡ u ++ v) × D u × K v

-- The texts that a whole expression stands for.
abbrev pub Lang : List Token → List ℕ → Type 0
Lang [] s = s ≡ []
Lang (t ∷ ts) s = Then (Denotes t) (Lang ts) s

module _ (k : List ℕ → Bool) where
  abbrev Accepts : List ℕ → Type 0
  Accepts s = k s ≡ true

  many_complete : (p : ℕ → Bool) (u v : List ℕ) → Each p u → k v ≡ true → many p k (u ++ v) ≡ true
  unfolding many
  many_complete p [] [] d h = h
  many_complete p [] (x ∷ v) d h = ground arith
  many_complete p (c ∷ u) v d h = ground (arith, many_complete p u v d.1 h)

  many_sound : (p : ℕ → Bool) (s : List ℕ) → many p k s ≡ true → Then (Each p) Accepts s
  unfolding many
  many_sound p [] h = ([], [], refl, tt, h)
  many_sound p (c ∷ s) h = elim (Bool-cases (k (c ∷ s))) [
    | inl e ↦ ([], c ∷ s, refl, tt, e)
    | inr e ↦
        let (u, v, cut, each, rest) = many_sound p s (ground arith) in
        (c ∷ u, v, ap (λ x. c ∷ x) cut, (ground arith, each), rest)
  ]

  once_sound :
      (p : ℕ → Bool) (s : List ℕ)
      → once p k s ≡ true
      → (c : ℕ) × (v : List ℕ) × (s ≡ c ∷ v) × (p c ≡ true) × (k v ≡ true)
  unfolding once
  once_sound p [] h = cc
  once_sound p (c ∷ s) h = (c, s, refl, ground arith, ground arith)

  once_complete :
      (p : ℕ → Bool) (c : ℕ) (v : List ℕ) → p c ≡ true → k v ≡ true → once p k (c ∷ v) ≡ true
  unfolding once
  once_complete p c v h e = ground arith

  slash_sound : (s : List ℕ) → slash k s ≡ true → (v : List ℕ) × (s ≡ b'/' ∷ v) × (k v ≡ true)
  slash_sound s h =
      let (c, v, cut, same, rest) = once_sound (λ c. c == b'/') s h in
      (v, cut ∙ ap (λ x. x ∷ v) (ground arith), rest)

  slash_complete : (v : List ℕ) → k v ≡ true → slash k (b'/' ∷ v) ≡ true
  slash_complete v e = once_complete (λ c. c == b'/') b'/' v refl e

some_dots_sound :
    (k : List ℕ → Bool) (s : List ℕ) → some_dots k s ≡ true → Then SomeDots (λ v. k v ≡ true) s
some_dots_sound k s h =
    let (c, w, cut, dot, rest) = once_sound (many is_dot k) is_dot s h in
    let (u, v, cut', each, rest') = many_sound k is_dot w rest in
    (c ∷ u, v, cut ∙ ap (λ x. c ∷ x) cut', (dot, each), rest')

some_dots_complete :
    (k : List ℕ → Bool) (u v : List ℕ) → SomeDots u → k v ≡ true → some_dots k (u ++ v) ≡ true
some_dots_complete k [] v d h = elim d [ ]
some_dots_complete k (c ∷ u) v d h =
    once_complete (many is_dot k) is_dot c (u ++ v) d.0 (many_complete k is_dot u v d.1 h)

or-cases : (a b : Bool) → (a || b) ≡ true → (a ≡ true) ⊎ (b ≡ true)
or-cases a b h = ground arith

or-left : (a b : Bool) → a ≡ true → (a || b) ≡ true
or-left a b h = ground arith

or-right : (a b : Bool) → b ≡ true → (a || b) ≡ true
or-right a b h = ground arith

run_token_sound :
    (k : List ℕ → Bool) (t : Token) (s : List ℕ)
    → run_token t k s ≡ true
    → Then (Denotes t) (λ v. k v ≡ true) s
unfolding run_token
run_token_sound k (lit c) s h =
    let (x, v, cut, same, rest) = once_sound k (λ x. x == c) s h in
    (x ∷ [], v, cut, ap (λ y. y ∷ []) (ground arith), rest)
run_token_sound k one s h =
    let (x, v, cut, ok, rest) = once_sound k not_slash s h in (x ∷ [], v, cut, (x, refl, ok), rest)
run_token_sound k star s h = many_sound k not_slash s h
run_token_sound k deep s h =
    let (x, v, cut, same, rest) = once_sound k (λ x. x == 0) s h in
    (x ∷ [], v, cut, ap (λ y. y ∷ []) (ground arith), rest)
run_token_sound k mid s h = elim (or-cases _ _ h) [
  | inl e ↦ let (v, cut, rest) = slash_sound k s e in (b'/' ∷ [], v, cut, inl refl, rest)
  | inr e ↦
      let (w, cut, rest) = slash_sound (some_dots (slash k)) s e in
      let (u, x, cut', d, rest') = some_dots_sound (slash k) w rest in
      let (v, cut'', rest'') = slash_sound k x rest' in
      (b'/' ∷ slashed u, v, rw (cut, cut', cut'', append_assoc), inr (u, refl, d), rest'')
]
run_token_sound k lead s h = elim (or-cases _ _ h) [
  | inl e ↦
      let (u, x, cut, d, rest) = some_dots_sound (slash k) s e in
      let (v, cut', rest') = slash_sound k x rest in
      (slashed u, v, rw (cut, cut', append_assoc), inr (u, refl, d), rest')
  | inr e ↦ ([], s, refl, inl refl, e)
]
run_token_sound k trail s h = elim (or-cases _ _ h) [
  | inl e ↦
      let (w, cut, rest) = slash_sound (some_dots k) s e in
      let (u, v, cut', d, rest') = some_dots_sound k w rest in
      (b'/' ∷ u, v, rw (cut, cut'), inr (u, refl, d), rest')
  | inr e ↦ ([], s, refl, inl refl, e)
]
run_token_sound k dots s h = many_sound k is_dot s h

run_token_complete :
    (k : List ℕ → Bool) (t : Token) (u v : List ℕ)
    → Denotes t u
    → k v ≡ true
    → run_token t k (u ++ v) ≡ true
unfolding run_token
run_token_complete k (lit c) u v d h = rw d (once_complete k (λ x. x == c) c v (ground arith) h)
run_token_complete k one u v (c, e, ok) h = rw e (once_complete k not_slash c v ok h)
run_token_complete k star u v d h = many_complete k not_slash u v d h
run_token_complete k deep u v d h = rw d (once_complete k (λ x. x == 0) 0 v refl h)
run_token_complete k mid u v (inl e) h = rw e (or-left _ _ (slash_complete k v h))
run_token_complete k mid u v (inr (w, e, d)) h =
    rw (e, append_assoc)
      (or-right _ _ (
        slash_complete (some_dots (slash k)) (w ++ b'/' ∷ v)
          (some_dots_complete (slash k) w (b'/' ∷ v) d (slash_complete k v h))))
run_token_complete k lead u v (inl e) h = rw e (or-right _ _ h)
run_token_complete k lead u v (inr (w, e, d)) h =
    rw (e, append_assoc)
      (or-left _ _ (some_dots_complete (slash k) w (b'/' ∷ v) d (slash_complete k v h)))
run_token_complete k trail u v (inl e) h = rw e (or-right _ _ h)
run_token_complete k trail u v (inr (w, e, d)) h =
    rw e (or-left _ _ (slash_complete (some_dots k) (w ++ v) (some_dots_complete k w v d h)))
run_token_complete k dots u v d h = many_complete k is_dot u v d h

is_empty_sound : (s : List ℕ) → run [] s ≡ true → s ≡ []
unfolding run
is_empty_sound [] h = refl
is_empty_sound (c ∷ s) h = cc

run_sound : (ts : List Token) (s : List ℕ) → run ts s ≡ true → Lang ts s
unfolding run
run_sound [] s h = is_empty_sound s h
run_sound (t ∷ ts) s h =
    let (u, v, cut, d, rest) = run_token_sound (run ts) t s h in (u, v, cut, d, run_sound ts v rest)

run_complete : (ts : List Token) (s : List ℕ) → Lang ts s → run ts s ≡ true
unfolding run
run_complete [] s h = rw h
run_complete (t ∷ ts) s (u, v, cut, d, rest) =
    rw cut (run_token_complete (run ts) t u v d (run_complete ts v rest))

pub run_iff : (ts : List Token) (s : List ℕ) → (run ts s ≡ true) ↔ Lang ts s
run_iff ts s = (run_sound ts s, run_complete ts s)
