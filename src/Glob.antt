-- ===== src/Glob.antt =====
-- packages/core/src/util/glob.ts: a glob is rewritten into a regular expression, which is then run.
-- A text is the list of its UTF-16 code units. The chain of `replace` calls works on a list of
-- tokens, one for each piece of the regular expression; escaping makes a unit stand for itself.
pub mod Compile
pub mod Words
pub mod Language
pub mod Passes
pub mod Shapes
use Prim.Native.Char.{code}
use urateam.Prelude.{
  ℕ, ◌-◌, ◌+◌, ◌/◌, ◌%◌, String, Bool, true, false, ◌&&◌, ◌||◌, not, List, [], ◌∷◌, ltb, ◌==◌,
  if◌then◌else◌, any, is_empty,
}

-- The code units of a text, with a surrogate pair for a code point past the basic plane.
unfoldable pub code_units : String → List ℕ
code_units String.[] = []
code_units (String.◌∷◌ c s) =
    let rest = code_units s in
    let offset = code c - 0x10000 in
    if ltb (code c) 0x10000
    then code c ∷ rest
    else (0xD800 + offset / 0x400) ∷ (0xDC00 + offset % 0x400) ∷ rest

-- `deep` is the mark U+0000 that stands for `**` between the passes.
pub data Token : Type 0 where
  lit : ℕ → Token
  one star deep mid lead trail dots : Token

unfoldable pub single : ℕ → Token
single c = if c == b'*' then star else if c == b'?' then one else if c == 0 then deep else lit c

-- The passes for the escapes, `**`, `*` and `?`.
unfoldable pub tokens : List ℕ → List Token
unfolding single
tokens [] = []
tokens (c ∷ []) = single c ∷ []
tokens (c ∷ d ∷ cs) =
    let pair = deep ∷ tokens cs in
    let next = single c ∷ tokens (d ∷ cs) in if c == b'*' && d == b'*' then pair else next

abbrev is_slash : Token → Bool
is_slash (lit c) = c == b'/'
is_slash _ = false

abbrev is_deep : Token → Bool
is_deep deep = true
is_deep _ = false

-- `.replace(/\/\x00\//g, "(?:/|/.+/)")`
unfoldable pub replace_mid : List Token → List Token
replace_mid (a ∷ b ∷ c ∷ ts) =
    let found = mid ∷ replace_mid ts in
    let next = a ∷ replace_mid (b ∷ c ∷ ts) in
    if is_slash a && (is_deep b && is_slash c) then found else next
replace_mid ts = ts

-- `.replace(/^\x00\//, "(?:.+/)?")`
unfoldable pub replace_lead : List Token → List Token
replace_lead (a ∷ b ∷ ts) = if is_deep a && is_slash b then lead ∷ ts else a ∷ b ∷ ts
replace_lead ts = ts

-- `.replace(/\/\x00$/, "(?:/.+)?")`
unfoldable pub replace_trail : List Token → List Token
replace_trail [] = []
replace_trail (a ∷ []) = a ∷ []
replace_trail (a ∷ b ∷ []) = if is_slash a && is_deep b then trail ∷ [] else a ∷ b ∷ []
replace_trail (a ∷ b ∷ c ∷ ts) = a ∷ replace_trail (b ∷ c ∷ ts)

-- `.replace(/\x00/g, ".*")`
unfoldable pub replace_deep : List Token → List Token
replace_deep [] = []
replace_deep (t ∷ ts) = (if is_deep t then dots else t) ∷ replace_deep ts

unfoldable pub compile : List ℕ → List Token
compile pattern = replace_deep (replace_trail (replace_lead (replace_mid (tokens pattern))))

-- What `.` matches: any unit but a line terminator.
abbrev pub is_dot : ℕ → Bool
is_dot c = not (c == 10 || (c == 13 || (c == 0x2028 || c == 0x2029)))

abbrev pub not_slash : ℕ → Bool
not_slash c = not (c == b'/')

-- `p*`, then the rest of the expression.
unfoldable pub many : (ℕ → Bool) → (List ℕ → Bool) → List ℕ → Bool
many p k [] = k []
many p k (c ∷ s) = k (c ∷ s) || (p c && many p k s)

-- One unit that satisfies `p`, then the rest.
unfoldable pub once : (ℕ → Bool) → (List ℕ → Bool) → List ℕ → Bool
once p k [] = false
once p k (c ∷ s) = p c && k s

abbrev pub slash : (List ℕ → Bool) → List ℕ → Bool
slash = once (λ c. c == b'/')

-- `.+`, then the rest.
abbrev pub some_dots : (List ℕ → Bool) → List ℕ → Bool
some_dots k = once is_dot (many is_dot k)

-- One token of the expression, then the rest.
unfoldable pub run_token : Token → (List ℕ → Bool) → List ℕ → Bool
unfolding many once
run_token (lit c) k s = once (λ x. x == c) k s
run_token one k s = once not_slash k s
run_token star k s = many not_slash k s
run_token mid k s = slash k s || slash (some_dots (slash k)) s
run_token lead k s = some_dots (slash k) s || k s
run_token trail k s = slash (some_dots k) s || k s
run_token dots k s = many is_dot k s
run_token deep k s = once (λ x. x == 0) k s

-- `new RegExp("^…$").test(s)`
unfoldable pub run : List Token → List ℕ → Bool
run [] s = is_empty s
run (t ∷ ts) s = run_token t (run ts) s

-- One pattern, on code units.
unfoldable pub matches : List ℕ → List ℕ → Bool
matches pattern path = run (compile pattern) path

unfoldable pub matches_any_pattern : String → List String → Bool
unfolding matches
matches_any_pattern file_path patterns =
    any (λ pattern. matches (code_units pattern) (code_units file_path)) patterns
