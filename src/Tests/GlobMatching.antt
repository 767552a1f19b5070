-- ===== src/Tests/GlobMatching.antt =====
-- util/glob.ts, run on paths of a repository.
use urateam.Prelude.{ℕ, ◌≡◌, refl, ◌↔◌, true, false, List, [], ◌∷◌, ◌++◌, ◌⊎◌, arith}
use urateam.Glob.{
  code_units, compile, single, tokens, replace_mid, replace_lead, replace_trail, replace_deep, many,
  once, run_token, run, matches, matches_any_pattern,
}
use urateam.Glob.Language.{SomeDots}
use urateam.Glob.Compile.{NoDeep}
use urateam.Glob.Words.{Fits}
use urateam.Glob.Shapes.{matches_shapes}

secrets_below :
    matches_any_pattern "infra/secrets/prod.env" ("docs/**" ∷ "infra/**/*.env" ∷ []) ≡ true
unfolding code_units compile single tokens replace_mid replace_lead replace_trail replace_deep many
    once run_token run matches matches_any_pattern
secrets_below = refl

star_stays : matches_any_pattern "src/a/b.ts" ("src/*.ts" ∷ []) ≡ false
unfolding code_units compile single tokens replace_mid replace_lead replace_trail replace_deep many
    once run_token run matches matches_any_pattern
star_stays = refl

abbrev src : List ℕ
src = b's' ∷ b'r' ∷ b'c' ∷ []

abbrev star_env : List ℕ
star_env = b'*' ∷ b'.' ∷ b'e' ∷ b'n' ∷ b'v' ∷ []

src-NoDeep : NoDeep src
src-NoDeep = ground arith

star_env-NoDeep : NoDeep star_env
star_env-NoDeep = ground arith

abbrev path : List ℕ
path = b's' ∷ b'r' ∷ b'c' ∷ b'/' ∷ b'a' ∷ b'.' ∷ b'e' ∷ b'n' ∷ b'v' ∷ []

matches_shapes_example :
    ((matches src path ≡ true) ↔ Fits src path)
    × ((matches (src ++ b'/' ∷ b'*' ∷ b'*' ∷ []) path ≡ true) ↔ (
        Fits src path
        ⊎ ((u : List ℕ) × (v : List ℕ) × (path ≡ u ++ b'/' ∷ v) × Fits src u × SomeDots v)))
    × ((matches (b'*' ∷ b'*' ∷ b'/' ∷ star_env) path ≡ true) ↔ (
        Fits star_env path
        ⊎ ((v : List ℕ) × (w : List ℕ) × (path ≡ v ++ b'/' ∷ w) × SomeDots v × Fits star_env w)))
    × ((matches (src ++ b'/' ∷ b'*' ∷ b'*' ∷ b'/' ∷ star_env) path ≡ true) ↔ (
        (u : List ℕ) × (w : List ℕ) × Fits src u
        × Fits star_env w
        × ((path ≡ u ++ b'/' ∷ w)
            ⊎ ((v : List ℕ) × (path ≡ u ++ b'/' ∷ (v ++ b'/' ∷ w)) × SomeDots v))))
matches_shapes_example = matches_shapes src star_env path src-NoDeep star_env-NoDeep
