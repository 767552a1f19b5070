-- ===== src/Prelude/Maps.antt =====
-- A `Map` with text keys: its entries in insertion order.
use Prim.Native.String.{String}
use mathlib.Core.Path.{◌≡◌, refl}
use mathlib.Core.Option.{Option, none, some}
use mathlib.Core.List.{List, [], ◌∷◌}
use native.Mathlib.Omega.{arith}
use text.Mathlib.Text.{◌==◌ as str_eq}
use text.Mathlib.TextEquality.{eq_iff}
use urateam.Prelude.Tests.{if◌then◌else◌}

-- The entries of a map.
abbrev pub Assoc {ℓ} : (V : Type ℓ) → Type ℓ
Assoc V = List (String × V)

-- `m.get(key)`
unfoldable pub lookup {ℓ} : {V : Type ℓ} → String → Assoc V → Option V
lookup key [] = none
lookup key (entry ∷ rest) =
    let later = lookup key rest in if str_eq entry.0 key then some entry.1 else later

-- `m.set(key, v)`: a key that is present keeps its place
unfoldable pub insert {ℓ} : {V : Type ℓ} → String → V → Assoc V → Assoc V
insert key v [] = (key, v) ∷ []
insert key v (entry ∷ rest) =
    let later = insert key v rest in
    if str_eq entry.0 key then (entry.0, v) ∷ rest else entry ∷ later

-- `m.delete(key)`
unfoldable pub without {ℓ} : {V : Type ℓ} → String → Assoc V → Assoc V
without key [] = []
without key (entry ∷ rest) =
    let later = without key rest in if str_eq entry.0 key then later else entry ∷ later

pub lookup-nil {ℓ} : {V : Type ℓ} (key : String) → lookup {V = V} key [] ≡ none
unfolding lookup
lookup-nil key = refl

module _ {ℓ} {V : Type ℓ} (key asked : String) where
  pub lookup-insert :
      (v : V) (m : Assoc V)
      → lookup asked (insert key v m) ≡ (if str_eq key asked then some v else lookup asked m)
  unfolding insert lookup
  lookup-insert v [] = refl
  lookup-insert v (entry ∷ rest) =
      ground
        (arith, lookup-insert v rest, eq_iff entry.0 asked, eq_iff entry.0 key, eq_iff key asked)

  pub lookup-without :
      (m : Assoc V)
      → lookup asked (without key m) ≡ (if str_eq key asked then none else lookup asked m)
  unfolding without lookup
  lookup-without [] = ground arith
  lookup-without (entry ∷ rest) =
      ground
        (arith, lookup-without rest, eq_iff entry.0 asked, eq_iff entry.0 key, eq_iff key asked)

pub lookup-insert_self {ℓ} :
    {V : Type ℓ} (key : String) (v : V) (m : Assoc V) → lookup key (insert key v m) ≡ some v
lookup-insert_self key v m = ground (arith, lookup-insert key key v m, eq_iff key key)

-- No key stands twice.
abbrev pub DistinctKeys {ℓ} : {V : Type ℓ} → Assoc V → Type ℓ
DistinctKeys [] = Unit
DistinctKeys (entry ∷ rest) = (lookup entry.0 rest ≡ none) × DistinctKeys rest

pub DistinctKeys-insert {ℓ} :
    {V : Type ℓ} (key : String) (v : V) (m : Assoc V)
    → DistinctKeys m
    → DistinctKeys (insert key v m)
unfolding insert lookup
DistinctKeys-insert key v [] h = (refl, tt)
DistinctKeys-insert key v (entry ∷ rest) h = ground (
  arith,
  DistinctKeys-insert key v rest h.1,
  lookup-insert key entry.0 v rest,
  eq_iff entry.0 key,
  eq_iff key entry.0,
)
