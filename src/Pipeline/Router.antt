-- ===== src/Pipeline/Router.antt =====
-- pipeline/router.ts: the pipeline of an issue, from its labels.
pub mod Priority
use urateam.Prelude.{
  String, Bool, ◌||◌, ◌&&◌, Option, none, some, List, [], ◌∷◌, map, if◌then◌else◌, str_eq, includes,
  to_lower, is_some, Assoc, lookup,
}

pub record Resolved {ℓ} (C : Type ℓ) : Type ℓ where
  pub key : String
  pub config : C

-- Highest first.
abbrev pub label_priority : List String
label_priority = "quick-fix" ∷ "bug" ∷ "auto-implement" ∷ "needs-design" ∷ []

-- What `configs[label]` reads: a property of the object's own, or one of the two names in lower case
-- that every object inherits from `Object.prototype`.
pub data Slot {ℓ} (C : Type ℓ) : Type ℓ where
  own : C → Slot C
  inherited : Slot C

abbrev inherits : String → Bool
inherits label = str_eq label "constructor" || str_eq label "__proto__"

module _ {ℓ} {C : Type ℓ} where
  unfoldable pub read : Assoc C → String → Option (Slot C)
  read configs label = elim (lookup label configs) [
    | some config ↦ some (own config)
    | none ↦ if inherits label then some inherited else none
  ]

  abbrev pub resolved :
      String → Option (Slot C) → Option (Resolved (Slot C)) → Option (Resolved (Slot C))
  resolved label none rest = rest
  resolved label (some config) rest = some (record { key = label; config = config })

  -- The loop over the labels in priority order.
  unfoldable pub by_priority :
      List String → List String → Assoc C → Option (Resolved (Slot C)) → Option (Resolved (Slot C))
  by_priority lower [] configs rest = rest
  by_priority lower (label ∷ labels) configs rest =
      let later = by_priority lower labels configs rest in
      if includes lower label then resolved label (read configs label) later else later

  -- The first label that reads something.
  unfoldable pub first_label : List String → Assoc C → Option (Resolved (Slot C))
  first_label [] configs = none
  first_label (label ∷ labels) configs =
      resolved label (read configs label) (first_label labels configs)

  unfoldable pub resolve_pipeline : List String → Assoc C → Option (Resolved (Slot C))
  resolve_pipeline labels configs =
      let lower = map to_lower labels in
      by_priority lower label_priority configs (first_label lower configs)
