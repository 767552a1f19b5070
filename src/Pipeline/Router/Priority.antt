-- ===== src/Pipeline/Router/Priority.antt =====
-- Which pipeline pipeline/router.ts chooses.
use urateam.Prelude.{
  ◌≡◌, refl, sym, ap, ◌∙◌, ◌⊎◌, inl, inr, ◌↔◌, String, none, some, List, [], ◌∷◌, map, includes,
  to_lower, All, Assoc, lookup, Bool-cases, Option-cases, filter, ◌++◌, some-eq,
}
use urateam.Pipeline.Router.{
  Resolved, Slot, inherited, read, resolved, by_priority, first_label, resolve_pipeline,
  label_priority,
}

-- The labels in the order in which they count: those of the priority list that the issue has, and
-- then all of the issue's.
abbrev pub candidates : List String → List String
candidates labels = filter (includes (map to_lower labels)) label_priority ++ map to_lower labels

module _ {C : Type 0} (configs : Assoc C) where
  by_priority-first_label :
      (lower labels : List String)
      → by_priority lower labels configs (first_label lower configs)
        ≡ first_label (filter (includes lower) labels ++ lower) configs
  unfolding by_priority first_label
  by_priority-first_label lower [] = refl
  by_priority-first_label lower (label ∷ labels) = elim (Bool-cases (includes lower label)) [
    | inl t ↦ rw t (ap (resolved label (read configs label)) (by_priority-first_label lower labels))
    | inr f ↦ rw f (by_priority-first_label lower labels)
  ]

  -- A label reads something, and none before it does.
  abbrev pub IsFirst : List String → Resolved (Slot C) → Type 0
  IsFirst labels r =
      (before : List String) × (after : List String) × (labels ≡ before ++ r.key ∷ after)
      × All (λ label. read configs label ≡ none) before
      × (read configs r.key ≡ some r.config)

  first_label_sound :
      (labels : List String) (r : Resolved (Slot C))
      → first_label labels configs ≡ some r
      → IsFirst labels r
  unfolding first_label
  first_label_sound [] r h = cc
  first_label_sound (label ∷ labels) r h = elim (Option-cases (read configs label)) [
    | inl e ↦
        let (before, after, split, unread, found) = first_label_sound labels r (rw e at h) in
        (label ∷ before, after, ap (λ ls. label ∷ ls) split, (e, unread), found)
    | inr (slot, e) ↦
        let same : record { key = label; config = slot } ≡ r = some-eq (rw e at h) in
        ([], labels, ap (λ k. k ∷ labels) (ap Resolved.key same), tt, rw (← same) e)
  ]

  first_label_complete :
      (before after : List String) (key : String) (slot : Slot C)
      → All (λ label. read configs label ≡ none) before
      → read configs key ≡ some slot
      → first_label (before ++ key ∷ after) configs ≡ some (record { key = key; config = slot })
  unfolding first_label
  first_label_complete [] after key slot unread found = rw found
  first_label_complete (label ∷ before) after key slot unread found =
      rw unread.0 (first_label_complete before after key slot unread.1 found)

-- The pipeline is that of the first candidate for which `configs` reads something: labels are
-- compared in lower case, and those of the priority list count before the issue's own order.
pub resolve_pipeline_iff :
    {C : Type 0} (configs : Assoc C) (labels : List String) (r : Resolved (Slot C))
    → (resolve_pipeline labels configs ≡ some r) ↔ IsFirst configs (candidates labels) r
unfolding resolve_pipeline
resolve_pipeline_iff configs labels r =
    let same = by_priority-first_label configs (map to_lower labels) label_priority in
    (
      λ h. first_label_sound configs _ r (sym same ∙ h),
      λ (before, after, split, unread, found).
          same
          ∙ ap (λ ls. first_label ls configs) split
          ∙ first_label_complete configs before after r.key r.config unread found,
    )

read-inherited :
    {C : Type 0} (configs : Assoc C) (label : String)
    → (label ≡ "constructor") ⊎ (label ≡ "__proto__")
    → lookup label configs ≡ none
    → read configs label ≡ some inherited
unfolding read
read-inherited configs label (inl e) unset = rw (unset, read) (rw e)
read-inherited configs label (inr e) unset = rw (unset, read) (rw e)

candidates-inherited :
    (label : String)
    → (to_lower label ≡ "constructor") ⊎ (to_lower label ≡ "__proto__")
    → candidates (label ∷ []) ≡ to_lower label ∷ []
unfolding includes
candidates-inherited label (inl e) = rw e
candidates-inherited label (inr e) = rw e

-- An issue with no label but one that spells "constructor" or "__proto__" in some case resolves to a
-- pipeline with no configuration of its own, where `configs` has no entry of that name.
pub resolve_pipeline-inherited :
    {C : Type 0} (configs : Assoc C) (label : String)
    → (to_lower label ≡ "constructor") ⊎ (to_lower label ≡ "__proto__")
    → lookup (to_lower label) configs ≡ none
    → resolve_pipeline (label ∷ []) configs
      ≡ some (record { key = to_lower label; config = inherited })
resolve_pipeline-inherited configs label named unset =
    (resolve_pipeline_iff configs (label ∷ []) _).1 (
      [],
      [],
      candidates-inherited label named,
      tt,
      read-inherited configs (to_lower label) named unset,
    )
