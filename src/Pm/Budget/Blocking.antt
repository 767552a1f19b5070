-- ===== src/Pm/Budget/Blocking.antt =====
-- Which scopes block, and when promotions are blocked.
use Prim.Native.Nat.{◌^◌}
use urateam.Prelude.{
  ℕ, ◌≤◌, ◌<◌, ◌≡◌, ◌↔◌, ◌⊎◌, inl, inr, sym, subst, String, true, ◌||◌, none, List, [], ◌∷◌, arith,
  if◌then◌else◌, or_else, is_some, eq_iff, Assoc, lookup, DistinctKeys, Any, ltb,
}
use urateam.Pm.Percent.{percent}
use urateam.Pm.Percent.Rounding.{percent_full_iff}
use urateam.Pm.Budget.{
  BudgetScope, ScopeBudget, make_scope, make_scopes, is_blocked, worst_of, first_blocked, tier_of,
  tier_rank, BudgetTier,
}
use urateam.Pm.Budget.Spending.{held}

-- A limit is positive, and a double holds it.
abbrev pub IsLimit : ℕ → Type 0
IsLimit l = (0 < l) × (l ≤ 2 ^ 53)

abbrev pub Blocked : ScopeBudget → Type 0
Blocked s = is_blocked s.tier ≡ true

tier_of-blocked : (p : ℕ) → (is_blocked (tier_of p) ≡ true) ↔ (100 ≤ p)
tier_of-blocked p = ground arith

pub make_scope-Blocked :
    (scope : BudgetScope) (used limit : ℕ)
    → IsLimit limit
    → Blocked (make_scope scope used limit) ↔ (limit ≤ used)
unfolding make_scope
make_scope-Blocked scope used limit (pos, small) =
    ground (arith, tier_of-blocked (percent used limit), percent_full_iff used limit pos small)

-- The tier that is kept blocks where one of the two does.
worse-Blocked :
    (a b : BudgetTier)
    → is_blocked (if ltb (tier_rank a) (tier_rank b) then b else a) ≡ (is_blocked a || is_blocked b)
worse-Blocked a b = ground arith

pub worst_of-Blocked :
    (scopes : List ScopeBudget) (worst : BudgetTier)
    → (is_blocked (worst_of scopes worst) ≡ true) ↔ ((is_blocked worst ≡ true) ⊎ Any Blocked scopes)
unfolding worst_of
worst_of-Blocked [] worst = ground arith
worst_of-Blocked (s ∷ scopes) worst = ground (
  arith,
  worse-Blocked worst s.tier,
  worst_of-Blocked scopes (if ltb (tier_rank worst) (tier_rank s.tier) then s.tier else worst),
)

pub first_blocked-Blocked :
    (scopes : List ScopeBudget) → (is_some (first_blocked scopes) ≡ true) ↔ Any Blocked scopes
unfolding first_blocked
first_blocked-Blocked [] = (λ h. cc, λ h. elim h [ ])
first_blocked-Blocked (s ∷ scopes) = ground (arith, first_blocked-Blocked scopes)

held-head : (entry : String × ℕ) (used : Assoc ℕ) → held entry.0 (entry ∷ used) ≡ entry.1
unfolding lookup
held-head entry used = ground (arith, eq_iff entry.0 entry.0)

-- A key that holds something in the rest is not the one in front.
held-tail :
    (entry : String × ℕ) (key : String) (used : Assoc ℕ)
    → lookup entry.0 used ≡ none
    → 0 < held key used
    → held key (entry ∷ used) ≡ held key used
unfolding lookup
held-tail entry key used fresh pos = ground (arith, eq_iff entry.0 key)

held-cases :
    (entry : String × ℕ) (key : String) (used : Assoc ℕ)
    → ((entry.0 ≡ key) × (held key (entry ∷ used) ≡ entry.1))
      ⊎ (held key (entry ∷ used) ≡ held key used)
unfolding lookup
held-cases entry key used = ground (arith, eq_iff entry.0 key)

abbrev pub limit_of : Assoc ℕ → ℕ → String → ℕ
limit_of limits d key = or_else (lookup key limits) d

module _ (kind : String → BudgetScope) (limits : Assoc ℕ) (d : ℕ) where
  -- Some key has spent its limit.
  abbrev pub Spent : Assoc ℕ → Type 0
  Spent used = (key : String) × (limit_of limits d key ≤ held key used)

  pub make_scopes-Blocked :
      (used : Assoc ℕ)
      → ((key : String) → IsLimit (limit_of limits d key))
      → DistinctKeys used
      → Any Blocked (make_scopes kind limits d used) ↔ Spent used
  unfolding make_scopes
  make_scopes-Blocked [] valid distinct =
      (λ h. elim h [ ], λ (key, h). absurd (ground (arith, valid key)))
  make_scopes-Blocked (entry ∷ used) valid distinct =
      let (to, from) =
        make_scope-Blocked (kind entry.0) entry.1 (limit_of limits d entry.0) (valid entry.0) in
      let (later_to, later_from) = make_scopes-Blocked used valid distinct.1 in
      (
        λ b. elim b [
          | inl here ↦ (entry.0, ground (arith, to here, held-head entry used))
          | inr later ↦
              let (key, h) = later_to later in
              (key, ground (arith, h, held-tail entry key used distinct.0, valid key))
        ],
        λ (key, h). elim (held-cases entry key used) [
          | inl (e, v) ↦ inl (from (subst (λ k. limit_of limits d k ≤ entry.1) (sym e) (rw v at h)))
          | inr v ↦ inr (later_from (key, rw v at h))
        ],
      )
