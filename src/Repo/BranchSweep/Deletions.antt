-- ===== src/Repo/BranchSweep/Deletions.antt =====
-- Which branches repo/agent-branch-sweep.ts deletes.
use urateam.Prelude.{
  ℕ, ◌+◌, ◌*◌, ◌<◌, ◌≡◌, refl, ◌⊎◌, inl, inr, ◌↔◌, String, Bool, true, false, Option, none, some,
  List, [], ◌∷◌, arith, leb, length, map, filter, ap, In, Any, Bool-cases,
}
use urateam.Repo.BranchSweep.{
  AgentBranchInfo, SweptBranch, Sweep, day_ms, delete, sweep_stale_agent_branches,
}

-- The last commit is older than so many days.
abbrev IsStale : ℕ → ℕ → AgentBranchInfo → Type 0
IsStale ttl_days now branch = branch.committed_at + ttl_days * day_ms < now

open-cases : (o : Option Bool) → (o ≡ some false) ⊎ ((o ≡ none) ⊎ (o ≡ some true))
open-cases none = inr (inl refl)
open-cases (some true) = inr (inr refl)
open-cases (some false) = inl refl

-- A case that cannot be, beside one that can.
other_case : {A B C : Type 0} → (A → ⊥) → (B → C) → A ⊎ B → C
other_case n f (inl a) = absurd (n a)
other_case n f (inr b) = f b

same_head : {A P B C : Type 0} → P → (C ↔ B) → (A ⊎ C) ↔ ((A × P) ⊎ B)
same_head p e = (
  λ h. elim h [ inl a ↦ inl (a, p) | inr c ↦ inr (e.0 c) ],
  λ h. elim h [ inl (a, q) ↦ inl a | inr b ↦ inr (e.1 b) ],
)

delete-asked :
    (deletes : Bool) (swept : SweptBranch) (s : Sweep)
    → (delete deletes swept s).asked ≡ swept.name ∷ s.asked
delete-asked true swept s = refl
delete-asked false swept s = refl

module _ (has_open_pr : String → Option Bool) (delete_branch : String → Bool)
    (ttl_days now : ℕ) where
  -- The branch is stale, and GitHub said that it has no open pull request.
  abbrev pub MayGo : AgentBranchInfo → Type 0
  MayGo branch = IsStale ttl_days now branch × (has_open_pr branch.name ≡ some false)

  -- Origin is asked to delete exactly the branches that are stale and that GitHub said to have no open
  -- pull request; a check that throws deletes nothing.
  pub sweep_asks_iff :
      (branches : List AgentBranchInfo) (name : String)
      → In name (sweep_stale_agent_branches has_open_pr delete_branch ttl_days now branches).asked
        ↔ Any (λ b. (b.name ≡ name) × MayGo b) branches
  unfolding sweep_stale_agent_branches
  sweep_asks_iff [] name = (λ h. h, λ h. h)
  sweep_asks_iff (b ∷ branches) name =
      let (to, from) = sweep_asks_iff branches name in
      elim (Bool-cases (leb now (b.committed_at + ttl_days * day_ms))) [
        | inl t ↦
            rw t (λ h. inr (to h), other_case (λ (e, (stale, o)). ground (arith, t, stale)) from)
        | inr f ↦ elim (open-cases (has_open_pr b.name)) [
          | inl o ↦
              let stale : IsStale ttl_days now b = ground (arith, f) in
              rw (f, o, delete-asked (delete_branch b.name)) (same_head (stale, refl) (to, from))
          | inr (inl o) ↦ rw (f, o) (λ h. inr (to h), other_case (λ (e, (stale, p)). cc) from)
          | inr (inr o) ↦ rw (f, o) (λ h. inr (to h), other_case (λ (e, (stale, p)). cc) from)
        ]
      ]

  -- Each branch is asked to be deleted or reported as skipped, once; and those that are reported as
  -- deleted are those that were asked for and whose deletion did not throw, in order.
  sweep_accounts :
      (branches : List AgentBranchInfo)
      → let s = sweep_stale_agent_branches has_open_pr delete_branch ttl_days now branches in
        (length s.asked + length s.result.skipped_has_pr + length s.result.skipped_fresh
          ≡ length branches)
        × (map SweptBranch.name s.result.deleted ≡ filter delete_branch s.asked)
  unfolding sweep_stale_agent_branches
  sweep_accounts [] = (refl, refl)
  sweep_accounts (b ∷ branches) =
      let (count, names) = sweep_accounts branches in
      elim (Bool-cases (leb now (b.committed_at + ttl_days * day_ms))) [
        | inl t ↦ rw t (omega (arith, count), names)
        | inr f ↦ elim (open-cases (has_open_pr b.name)) [
          | inl o ↦ elim (Bool-cases (delete_branch b.name)) [
            | inl d ↦ rw (f, o, d) (omega (arith, count), rw d (ap (λ ns. b.name ∷ ns) names))
            | inr d ↦ rw (f, o, d) (omega (arith, count), rw d names)
          ]
          | inr (inl o) ↦ rw (f, o) (omega (arith, count), names)
          | inr (inr o) ↦ rw (f, o) (omega (arith, count), names)
        ]
      ]
