-- ===== src/Repo/BranchSweep.antt =====
-- repo/agent-branch-sweep.ts: `sweepStaleAgentBranches`. The branches on origin, whether one has an
-- open pull request, and whether a deletion succeeds are what git and GitHub answer.
pub mod Deletions
use urateam.Prelude.{
  ℕ, ◌+◌, ◌-◌, ◌*◌, ◌/◌, String, Bool, true, false, Option, none, some, List, [], ◌∷◌, leb,
  if◌then◌else◌,
}

pub record AgentBranchInfo : Type 0 where
  pub name : String
  pub committed_at : ℕ

pub record SweptBranch : Type 0 where
  pub name : String
  pub age_days : ℕ

pub record SweepResult : Type 0 where
  pub deleted : List SweptBranch
  pub skipped_has_pr : List String
  pub skipped_fresh : List String

-- The result, and the branches that origin is asked to delete, in order.
pub record Sweep : Type 0 where
  pub result : SweepResult
  pub asked : List String

abbrev pub nothing : Sweep
nothing = record {
  result = record { deleted = []; skipped_has_pr = []; skipped_fresh = [] };
  asked = [];
}

abbrev pub day_ms : ℕ
day_ms = 24 * 60 * 60 * 1000

abbrev skip_fresh : String → Sweep → Sweep
skip_fresh name s = record s {
  result = record s.result { skipped_fresh = name ∷ s.result.skipped_fresh };
}

abbrev skip_has_pr : String → Sweep → Sweep
skip_has_pr name s = record s {
  result = record s.result { skipped_has_pr = name ∷ s.result.skipped_has_pr };
}

-- The deletion, which may throw.
abbrev pub delete : Bool → SweptBranch → Sweep → Sweep
delete true swept s = record {
  result = record s.result { deleted = swept ∷ s.result.deleted };
  asked = swept.name ∷ s.asked;
}
delete false swept s = record s { asked = swept.name ∷ s.asked }

-- What is done with a stale branch: a check that throws (`none`) preserves it.
abbrev sweep_stale : Option Bool → Bool → SweptBranch → Sweep → Sweep
sweep_stale none deletes swept s = skip_has_pr swept.name s
sweep_stale (some true) deletes swept s = skip_has_pr swept.name s
sweep_stale (some false) deletes swept s = delete deletes swept s

module _ (has_open_pr : String → Option Bool) (delete_branch : String → Bool) where
  -- The loop; a branch as old as the cutoff is fresh.
  unfoldable pub sweep_stale_agent_branches : (ttl_days now : ℕ) → List AgentBranchInfo → Sweep
  sweep_stale_agent_branches ttl_days now [] = nothing
  sweep_stale_agent_branches ttl_days now (branch ∷ branches) =
      let rest = sweep_stale_agent_branches ttl_days now branches in
      if leb now (branch.committed_at + ttl_days * day_ms)
      then skip_fresh branch.name rest
      else sweep_stale (has_open_pr branch.name) (delete_branch branch.name)
          (record { name = branch.name; age_days = (now - branch.committed_at) / day_ms }) rest
