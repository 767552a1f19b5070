-- ===== src/Tests/Branches.antt =====
-- The sweep of packages/core/src/repo, on three branches.
use urateam.Prelude.{
  ◌≡◌, refl, ◌↔◌, String, Bool, true, false, Option, none, some, List, [], ◌∷◌, if◌then◌else◌,
  str_eq, In, Any,
}
use urateam.Repo.BranchSweep.{AgentBranchInfo, sweep_stale_agent_branches}
use urateam.Repo.BranchSweep.Deletions.{MayGo, sweep_asks_iff}

abbrev branches : List AgentBranchInfo
branches =
    record { name = "agent/old"; committed_at = 0 }
    ∷ record { name = "agent/unknown"; committed_at = 0 }
    ∷ record { name = "agent/new"; committed_at = 900000000 }
    ∷ []

-- GitHub does not answer for one of the branches.
abbrev has_open_pr : String → Option Bool
has_open_pr name = if str_eq name "agent/unknown" then none else some false

abbrev deletes : String → Bool
deletes name = true

swept : sweep_stale_agent_branches has_open_pr deletes 7 1000000000 branches ≡ record {
  result = record {
    deleted = record { name = "agent/old"; age_days = 11 } ∷ [];
    skipped_has_pr = "agent/unknown" ∷ [];
    skipped_fresh = "agent/new" ∷ [];
  };
  asked = "agent/old" ∷ [];
}
unfolding sweep_stale_agent_branches
swept = refl

sweep_asks_iff_example :
    In "agent/old" (sweep_stale_agent_branches has_open_pr deletes 7 1000000000 branches).asked
    ↔ Any (λ b. (b.name ≡ "agent/old") × MayGo has_open_pr deletes 7 1000000000 b) branches
sweep_asks_iff_example = sweep_asks_iff has_open_pr deletes 7 1000000000 branches "agent/old"
