-- ===== src/Tests/Approving.antt =====
-- The approvals of packages/core/src/pm, on one that Slack has approved and one that is too old.
use urateam.Prelude.{◌≡◌, ◌≢◌, refl, inl, true, none, some, List, [], ◌∷◌, In, lookup}
use urateam.Pm.Approvals.{
  Approval, pending, deprioritize, cancel, Call, update_issue, create_comment, Services, approves,
  ResolveApprovalsInput, act_in_teams, resolve_one, resolve_each, resolve_all, resolve_approvals,
}
use urateam.Pm.Approvals.Once.{approval_of, IsGranted, ticks, acts_once}

abbrev fresh : Approval
fresh = record {
  id = "a1";
  issue_id = "BEC-1";
  action = deprioritize;
  slack_message_ts = "1.0";
  status = pending;
  created_at = 200000000;
  resolved_at = none;
}

abbrev rows : List Approval
rows = fresh ∷ record fresh { id = "a2"; action = cancel; created_at = 0 } ∷ []

abbrev services : Services
services = record {
  update_row_succeeds = λ id. true;
  post_expired_succeeds = λ issue. true;
  reaction = λ ts. some approves;
  search = λ issue. some (some "i1");
  update_issue_succeeds = λ issue state. true;
  comment_succeeds = λ issue. true;
}

abbrev input : ResolveApprovalsInput
input = record {
  team_ids = "t" ∷ [];
  state_map = ("t:Icebox", "s1") ∷ ("t:Canceled", "s2") ∷ [];
  now = 300000000;
}

settles_both :
    resolve_approvals services input rows ≡ record { resolved = 1; expired = 1; still_pending = 0 }
unfolding resolve_approvals resolve_all resolve_each resolve_one act_in_teams lookup
settles_both = refl

moved :
    (resolve_all services input rows).calls
    ≡ update_issue "a1" "i1" "s1" ∷ create_comment "a1" "i1" ∷ []
unfolding resolve_all resolve_each resolve_one act_in_teams lookup
moved = refl

is_called : In (update_issue "a1" "i1" "s1") (resolve_all services input rows).calls
is_called = rw moved (inl refl)

acts_once_example :
    ((a : Approval) × In a rows × (a.id ≡ "a1") × IsGranted services input a)
    × ((d : Call)
        → In d (resolve_all services input (ticks [] (resolve_all services input rows).rows)).calls
        → approval_of d ≢ "a1")
acts_once_example =
    acts_once services input rows (update_issue "a1" "i1" "s1") [] services input is_called
