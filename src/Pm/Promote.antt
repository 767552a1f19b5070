-- ===== src/Pm/Promote.antt =====
-- pm/actions/promote.ts: `promoteReadyIssues`. What Linear, the conflict check and the database
-- answer is a record. Log lines and audit events are left out.
pub mod Conditions
pub mod Slots
use urateam.Prelude.{
  ℕ, zero, suc, ◌+◌, String, Bool, true, false, ◌||◌, ◌&&◌, not, Option, none, some, List, [], ◌∷◌,
  ◌++◌, map, leb, ltb, if◌then◌else◌, filter, is_some, or_else, str_eq, to_lower, includes, Assoc,
  lookup,
}
use urateam.Pm.StateMap.{todo_states}
use urateam.Pipeline.Router.{Resolved, Slot, resolve_pipeline}
use urateam.Pm.Runs.{
  PipelineRun, batch_count_consecutive_failures, count_of, get_last_failure_error,
}
use urateam.Pm.Breaker.{BreakerRow}

pub data OverlapRisk : Type 0 where
  no_risk low_risk high_risk : OverlapRisk

pub record Label : Type 0 where
  pub id : String
  pub name : String

pub record Candidate : Type 0 where
  pub id : String
  pub identifier : String
  pub priority : Option ℕ
  pub description : String
  pub team_id : Option String
  pub labels : List Label

-- Why an issue was passed over.
pub data Reason : Type 0 where
  no_pipeline_label no_todo_state high_conflict : Reason
  circuit_breaker : (failure_count : ℕ) (already_escalated : Bool) → Reason

pub data PromoteResult : Type 0 where
  promoted : (identifier : String) → OverlapRisk → PromoteResult
  passed_over : (identifier : String) → Reason → PromoteResult

-- What is asked of Linear, Slack and the table of the breaker, in order.
pub data Call : Type 0 where
  set_state : (issue : String) (state : String) → Call
  set_labels : (issue : String) → List String → Call
  comment_escalated : (issue : String) (failure_count : ℕ) (error : Option String) → Call
  comment_promoted : (issue : String) → OverlapRisk → Call
  alert record_escalation : (identifier : String) → Call

-- `none` stands for a call that throws.
pub record Services : Type 0 where
  pub check_conflict : String → Option OverlapRisk
  pub set_state_succeeds : String → Bool
  pub comment_succeeds : String → Bool
  pub set_labels_succeeds : String → Bool
  pub issue_labels : Option (List Label)
  pub has_slack : Bool

-- The configurations and the database are taken to be there: the source returns or throws without.
pub record PromoteInput {ℓ} (C : Type ℓ) : Type ℓ where
  pub slots_available : ℕ
  pub require_pipeline_label : Bool
  pub pipeline_configs : Assoc C
  pub max_consecutive_failures : Option ℕ
  pub probe_override_ids : List String
  pub state_map : Assoc String
  pub runs : List PipelineRun

-- The results, the calls, and whether the loop came to its end: where a call threw, it is `false`, and
-- the results are lost.
pub record Promotion : Type 0 where
  pub results : List PromoteResult
  pub calls : List Call
  pub finished : Bool

abbrev pub done : Promotion
done = record { results = []; calls = []; finished = true }

abbrev threw_after : List Call → Promotion
threw_after calls = record { results = []; calls = calls; finished = false }

abbrev and_then : List Call → PromoteResult → Promotion → Promotion
and_then calls result rest = record rest {
  results = result ∷ rest.results;
  calls = calls ++ rest.calls;
}

abbrev pub label_names : Candidate → List String
label_names c = map (λ l. l.name) c.labels

abbrev pub already_escalated : Candidate → Bool
already_escalated c = includes (map to_lower (label_names c)) "needs-design"

-- The id of the label `needs-design`, where Linear has it.
unfoldable pub needs_design_id : List Label → Option String
needs_design_id [] = none
needs_design_id (l ∷ labels) =
    let later = needs_design_id labels in
    if str_eq (to_lower l.name) "needs-design" then some l.id else later

-- `[...new Set(ids)]`
unfoldable pub unique : (seen ids : List String) → List String
unique seen [] = []
unique seen (id ∷ ids) =
    let later = unique (id ∷ seen) ids in
    let same = unique seen ids in if includes seen id then same else id ∷ later

-- The labels that the issue had, and `needs-design`.
abbrev merged_labels : Candidate → String → List String
merged_labels c id =
    unique [] (filter (λ i. not (str_eq i "")) (map (λ l. l.id) c.labels) ++ id ∷ [])

-- The two calls to Linear stand in one `try`: where the first throws, the second is not made.
unfoldable pub relabel_calls : Services → Candidate → ℕ → Option String → Option String → List Call
unfolding unique
relabel_calls services c count error none = comment_escalated c.id count error ∷ []
relabel_calls services c count error (some id) =
    set_labels c.id (merged_labels c id)
    ∷ (if services.set_labels_succeeds c.id then comment_escalated c.id count error ∷ [] else [])

-- The alert, and the row that tells this label from one that a human added.
abbrev pub after_linear : (has_slack : Bool) → Candidate → List Call
after_linear true c = alert c.identifier ∷ record_escalation c.identifier ∷ []
after_linear false c = record_escalation c.identifier ∷ []

unfoldable pub escalate_calls : Services → Candidate → ℕ → Option String → List Call
unfolding relabel_calls needs_design_id
escalate_calls services c count error =
    relabel_calls services c count error (needs_design_id (or_else services.issue_labels []))
    ++ after_linear services.has_slack c

-- What becomes of a candidate: it is passed over, it is promoted, or a call threw.
pub data Step : Type 0 where
  pass promote : List Call → PromoteResult → Step
  throw : List Call → Step

unfoldable pub promote_to : Services → Candidate → OverlapRisk → (state : String) → Step
promote_to services c risk state =
    if not (services.set_state_succeeds c.id)
    then throw (set_state c.id state ∷ [])
    else if not (services.comment_succeeds c.id)
    then throw (set_state c.id state ∷ comment_promoted c.id risk ∷ [])
    else promote (set_state c.id state ∷ comment_promoted c.id risk ∷ [])
        (promoted c.identifier risk)

abbrev todo_state : Assoc String → Option String → Option String
todo_state states none = none
todo_state states (some team) = lookup team states

-- The conflict check is made before the state is looked at.
unfoldable pub after_conflict :
    Services → Candidate → Option OverlapRisk → (todo : Option String) → Step
unfolding promote_to
after_conflict services c none todo = throw []
after_conflict services c (some high_risk) todo = pass [] (passed_over c.identifier high_conflict)
after_conflict services c (some risk) none = pass [] (passed_over c.identifier no_todo_state)
after_conflict services c (some risk) (some state) = promote_to services c risk state

module _ {ℓ} {C : Type ℓ} (services : Services) (input : PromoteInput C) where
  abbrev pub has_pipeline : Candidate → Bool
  has_pipeline c = is_some (resolve_pipeline (label_names c) input.pipeline_configs)

  -- `failures` are the counts that were fetched for all candidates.
  abbrev pub breaks : Option ℕ → Assoc ℕ → Candidate → Bool
  breaks none failures c = false
  breaks (some limit) failures c =
      leb limit (count_of failures c.identifier)
      && not (includes input.probe_override_ids c.identifier)

  abbrev trip : Assoc ℕ → Candidate → Step
  trip failures c =
      let count = count_of failures c.identifier in
      pass
        (if already_escalated c
          then []
          else escalate_calls services c count (get_last_failure_error input.runs c.identifier))
        (passed_over c.identifier (circuit_breaker count (already_escalated c)))

  unfoldable pub step : Assoc ℕ → Candidate → Step
  unfolding escalate_calls after_conflict
  step failures c =
      if input.require_pipeline_label && not (has_pipeline c)
      then pass [] (passed_over c.identifier no_pipeline_label)
      else if breaks input.max_consecutive_failures failures c
      then trip failures c
      else after_conflict services c (services.check_conflict c.description)
          (todo_state (todo_states input.state_map) c.team_id)

  abbrev continue : Step → Promotion → Promotion → Promotion
  continue (pass calls result) same fewer = and_then calls result same
  continue (promote calls result) same fewer = and_then calls result fewer
  continue (throw calls) same fewer = threw_after calls

  -- The loop, with the slots that are left.
  unfoldable pub promote_from : ℕ → Assoc ℕ → List Candidate → Promotion
  unfolding step
  promote_from slots failures [] = done
  promote_from zero failures (c ∷ candidates) = done
  promote_from (suc slots) failures (c ∷ candidates) =
      let same = promote_from (suc slots) failures candidates in
      let fewer = promote_from slots failures candidates in continue (step failures c) same fewer

abbrev key : Candidate → ℕ
key c = or_else c.priority 4

unfoldable pub insert_candidate : Candidate → List Candidate → List Candidate
insert_candidate c [] = c ∷ []
insert_candidate c (x ∷ xs) =
    let later = insert_candidate c xs in if leb (key c) (key x) then c ∷ x ∷ xs else x ∷ later

-- `sort` by priority, which keeps the order of equals.
unfoldable pub sort_by_priority : List Candidate → List Candidate
unfolding insert_candidate
sort_by_priority [] = []
sort_by_priority (c ∷ candidates) = insert_candidate c (sort_by_priority candidates)

unfoldable pub promote_ready_issues {ℓ} :
    {C : Type ℓ} → Services → PromoteInput C → List Candidate → Promotion
unfolding promote_from sort_by_priority batch_count_consecutive_failures
promote_ready_issues services input backlog =
    let candidates = sort_by_priority backlog in
    promote_from services input input.slots_available
      (batch_count_consecutive_failures input.runs (map (λ c. c.identifier) candidates)) candidates
