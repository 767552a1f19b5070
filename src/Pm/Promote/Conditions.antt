-- ===== src/Pm/Promote/Conditions.antt =====
-- Which issues are promoted, and how many.
use urateam.Prelude.{
  ℕ, zero, suc, ◌≤◌, ◌≡◌, ◌≢◌, refl, sym, ap, ◌∙◌, inl, inr, String, Bool, true, false, ◌&&◌, not,
  Option, none, some, List, [], ◌∷◌, ◌++◌, arith, if◌then◌else◌, length, or_else, Assoc, In, All,
  subst,
}
use urateam.Pm.Runs.{count_of, get_last_failure_error}
use urateam.Pm.StateMap.{todo_states}
use urateam.Pm.Promote.{
  OverlapRisk, no_risk, low_risk, high_risk, Candidate, Call, set_state, set_labels,
  comment_escalated, comment_promoted, alert, record_escalation, Services, PromoteInput, Promotion,
  Step, pass, promote, throw, already_escalated, after_linear, relabel_calls, escalate_calls,
  promote_to, after_conflict, has_pipeline, breaks, step, continue, promote_from, todo_state, trip,
  needs_design_id,
}

-- The issues that Linear is asked to move, with their new states.
abbrev pub moves : List Call → List (String × String)
moves [] = []
moves (set_state issue state ∷ calls) = (issue, state) ∷ moves calls
moves (set_labels issue labels ∷ calls) = moves calls
moves (comment_escalated issue count error ∷ calls) = moves calls
moves (comment_promoted issue risk ∷ calls) = moves calls
moves (alert issue ∷ calls) = moves calls
moves (record_escalation issue ∷ calls) = moves calls

moves-append : (xs ys : List Call) → moves (xs ++ ys) ≡ moves xs ++ moves ys
moves-append [] ys = refl
moves-append (set_state issue state ∷ xs) ys = ap (λ m. (issue, state) ∷ m) (moves-append xs ys)
moves-append (set_labels issue labels ∷ xs) ys = moves-append xs ys
moves-append (comment_escalated issue count error ∷ xs) ys = moves-append xs ys
moves-append (comment_promoted issue risk ∷ xs) ys = moves-append xs ys
moves-append (alert issue ∷ xs) ys = moves-append xs ys
moves-append (record_escalation issue ∷ xs) ys = moves-append xs ys

abbrev calls_of : Step → List Call
calls_of (pass calls result) = calls
calls_of (promote calls result) = calls
calls_of (throw calls) = calls

abbrev is_pass : Step → Bool
is_pass (pass calls result) = true
is_pass _ = false

-- An escalation moves nothing.
relabel-moves :
    (services : Services) (c : Candidate) (count : ℕ) (error id : Option String)
    → moves (relabel_calls services c count error id) ≡ []
unfolding relabel_calls
relabel-moves services c count error none = refl
relabel-moves services c count error (some id) = ground arith

after_linear-moves : (has_slack : Bool) (c : Candidate) → moves (after_linear has_slack c) ≡ []
after_linear-moves true c = refl
after_linear-moves false c = refl

unless_moves :
    (b : Bool) (calls : List Call) → moves calls ≡ [] → moves (if b then [] else calls) ≡ []
unless_moves true calls h = refl
unless_moves false calls h = h

escalate-moves :
    (services : Services) (c : Candidate) (count : ℕ) (error : Option String)
    → moves (escalate_calls services c count error) ≡ []
unfolding escalate_calls
escalate-moves services c count error =
    let relabels =
      relabel_calls services c count error (needs_design_id (or_else services.issue_labels [])) in
    moves-append relabels (after_linear services.has_slack c)
    ∙ ap (λ m. m ++ moves (after_linear services.has_slack c))
        (relabel-moves services c count error _)
    ∙ after_linear-moves services.has_slack c

promote_to-moves :
    (services : Services) (c : Candidate) (risk : OverlapRisk) (state : String)
    → moves (calls_of (promote_to services c risk state)) ≡ (c.id, state) ∷ []
unfolding promote_to
promote_to-moves services c risk state = ground arith

promote_to-is_pass :
    (services : Services) (c : Candidate) (risk : OverlapRisk) (state : String)
    → is_pass (promote_to services c risk state) ≡ false
unfolding promote_to
promote_to-is_pass services c risk state = ground arith

-- The moves of calls before others.
moves-then :
    (calls later : List Call) (ms : List (String × String))
    → moves calls ≡ ms
    → moves (calls ++ later) ≡ ms ++ moves later
moves-then calls later ms e = moves-append calls later ∙ ap (λ m. m ++ moves later) e

module _ {ℓ} {C : Type ℓ} (services : Services) (input : PromoteInput C) (failures : Assoc ℕ) where
  -- The issue has a pipeline where one is asked for, its breaker does not hold it back, the conflict
  -- check answered and saw no high risk, and its team has the state.
  abbrev pub IsPromotable : Candidate → String → Type 0
  IsPromotable c state =
      (input.require_pipeline_label ≡ true → has_pipeline services input c ≡ true)
      × (breaks services input input.max_consecutive_failures failures c ≡ false)
      × ((risk : OverlapRisk) × (services.check_conflict c.description ≡ some risk)
          × (risk ≢ high_risk))
      × (todo_state (todo_states input.state_map) c.team_id ≡ some state)

  -- A step moves nothing, or its candidate and that is promotable.
  data Moves (c : Candidate) (s : Step) : Type 0 where
    still : moves (calls_of s) ≡ [] → Moves c s
    moved :
        (state : String)
        → moves (calls_of s) ≡ (c.id, state) ∷ []
        → is_pass s ≡ false
        → IsPromotable c state
        → Moves c s

  if_Moves :
      (c : Candidate) (b : Bool) (x y : Step)
      → (b ≡ true → Moves c x)
      → (b ≡ false → Moves c y)
      → Moves c (if b then x else y)
  if_Moves c true x y h k = h refl
  if_Moves c false x y h k = k refl

  after_conflict-Moves :
      (c : Candidate) (o : Option OverlapRisk) (todo : Option String)
      → ((state : String) (risk : OverlapRisk)
          → o ≡ some risk
          → risk ≢ high_risk
          → todo ≡ some state
          → IsPromotable c state)
      → Moves c (after_conflict services c o todo)
  unfolding after_conflict
  after_conflict-Moves c none todo h = still refl
  after_conflict-Moves c (some high_risk) todo h = still refl
  after_conflict-Moves c (some no_risk) none h = still refl
  after_conflict-Moves c (some low_risk) none h = still refl
  after_conflict-Moves c (some no_risk) (some state) h =
      moved state (promote_to-moves services c no_risk state)
        (promote_to-is_pass services c no_risk state) (h state no_risk refl (λ e. cc) refl)
  after_conflict-Moves c (some low_risk) (some state) h =
      moved state (promote_to-moves services c low_risk state)
        (promote_to-is_pass services c low_risk state) (h state low_risk refl (λ e. cc) refl)

  trip-Moves : (c : Candidate) → Moves c (trip services input failures c)
  trip-Moves c = still (
      unless_moves (already_escalated c) _ (
        escalate-moves services c (count_of failures c.identifier)
          (get_last_failure_error input.runs c.identifier)))

  step-Moves : (c : Candidate) → Moves c (step services input failures c)
  unfolding step
  step-Moves c =
      if_Moves c (input.require_pipeline_label && not (has_pipeline services input c)) _ _
        (λ _. still refl)
        (λ labelled.
          if_Moves c (breaks services input input.max_consecutive_failures failures c) _ _
            (λ _. trip-Moves c)
            (λ closed.
              after_conflict-Moves c (services.check_conflict c.description)
                (todo_state (todo_states input.state_map) c.team_id)
                (λ state risk answered low todo.
                  (λ required. ground arith, closed, (risk, answered, low), todo))))

  -- The move is that of one of the candidates, which is promotable.
  abbrev pub IsAllowed : List Candidate → String × String → Type 0
  IsAllowed candidates m = (c : Candidate) × In c candidates × (c.id ≡ m.0) × IsPromotable c m.1

  IsAllowed-later :
      (c : Candidate) (candidates : List Candidate) (ms : List (String × String))
      → All (IsAllowed candidates) ms
      → All (IsAllowed (c ∷ candidates)) ms
  IsAllowed-later c candidates [] h = tt
  IsAllowed-later c candidates (m ∷ ms) ((d, i, e, p), h) =
      ((d, inr i, e, p), IsAllowed-later c candidates ms h)

  -- What a run of the loop from here on may do.
  pub record Bounded (slots : ℕ) (candidates : List Candidate) (p : Promotion) : Type ℓ where
    pub few : length (moves p.calls) ≤ slots
    pub allowed : All (IsAllowed candidates) (moves p.calls)

  Bounded-of :
      (slots : ℕ) (candidates : List Candidate) (p : Promotion) (ms : List (String × String))
      → moves p.calls ≡ ms
      → length ms ≤ slots
      → All (IsAllowed candidates) ms
      → Bounded slots candidates p
  Bounded-of slots candidates p ms e few allowed = record {
    few = subst (λ m. length m ≤ slots) (sym e) few;
    allowed = subst (All (IsAllowed candidates)) (sym e) allowed;
  }

  continue-Bounded :
      (slots : ℕ) (c : Candidate) (candidates : List Candidate) (s : Step) (same fewer : Promotion)
      → Moves c s
      → Bounded (suc slots) candidates same
      → Bounded slots candidates fewer
      → Bounded (suc slots) (c ∷ candidates) (continue services input s same fewer)
  continue-Bounded slots c candidates (pass calls r) same fewer (still e) b d =
      Bounded-of (suc slots) (c ∷ candidates) _ _ (moves-then calls same.calls [] e) b.few
        (IsAllowed-later c candidates _ b.allowed)
  continue-Bounded slots c candidates (pass calls r) same fewer (moved state e p ok) b d = cc
  continue-Bounded slots c candidates (promote calls r) same fewer (still e) b d =
      Bounded-of (suc slots) (c ∷ candidates) _ _ (moves-then calls fewer.calls [] e)
        (omega (arith, d.few)) (IsAllowed-later c candidates _ d.allowed)
  continue-Bounded slots c candidates (promote calls r) same fewer (moved state e p ok) b d =
      Bounded-of (suc slots) (c ∷ candidates) _ _
        (moves-then calls fewer.calls ((c.id, state) ∷ []) e) (omega (arith, d.few))
        ((c, inl refl, refl, ok), IsAllowed-later c candidates _ d.allowed)
  continue-Bounded slots c candidates (throw calls) same fewer (still e) b d =
      Bounded-of (suc slots) (c ∷ candidates) _ _ e (omega arith) tt
  continue-Bounded slots c candidates (throw calls) same fewer (moved state e p ok) b d =
      Bounded-of (suc slots) (c ∷ candidates) _ _ e (omega arith) ((c, inl refl, refl, ok), tt)

  pub promote_from-Bounded :
      (slots : ℕ) (candidates : List Candidate)
      → Bounded slots candidates (promote_from services input slots failures candidates)
  unfolding promote_from
  promote_from-Bounded slots [] = record { few = omega arith; allowed = tt }
  promote_from-Bounded zero (c ∷ candidates) = record { few = omega arith; allowed = tt }
  promote_from-Bounded (suc slots) (c ∷ candidates) =
      continue-Bounded slots c candidates (step services input failures c) _ _ (step-Moves c)
        (promote_from-Bounded (suc slots) candidates) (promote_from-Bounded slots candidates)
