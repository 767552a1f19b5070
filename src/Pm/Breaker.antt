-- ===== src/Pm/Breaker.antt =====
-- The circuit breaker: pm/actions/circuit-breaker-config.ts and select-probe-candidates.ts, with the
-- statements by which promote.ts, recover-circuit-breaker.ts and db-queries.ts change its table: the
-- rows of `circuitBreakerState` (db/schema.ts).
pub mod Cooldown
pub mod Spacing
use urateam.Prelude.{
  ℕ, zero, ◌+◌, ◌-◌, ◌*◌, String, Bool, true, false, ◌||◌, not, Option, none, some, List, [], ◌∷◌,
  ◌++◌, map, leb, ltb, if◌then◌else◌, filter, take, str_eq, includes, or_else,
}
use urateam.Auth.Timestamps.{Driver, to_driver}
use urateam.Pm.Runs.{PipelineRun, batch_count_consecutive_failures, count_of}

-- A row holds times as the driver holds them.
pub record BreakerRow : Type 0 where
  pub issue_id : String
  pub escalated_at : ℕ
  pub last_probe_at : Option ℕ
  pub probe_attempts : ℕ

pub record CircuitBreakerProbeConfig : Type 0 where
  pub disabled : Bool
  pub cooldown_ms : ℕ
  pub max_probes_per_tick : ℕ

-- A number that was read, or `none` for a text that is none; 0 is no positive number.
abbrev positive_or : Option ℕ → ℕ → ℕ
positive_or none fallback = fallback
positive_or (some zero) fallback = fallback
positive_or (some n) fallback = n

-- The environment: the switch, and the two numbers as `parseInt` reads them.
unfoldable pub get_circuit_breaker_probe_config :
    (switch : String) (age_min max_probes : Option ℕ) → CircuitBreakerProbeConfig
get_circuit_breaker_probe_config switch age_min max_probes = record {
  disabled = str_eq switch "true";
  cooldown_ms = positive_or age_min 120 * 60 * 1000;
  max_probes_per_tick = positive_or max_probes 2;
}

pub record SelectProbeCandidatesOptions : Type 0 where
  pub cap : ℕ
  pub cooldown_ms : ℕ
  pub max_consecutive_failures : ℕ
  pub now : ℕ
  pub disabled : Bool

-- Never probed, or probed at the cutoff or before.
abbrev pub is_cool : ℕ → Option ℕ → Bool
is_cool cutoff none = true
is_cool cutoff (some t) = leb t cutoff

-- `ORDER BY`: no probe before any, then the oldest.
abbrev probed_before : Option ℕ → Option ℕ → Bool
probed_before none b = true
probed_before (some a) none = false
probed_before (some a) (some b) = leb a b

unfoldable pub insert_row : BreakerRow → List BreakerRow → List BreakerRow
insert_row row [] = row ∷ []
insert_row row (r ∷ rows) =
    let later = insert_row row rows in
    if probed_before row.last_probe_at r.last_probe_at then row ∷ r ∷ rows else r ∷ later

unfoldable pub order_rows : List BreakerRow → List BreakerRow
unfolding insert_row
order_rows [] = []
order_rows (row ∷ rows) = insert_row row (order_rows rows)

-- The rows whose cooldown is over, with as many failures as open the breaker.
unfoldable pub eligible :
    Driver → SelectProbeCandidatesOptions → List PipelineRun → List BreakerRow → List BreakerRow
unfolding order_rows batch_count_consecutive_failures
eligible driver opts runs rows =
    let cutoff = to_driver driver (opts.now - opts.cooldown_ms) in
    let cool = order_rows (filter (λ r. is_cool cutoff r.last_probe_at) rows) in
    let counts = batch_count_consecutive_failures runs (map (λ r. r.issue_id) cool) in
    filter (λ r. leb opts.max_consecutive_failures (count_of counts r.issue_id)) cool

unfoldable pub picked_ids :
    Driver → SelectProbeCandidatesOptions → List PipelineRun → List BreakerRow → List String
unfolding eligible
picked_ids driver opts runs rows =
    let ids = map (λ r. r.issue_id) (take opts.cap (eligible driver opts runs rows)) in
    if opts.disabled || leb opts.max_consecutive_failures 0 then [] else ids

-- `last_probe_at = now`, `probe_attempts + 1` on the rows that were picked.
unfoldable pub mark_probed : List String → ℕ → List BreakerRow → List BreakerRow
mark_probed ids at [] = []
mark_probed ids at (r ∷ rows) =
    let rest = mark_probed ids at rows in
    if includes ids r.issue_id
    then record r { last_probe_at = some at; probe_attempts = r.probe_attempts + 1 } ∷ rest
    else r ∷ rest

-- The picked issues, and the table after them.
unfoldable pub select_probe_candidates :
    Driver
    → SelectProbeCandidatesOptions
    → List PipelineRun
    → List BreakerRow
    → List String × List BreakerRow
unfolding picked_ids mark_probed
select_probe_candidates driver opts runs rows =
    let ids = picked_ids driver opts runs rows in
    (ids, mark_probed ids (to_driver driver opts.now) rows)

-- What else happens to the table: an escalation inserts a row unless there is one, and a recovery or a
-- reset deletes the row of an issue.
pub data BreakerEvent : Type 0 where
  select : SelectProbeCandidatesOptions → List PipelineRun → BreakerEvent
  escalate : (issue_id : String) (now : ℕ) → BreakerEvent
  clear : (issue_id : String) → BreakerEvent

-- `INSERT … ON CONFLICT DO NOTHING`
unfoldable pub insert_state :
    Driver → (issue_id : String) (now : ℕ) → List BreakerRow → List BreakerRow
insert_state driver issue_id now rows =
    if includes (map (λ r. r.issue_id) rows) issue_id
    then rows
    else rows
      ++ record {
        issue_id = issue_id;
        escalated_at = to_driver driver now;
        last_probe_at = none;
        probe_attempts = 0;
      }
        ∷ []

unfoldable pub delete_state : (issue_id : String) → List BreakerRow → List BreakerRow
delete_state issue_id rows = filter (λ r. not (str_eq r.issue_id issue_id)) rows

unfoldable pub after_event : Driver → BreakerEvent → List BreakerRow → List BreakerRow
unfolding select_probe_candidates insert_state delete_state
after_event driver (select opts runs) rows = (select_probe_candidates driver opts runs rows).1
after_event driver (escalate issue_id now) rows = insert_state driver issue_id now rows
after_event driver (clear issue_id) rows = delete_state issue_id rows

unfoldable pub after_events : Driver → List BreakerEvent → List BreakerRow → List BreakerRow
unfolding after_event
after_events driver [] rows = rows
after_events driver (e ∷ events) rows = after_events driver events (after_event driver e rows)
