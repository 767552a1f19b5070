-- ===== src/Release/Tick/ManualTags.antt =====
-- What a tag that was made by hand does to the ticks after it.
use urateam.Prelude.{
  ℕ, ◌≡◌, refl, sym, ap, ◌∙◌, String, Bool, true, false, ◌||◌, not, Option, none, some, List, [],
  ◌∷◌, arith, ltb, if◌then◌else◌, or_else, str_eq, filter, All, subst,
}
use urateam.Release.State.{
  Tables, Tag, DecisionRow, find_tag, collected, collect_state, latest_decision, is_fired,
  last_fired_tag, differs, tag_name, map_option,
}
use urateam.Release.Ledger.{persist_decision, row_of}
use urateam.Release.Tick.{World, Config, Outcome, is_fire_pending, sweep_fire_pending_rows}
use urateam.Release.Tick.Cycle.{quiet, on_state, tables_for, tick}

abbrev last_fired : Tables → Option String
last_fired tables = last_fired_tag (latest_decision is_fired tables tables.decisions)

abbrev newest_tag : Option (List Tag) → Option String
newest_tag tags = map_option tag_name (find_tag (or_else tags []))

-- The newest tag is not the last that was fired, and no release waits for a retry.
abbrev pub HasManualTag : Option (List Tag) → Tables → Type 0
HasManualTag tags tables =
    (differs (newest_tag tags) (last_fired tables) ≡ true)
    × (filter (is_fire_pending tables) tables.decisions ≡ [])

-- The query reads of the tables the repository and the branch.
latest_decision-same :
    (s t : Tables) (rows : List DecisionRow)
    → s.repo_url ≡ t.repo_url
    → s.branch ≡ t.branch
    → latest_decision is_fired s rows ≡ latest_decision is_fired t rows
unfolding latest_decision
latest_decision-same s t [] u b = refl
latest_decision-same s t (r ∷ rows) u b = rw (latest_decision-same s t rows u b, u, b) refl

sweep_nothing :
    (world : World) (tables : Tables)
    → filter (is_fire_pending tables) tables.decisions ≡ []
    → sweep_fire_pending_rows world tables ≡ tables
unfolding sweep_fire_pending_rows
sweep_nothing world tables h = rw h refl

abbrev skipped_manual : World → DecisionRow → Tables → Tables
skipped_manual world row tables = record tables { decisions = row ∷ tables.decisions }

latest_decision-skip :
    (row : DecisionRow) (tables : Tables)
    → row.decision ≡ "skip"
    → latest_decision is_fired
        (record tables { decisions = row ∷ tables.decisions })
        (row ∷ tables.decisions)
      ≡ latest_decision is_fired tables tables.decisions
unfolding latest_decision
latest_decision-skip row tables e =
    let same =
      latest_decision-same (record tables { decisions = row ∷ tables.decisions }) tables
        tables.decisions refl refl in
    let fires : is_fired row ≡ false = rw e refl in ground (arith, same, fires)

pending-skip :
    (row : DecisionRow) (tables : Tables)
    → row.decision ≡ "skip"
    → filter (is_fire_pending tables) (row ∷ tables.decisions)
      ≡ filter (is_fire_pending tables) tables.decisions
pending-skip row tables e =
    let quiet : str_eq row.decision "fire-pending" ≡ false = rw e refl in ground (arith, quiet)

-- A row with a skip is no release.
HasManualTag-skip :
    (tags : Option (List Tag)) (tables : Tables) (row : DecisionRow)
    → row.decision ≡ "skip"
    → HasManualTag tags tables
    → HasManualTag tags (record tables { decisions = row ∷ tables.decisions })
HasManualTag-skip tags tables row e (d, p) = (
  ap (λ o. differs (newest_tag tags) (last_fired_tag o)) (latest_decision-skip row tables e) ∙ d,
  pending-skip row tables e ∙ p,
)

HasManualTag-tables_for :
    (config : Config) (tags : Option (List Tag)) (tables : Tables)
    → HasManualTag tags tables
    → HasManualTag tags (tables_for config tables)
unfolding tables_for
HasManualTag-tables_for config tags tables (d, p) = (
  ap (λ o. differs (newest_tag tags) (last_fired_tag o))
        (latest_decision-same (tables_for config tables) tables tables.decisions refl refl)
      ∙ d,
  p,
)

collected-manual :
    (world : World) (tables : Tables) (head : String)
    → HasManualTag world.answers.tags tables
    → (collected world.answers tables world.now head).manual_tag_detected ≡ true
unfolding collected
collected-manual world tables head (d, p) = d

-- Nothing is tagged, and the next tick is as this one.
record IsIdle (tags : Option (List Tag)) (o : Outcome) : Type 0 where
  untagged : o.tagged ≡ none
  manual : HasManualTag tags o.tables

on_state-IsIdle :
    (world : World) (config : Config) (tables : Tables) (head : Option String)
    → HasManualTag world.answers.tags tables
    → IsIdle world.answers.tags
        (on_state world config tables (map_option (collected world.answers tables world.now) head))
unfolding on_state persist_decision row_of
on_state-IsIdle world config tables none h = record { untagged = refl; manual = h }
on_state-IsIdle world config tables (some head) h =
    rw (collected-manual world tables head h)
      (record { untagged = refl; manual = HasManualTag-skip world.answers.tags tables _ refl h })

if_IsIdle :
    (b : Bool) (tags : Option (List Tag)) (x y : Outcome)
    → IsIdle tags x
    → IsIdle tags y
    → IsIdle tags (if b then x else y)
if_IsIdle true tags x y h k = h
if_IsIdle false tags x y h k = k

tick-IsIdle :
    (world : World) (config : Config) (paused_until : ℕ) (tables : Tables)
    → HasManualTag world.answers.tags tables
    → IsIdle world.answers.tags (tick world config paused_until tables)
unfolding tick collect_state
tick-IsIdle world config paused_until tables h =
    let swept = tables_for config (sweep_fire_pending_rows world tables) in
    if_IsIdle (not world.is_licensed || ltb world.now paused_until) world.answers.tags
      (quiet tables) (on_state world config swept (collect_state world.answers swept world.now))
      (record { untagged = refl; manual = h })
      (on_state-IsIdle world config swept world.answers.branch_head (
        HasManualTag-tables_for config world.answers.tags (sweep_fire_pending_rows world tables)
          (subst (HasManualTag world.answers.tags) (sym (sweep_nothing world tables h.1)) h)))

-- Ticks one after the other, each with the pause in force then: the tags that they ask for.
unfoldable pub ticks : Config → List (World × ℕ) → Tables → List (Option (String × String))
unfolding tick
ticks config [] tables = []
ticks config ((world, paused_until) ∷ later) tables =
    let o = tick world config paused_until tables in o.tagged ∷ ticks config later o.tables

-- Where the newest tag is not the last that was fired, and no release waits for a retry, no tick fires
-- a release any more, for as long as GitHub shows the same tags.
pub manual_tag_stays :
    (config : Config) (tags : Option (List Tag)) (worlds : List (World × ℕ)) (tables : Tables)
    → HasManualTag tags tables
    → All (λ w. w.0.answers.tags ≡ tags) worlds
    → All (λ t. t ≡ none) (ticks config worlds tables)
unfolding ticks
manual_tag_stays config tags [] tables h same = tt
manual_tag_stays config tags ((world, paused_until) ∷ later) tables h (e, same) =
    let idle =
      tick-IsIdle world config paused_until tables (subst (λ t. HasManualTag t tables) (sym e) h) in
    (
      idle.untagged,
      manual_tag_stays config tags later (tick world config paused_until tables).tables
          (subst (λ t. HasManualTag t (tick world config paused_until tables).tables) e idle.manual)
          same,
    )
