-- ===== src/Release/Tick/Sweep.antt =====
-- What `sweepFirePendingRows` leaves alone.
use urateam.Prelude.{
  ◌+◌, ◌≡◌, refl, ◌∙◌, Bool, true, false, ◌||◌, List, [], ◌∷◌, leb, Bool-cases, inl, inr, or_else,
  str_eq, filter,
}
use urateam.Release.State.{Tables, DecisionRow}
use urateam.Release.Ledger.{persist_decision}
use urateam.Release.Tick.{
  World, exists, gone, unreadable, retry_release, retry_tag, retry_row, retry_rows,
  sweep_fire_pending_rows, max_fire_pending_attempts, TagRef, is_fire_pending,
}

retry_release-approvals :
    (world : World) (row : DecisionRow) (ok : Bool) (tables : Tables)
    → (retry_release world row ok tables).approvals ≡ tables.approvals
unfolding retry_release persist_decision
retry_release-approvals world row true tables = refl
retry_release-approvals world row false tables =
    elim (Bool-cases (leb max_fire_pending_attempts (row.attempt_count + 1))) [
      | inl t ↦ rw t refl
      | inr f ↦ rw f refl
    ]

retry_row-approvals :
    (world : World) (row : DecisionRow) (tables : Tables)
    → (retry_row world row tables).approvals ≡ tables.approvals
unfolding retry_row
retry_row-approvals world row tables =
    elim (Bool-cases
      (str_eq (or_else row.fired_tag "") "" || str_eq (or_else row.fired_sha "") "")) [
        | inl t ↦ rw t refl
        | inr f ↦ rw f (by_ref (world.get_ref (or_else row.fired_tag "")))
      ]
  where
    by_ref :
        (ref : TagRef)
        → (retry_tag world row (or_else row.fired_tag "") ref tables).approvals ≡ tables.approvals
    by_ref gone = refl
    by_ref exists = retry_release-approvals world row _ tables
    by_ref unreadable = retry_release-approvals world row _ tables

retry_rows-approvals :
    (world : World) (rows : List DecisionRow) (tables : Tables)
    → (retry_rows world rows tables).approvals ≡ tables.approvals
unfolding retry_rows
retry_rows-approvals world [] tables = refl
retry_rows-approvals world (row ∷ rows) tables =
    retry_rows-approvals world rows (retry_row world row tables)
    ∙ retry_row-approvals world row tables

-- A retry never consumes an approval.
pub sweep-approvals :
    (world : World) (tables : Tables)
    → (sweep_fire_pending_rows world tables).approvals ≡ tables.approvals
unfolding sweep_fire_pending_rows
sweep-approvals world tables =
    retry_rows-approvals world (filter (is_fire_pending tables) tables.decisions) tables
