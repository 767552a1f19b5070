-- ===== src/Pm/Breaker/Spacing.antt =====
-- How far apart two probes of an issue are.
use urateam.Prelude.{
  ℕ, ◌+◌, ◌-◌, ◌≤◌, ◌<◌, ◌≡◌, ◌≢◌, refl, sym, ap, ◌∙◌, ◌⊎◌, inl, inr, String, true, false, not,
  Option, none, some, List, [], ◌∷◌, map, arith, includes, includes_iff, In, In-map_of, In-filter,
  In-filter_of, In-append, In-append_left, All, Bool-cases, subst, str_eq, eq_iff,
}
use urateam.Auth.Timestamps.{Driver, sqlite, postgres, to_driver}
use urateam.Pm.Runs.{PipelineRun}
use urateam.Pm.Breaker.{
  BreakerRow, SelectProbeCandidatesOptions, is_cool, picked_ids, mark_probed,
  select_probe_candidates, BreakerEvent, select, escalate, clear, insert_state, delete_state,
  after_event, after_events,
}
use urateam.Pm.Breaker.Cooldown.{leb→≤, picked-IsProbeable, marked-row}

to_driver_far :
    (driver : Driver) (s t c : ℕ)
    → c ≤ t
    → to_driver driver s ≤ to_driver driver (t - c)
    → s + c < t + 1000
to_driver_far sqlite s t c h le = omega (arith, h, le)
to_driver_far postgres s t c h le = omega (arith, h, le)

to_driver_le : (driver : Driver) (s t : ℕ) → s ≤ t → to_driver driver s ≤ to_driver driver t
to_driver_le sqlite s t h = omega (arith, h)
to_driver_le postgres s t h = omega (arith, h)

-- The event is not earlier, and does not delete the row of the issue.
abbrev pub Keeps : (issue_id : String) (since : ℕ) → BreakerEvent → Type 0
Keeps issue_id since (select opts runs) = since ≤ opts.now
Keeps issue_id since (escalate other now) = since ≤ now
Keeps issue_id since (clear other) = other ≢ issue_id

-- The stored time, or a later one.
abbrev AtLeast : ℕ → Option ℕ → Type 0
AtLeast at none = true ≡ false
AtLeast at (some t) = at ≤ t

-- The issue has a row, and each of its rows holds the time or a later one.
record Probed (issue_id : String) (at : ℕ) (rows : List BreakerRow) : Type 0 where
  stays : (r : BreakerRow) × In r rows × (r.issue_id ≡ issue_id)
  held : (r : BreakerRow) → In r rows → r.issue_id ≡ issue_id → AtLeast at r.last_probe_at

-- A row after the mark is one of before, marked or not.
mark_probed-row :
    (ids : List String) (at : ℕ) (row : BreakerRow) (rows : List BreakerRow)
    → In row (mark_probed ids at rows)
    → (row.last_probe_at ≡ some at) ⊎ In row rows
unfolding mark_probed
mark_probed-row ids at row [] h = elim h [ ]
mark_probed-row ids at row (r ∷ rows) h = elim (Bool-cases (includes ids r.issue_id)) [
  | inl t ↦ elim (rw t at h) [
    | inl e ↦ inl (sym (ap (λ q. q.last_probe_at) e))
    | inr rest ↦ later (mark_probed-row ids at row rows rest)
  ]
  | inr f ↦ elim (rw f at h) [
    | inl e ↦ inr (inl e)
    | inr rest ↦ later (mark_probed-row ids at row rows rest)
  ]
]
  where
    later :
        (row.last_probe_at ≡ some at) ⊎ In row rows
        → (row.last_probe_at ≡ some at) ⊎ In row (r ∷ rows)
    later (inl e) = inl e
    later (inr i) = inr (inr i)

mark_probed-stays :
    (ids : List String) (at : ℕ) (issue_id : String) (rows : List BreakerRow)
    → ((r : BreakerRow) × In r rows × (r.issue_id ≡ issue_id))
    → (r : BreakerRow) × In r (mark_probed ids at rows) × (r.issue_id ≡ issue_id)
unfolding mark_probed
mark_probed-stays ids at issue_id [] (r, i, e) = elim i [ ]
mark_probed-stays ids at issue_id (q ∷ rows) (r, inr i, e) =
    let (s, j, same) = mark_probed-stays ids at issue_id rows (r, i, e) in
    elim (Bool-cases (includes ids q.issue_id)) [
      | inl t ↦ (s, rw t (inr j), same)
      | inr f ↦ (s, rw f (inr j), same)
    ]
mark_probed-stays ids at issue_id (q ∷ rows) (r, inl p, e) =
    let named : q.issue_id ≡ issue_id = ap (λ x. x.issue_id) p ∙ e in
    elim (Bool-cases (includes ids q.issue_id)) [
      | inl t ↦ (
        record q { last_probe_at = some at; probe_attempts = q.probe_attempts + 1 },
        rw t (inl refl),
        named,
      )
      | inr f ↦ (q, rw f (inl refl), named)
    ]

present : (ids : List String) (id : String) → includes ids id ≡ false → ¬ In id ids
present ids id f i = ground (arith, f, (includes_iff ids id).1 i)

kept :
    (r : BreakerRow) (other issue_id : String)
    → r.issue_id ≡ issue_id
    → other ≢ issue_id
    → not (str_eq r.issue_id other) ≡ true
kept r other issue_id e differ = ground (arith, eq_iff r.issue_id other)

bool_apart : ¬ (true ≡ false)
bool_apart e = cc

module _ (driver : Driver) (issue_id : String) (since : ℕ) where
  abbrev IsProbed : List BreakerRow → Type 0
  IsProbed rows = Probed issue_id (to_driver driver since) rows

  mark_probed-Probed :
      (ids : List String) (at : ℕ) (rows : List BreakerRow)
      → to_driver driver since ≤ at
      → IsProbed rows
      → IsProbed (mark_probed ids at rows)
  mark_probed-Probed ids at rows le p = record {
    stays = mark_probed-stays ids at issue_id rows p.stays;
    held = λ r i same. elim (mark_probed-row ids at r rows i) [
      | inl e ↦ subst (AtLeast (to_driver driver since)) (sym e) le
      | inr j ↦ p.held r j same
    ];
  }

  insert_state-Probed :
      (other : String) (now : ℕ) (rows : List BreakerRow)
      → IsProbed rows
      → IsProbed (insert_state driver other now rows)
  unfolding insert_state
  insert_state-Probed other now rows p =
      elim (Bool-cases (includes (map (λ r. r.issue_id) rows) other)) [
        | inl t ↦ rw t p
        | inr f ↦ rw f (record {
          stays = let (r, i, e) = p.stays in (r, In-append_left r rows _ i, e);
          held = λ r i same. elim (In-append r rows _ i) [
            | inl j ↦ p.held r j same
            | inr j ↦ elim j [
              | inl e ↦
                  let named : other ≡ issue_id = ap (λ q. q.issue_id) e ∙ same in
                  let (q, k, own) = p.stays in
                  let there = In-map_of (λ w. w.issue_id) q rows k in
                  absurd (
                    present (map (λ w. w.issue_id) rows) other f
                      (subst (λ x. In x (map (λ w. w.issue_id) rows)) (own ∙ sym named) there))
              | inr none_left ↦ absurd none_left
            ]
          ];
        })
      ]

  delete_state-Probed :
      (other : String) (rows : List BreakerRow)
      → other ≢ issue_id
      → IsProbed rows
      → IsProbed (delete_state other rows)
  unfolding delete_state
  delete_state-Probed other rows differ p = record {
    stays =
        let (r, i, e) = p.stays in
        (
          r,
          In-filter_of (λ q. not (str_eq q.issue_id other)) r rows i
              (kept r other issue_id e differ),
          e,
        );
    held = λ r i same. p.held r (In-filter (λ q. not (str_eq q.issue_id other)) r rows i).0 same;
  }

  after_event-Probed :
      (e : BreakerEvent) (rows : List BreakerRow)
      → Keeps issue_id since e
      → IsProbed rows
      → IsProbed (after_event driver e rows)
  unfolding after_event select_probe_candidates
  after_event-Probed (select opts runs) rows le p =
      mark_probed-Probed (picked_ids driver opts runs rows) (to_driver driver opts.now) rows
        (to_driver_le driver since opts.now le) p
  after_event-Probed (escalate other now) rows le p = insert_state-Probed other now rows p
  after_event-Probed (clear other) rows differ p = delete_state-Probed other rows differ p

  after_events-Probed :
      (events : List BreakerEvent) (rows : List BreakerRow)
      → All (Keeps issue_id since) events
      → IsProbed rows
      → IsProbed (after_events driver events rows)
  unfolding after_events
  after_events-Probed [] rows h p = p
  after_events-Probed (e ∷ events) rows (k, h) p =
      after_events-Probed events (after_event driver e rows) h (after_event-Probed e rows k p)

-- The table right after a probe of the issue.
select-Probed :
    (driver : Driver) (opts : SelectProbeCandidatesOptions) (runs : List PipelineRun)
    (rows : List BreakerRow) (issue_id : String)
    → In issue_id (select_probe_candidates driver opts runs rows).0
    → Probed issue_id (to_driver driver opts.now) (select_probe_candidates driver opts runs rows).1
unfolding select_probe_candidates
select-Probed driver opts runs rows issue_id probed =
    let ids = picked_ids driver opts runs rows in
    let at = to_driver driver opts.now in
    let ((row, stored, named, cool), _) =
      picked-IsProbeable driver opts runs rows issue_id probed in
    record {
      stays = mark_probed-stays ids at issue_id rows (row, stored, named);
      held = λ r i same.
          subst (AtLeast at)
            (sym (marked-row ids at r rows i (subst (λ x. In x ids) (sym same) probed)))
            (omega arith);
    }

cool-AtLeast : (at cutoff : ℕ) (o : Option ℕ) → AtLeast at o → is_cool cutoff o ≡ true → at ≤ cutoff
cool-AtLeast at cutoff none h cool = absurd (bool_apart h)
cool-AtLeast at cutoff (some t) h cool = omega (arith, h, leb→≤ t cutoff cool)

-- A probe of an issue and a later one are as far apart as the cooldown of the later says, up to the second
-- that SQLite cuts off, whatever selections, escalations and deletions come in between, where none of
-- them is earlier than the first probe and none deletes the row of the issue, and where the cooldown
-- does not reach back beyond the start of the clock.
pub probes_apart :
    (driver : Driver) (first second : SelectProbeCandidatesOptions)
    (runs later_runs : List PipelineRun) (rows : List BreakerRow) (between : List BreakerEvent)
    (issue_id : String)
    → second.cooldown_ms ≤ second.now
    → All (Keeps issue_id first.now) between
    → let (probed, marked) = select_probe_candidates driver first runs rows in
      let table = after_events driver between marked in
      In issue_id probed
      → In issue_id (select_probe_candidates driver second later_runs table).0
      → first.now + second.cooldown_ms < second.now + 1000
unfolding select_probe_candidates
probes_apart driver first second runs later_runs rows between issue_id fits kept_row probed again =
    let marked = (select_probe_candidates driver first runs rows).1 in
    let p =
      after_events-Probed driver issue_id first.now between marked kept_row
        (select-Probed driver first runs rows issue_id probed) in
    let ((row, stored, named, cool), _) =
      picked-IsProbeable driver second later_runs (after_events driver between marked) issue_id
        again in
    to_driver_far driver first.now second.now second.cooldown_ms fits
      (cool-AtLeast _ _ row.last_probe_at (p.held row stored named) cool)
