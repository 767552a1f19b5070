-- ===== src/Pm/Breaker/Cooldown.antt =====
-- How often an issue is probed.
use urateam.Prelude.{
  In-take, ℕ, zero, suc, ◌-◌, ◌≤◌, ◌≡◌, sym, ap, ◌⊎◌, inl, inr, String, Bool, true, false, some,
  List, [], ◌∷◌, map, leb, arith, if◌then◌else◌, take, length, includes, includes_iff, In, In-map,
  In-map_of, In-filter, All, All-of_In, Bool-cases, subst,
}
use urateam.Auth.Timestamps.{Driver, to_driver}
use urateam.Pm.Runs.{PipelineRun, count_consecutive_failures}
use urateam.Pm.Runs.Failures.{count_of_lem}
use urateam.Pm.Breaker.{
  BreakerRow, SelectProbeCandidatesOptions, is_cool, insert_row, order_rows, eligible, picked_ids,
  mark_probed, select_probe_candidates,
}

In-insert_row :
    (x row : BreakerRow) (rows : List BreakerRow)
    → In x (insert_row row rows)
    → (row ≡ x) ⊎ In x rows
unfolding insert_row
In-insert_row x row [] h = h
In-insert_row x row (r ∷ rows) h = ground (arith, In-insert_row x row rows)

In-order_rows : (x : BreakerRow) (rows : List BreakerRow) → In x (order_rows rows) → In x rows
unfolding order_rows
In-order_rows x [] h = h
In-order_rows x (row ∷ rows) h = elim (In-insert_row x row (order_rows rows) h) [
  | inl e ↦ inl e
  | inr r ↦ inr (In-order_rows x rows r)
]

pub leb→≤ : (a b : ℕ) → leb a b ≡ true → a ≤ b
leb→≤ a b h = ground arith

In-if_nil : (b : Bool) (x : String) (xs : List String) → In x (if b then [] else xs) → In x xs
In-if_nil true x xs h = elim h [ ]
In-if_nil false x xs h = h

-- The issue has a row whose cooldown is over, and as many failures as open the breaker.
abbrev pub IsProbeable :
    Driver → SelectProbeCandidatesOptions → List PipelineRun → List BreakerRow → String → Type 0
IsProbeable driver opts runs rows issue_id =
    ((row : BreakerRow) × In row rows
      × (row.issue_id ≡ issue_id)
      × (is_cool (to_driver driver (opts.now - opts.cooldown_ms)) row.last_probe_at ≡ true))
    × (opts.max_consecutive_failures ≤ count_consecutive_failures runs issue_id)

pub picked-IsProbeable :
    (driver : Driver) (opts : SelectProbeCandidatesOptions) (runs : List PipelineRun)
    (rows : List BreakerRow) (issue_id : String)
    → In issue_id (picked_ids driver opts runs rows)
    → IsProbeable driver opts runs rows issue_id
unfolding picked_ids eligible
picked-IsProbeable driver opts runs rows issue_id h =
    let (row, found, named) = In-map (λ r. r.issue_id) issue_id _ (In-if_nil _ issue_id _ h) in
    let (cool, counted) = In-filter _ row _ (In-take row opts.cap _ found) in
    let (stored, over) = In-filter _ row _ (In-order_rows row _ cool) in
    let counts = count_of_lem runs _ row.issue_id (In-map_of (λ r. r.issue_id) row _ cool) in
    let failures = subst (λ n. leb opts.max_consecutive_failures n ≡ true) counts counted in
    (
      (row, stored, named, over),
      subst (λ i. opts.max_consecutive_failures ≤ count_consecutive_failures runs i) named
          (leb→≤ _ _ failures),
    )

length-take-map : {A B : Type 0} (f : A → B) (n : ℕ) (xs : List A) → length (map f (take n xs)) ≤ n
length-take-map f zero xs = omega arith
length-take-map f (suc n) [] = omega arith
length-take-map f (suc n) (x ∷ xs) = omega (arith, length-take-map f n xs)

length-picked :
    (driver : Driver) (opts : SelectProbeCandidatesOptions) (runs : List PipelineRun)
    (rows : List BreakerRow)
    → length (picked_ids driver opts runs rows) ≤ opts.cap
unfolding picked_ids
length-picked driver opts runs rows =
    ground (arith, length-take-map (λ r. r.issue_id) opts.cap (eligible driver opts runs rows))

-- At most as many issues are probed as the cap says, and each has a row whose cooldown is over and as
-- many failures in a row as open the breaker.
probes_lem :
    (driver : Driver) (opts : SelectProbeCandidatesOptions) (runs : List PipelineRun)
    (rows : List BreakerRow)
    → (length (select_probe_candidates driver opts runs rows).0 ≤ opts.cap)
      × All (IsProbeable driver opts runs rows) (select_probe_candidates driver opts runs rows).0
unfolding select_probe_candidates
probes_lem driver opts runs rows = (
  length-picked driver opts runs rows,
  All-of_In _ (picked_ids driver opts runs rows) (picked-IsProbeable driver opts runs rows),
)

-- A row of an issue that was picked holds the time of the probe.
pub marked-row :
    (ids : List String) (at : ℕ) (row : BreakerRow) (rows : List BreakerRow)
    → In row (mark_probed ids at rows)
    → In row.issue_id ids
    → row.last_probe_at ≡ some at
unfolding mark_probed
marked-row ids at row [] h i = elim h [ ]
marked-row ids at row (r ∷ rows) h i = elim (Bool-cases (includes ids r.issue_id)) [
  | inl t ↦ elim (rw t at h) [
    | inl e ↦ sym (ap (λ q. q.last_probe_at) e)
    | inr rest ↦ marked-row ids at row rows rest i
  ]
  | inr f ↦ elim (rw f at h) [
    | inl e ↦
        let no : includes ids row.issue_id ≡ false =
          subst (λ q. includes ids q.issue_id ≡ false) e f in
        absurd (ground (arith, no, (includes_iff ids row.issue_id).1 i))
    | inr rest ↦ marked-row ids at row rows rest i
  ]
]
