-- ===== src/Pm/Coordination/Overlaps.antt =====
-- When two runs are told that they overlap.
use urateam.Prelude.{
  ◌≡◌, ◌≢◌, refl, ◌↔◌, inl, inr, String, Bool, true, false, not, some, List, [], ◌∷◌, arith, filter,
  includes, includes_iff, In, eq_iff, In-filter, In-filter_of, is_empty-In, head_of_nonempty,
}
use urateam.Pm.Coordination.{
  StoredFiles, null, malformed, listed, ActiveWork, parsed, overlap_of, scan, no_overlap, has_files,
  is_other, check_file_overlap,
}
use urateam.Pm.Coordination.Scan.{scan-files, scan-runs}

has_files-In : (f : StoredFiles) (x : String) → In x (parsed f) → has_files f ≡ true
has_files-In null x i = elim i [ ]
has_files-In malformed x i = elim i [ ]
has_files-In (listed fs) x i = refl

-- Another run has the file.
abbrev pub Others : List ActiveWork → (run_id id x : String) → Type 0
Others rows run_id id x =
    (row : ActiveWork) × In row rows
    × (row.run_id ≡ id)
    × (id ≢ run_id)
    × In x (parsed row.files_modified)

differs :
    (row : ActiveWork) (run_id id : String)
    → row.run_id ≡ id
    → is_other run_id row ≡ true
    → id ≢ run_id
differs row run_id id same other e = ground (arith, eq_iff row.run_id run_id)

other_of :
    (row : ActiveWork) (run_id id x : String)
    → row.run_id ≡ id
    → id ≢ run_id
    → In x (parsed row.files_modified)
    → is_other run_id row ≡ true
other_of row run_id id x same differ has =
    ground (arith, eq_iff row.run_id run_id, has_files-In row.files_modified x has)

other_iff :
    (run_id id x : String) (fs : List String) (rows : List ActiveWork)
    → ((row : ActiveWork) × In row (filter (is_other run_id) rows)
        × (row.run_id ≡ id)
        × In x (overlap_of fs row))
      ↔ (In x fs × Others rows run_id id x)
other_iff run_id id x fs rows = (
  λ (row, i, same, shared).
      let (found, other) = In-filter (is_other run_id) row rows i in
      let (has, asked) = In-filter (λ f. includes fs f) x (parsed row.files_modified) shared in
      ((includes_iff fs x).0 asked, (row, found, same, differs row run_id id same other, has)),
  λ (asked, (row, found, same, differ, has)). (
    row,
    In-filter_of (is_other run_id) row rows found (other_of row run_id id x same differ has),
    same,
    In-filter_of (λ f. includes fs f) x (parsed row.files_modified) has
        ((includes_iff fs x).1 asked),
  ),
)

files_iff :
    (rows : List ActiveWork) (run_id x : String) (fs : List String)
    → In x (scan fs (filter (is_other run_id) rows) no_overlap).overlapping_files
      ↔ (In x fs × ((id : String) × Others rows run_id id x))
files_iff rows run_id x fs =
    let (to, from) = scan-files fs (filter (is_other run_id) rows) no_overlap x in
    (
      λ i. elim (to i) [
        | inl none_left ↦ absurd none_left
        | inr (row, found, shared) ↦
            let (asked, other) =
              (other_iff run_id row.run_id x fs rows).0 (row, found, refl, shared) in
            (asked, (row.run_id, other))
      ],
      λ (asked, (id, other)).
          let (row, found, same, shared) = (other_iff run_id id x fs rows).1 (asked, other) in
          from (inr (row, found, shared)),
    )

not-true : (b : Bool) → not b ≡ true → b ≡ false
not-true b e = ground arith

true-not : (b : Bool) → b ≡ false → not b ≡ true
true-not b e = ground arith

-- A run is told of exactly those of its files that a different run has, of exactly the runs that have
-- one of them, and of an overlap exactly where there is one.
pub check_file_overlap_lem :
    (rows : List ActiveWork) (run_id : String) (files : List String)
    → let result = check_file_overlap (some rows) run_id files in
      ((x : String)
        → In x result.overlapping_files ↔ (In x files × ((id : String) × Others rows run_id id x)))
      × ((id : String)
          → In id result.conflicting_run_ids
            ↔ ((x : String) × In x files × Others rows run_id id x))
      × ((result.has_overlap ≡ true)
          ↔ ((x : String) × In x files × ((id : String) × Others rows run_id id x)))
unfolding check_file_overlap
check_file_overlap_lem rows run_id [] = (
  λ x. (λ i. elim i [ ], λ (i, o). elim i [ ]),
  λ id. (λ i. elim i [ ], λ (x, i, o). elim i [ ]),
  (λ e. cc, λ (x, i, o). elim i [ ]),
)
check_file_overlap_lem rows run_id (f ∷ fs) =
    let others = filter (is_other run_id) rows in
    let told = scan (f ∷ fs) others no_overlap in
    (
      λ x. files_iff rows run_id x (f ∷ fs),
      λ id.
          let (to, from) = scan-runs (f ∷ fs) others no_overlap id in
          (
            λ i. elim (to i) [
              | inl none_left ↦ absurd none_left
              | inr (row, found, same, (x, shared)) ↦
                  let (asked, other) =
                    (other_iff run_id id x (f ∷ fs) rows).0 (row, found, same, shared) in
                  (x, asked, other)
            ],
            λ (x, asked, other).
                let (row, found, same, shared) =
                  (other_iff run_id id x (f ∷ fs) rows).1 (asked, other) in
                from (inr (row, found, same, (x, shared))),
          ),
      (
        λ e.
            let (x, i) = head_of_nonempty told.overlapping_files (not-true _ e) in
            let (asked, other) = (files_iff rows run_id x (f ∷ fs)).0 i in (x, asked, other),
        λ (x, asked, other). true-not _ (
            is_empty-In x told.overlapping_files
              ((files_iff rows run_id x (f ∷ fs)).1 (asked, other))),
      ),
    )
