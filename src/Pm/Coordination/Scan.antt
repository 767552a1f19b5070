-- ===== src/Pm/Coordination/Scan.antt =====
-- What the scan of the other runs collects.
use urateam.Prelude.{
  ◌≡◌, refl, sym, ap, ◌∙◌, ◌⊎◌, ◌↔◌, inl, inr, String, List, [], ◌∷◌, ◌++◌, arith, includes,
  includes_iff, In, Bool-cases, subst, In-append, In-append_left, In-append_right,
}
use urateam.Pm.Coordination.{
  ActiveWork, FileOverlapResult, push_new, record_overlap, overlap_of, scan,
}

In-push_new :
    (x : String) (overlap overlapping : List String)
    → In x (push_new overlap overlapping) ↔ (In x overlapping ⊎ In x overlap)
unfolding push_new
In-push_new x [] overlapping = ground arith
In-push_new x (f ∷ overlap) overlapping = elim (Bool-cases (includes overlapping f)) [
  | inl e ↦
      let (to, from) = In-push_new x overlap overlapping in
      let there = (includes_iff overlapping f).0 e in
      rw e (
        λ i. elim (to i) [ inl h ↦ inl h | inr h ↦ inr (inr h) ],
        λ i. elim i [
          | inl h ↦ from (inl h)
          | inr j ↦ elim j [
            | inl same ↦ from (inl (subst (λ y. In y overlapping) same there))
            | inr h ↦ from (inr h)
          ]
        ],
      )
  | inr e ↦
      let (to, from) = In-push_new x overlap (overlapping ++ f ∷ []) in
      rw e (
        λ i. elim (to i) [
          | inl h ↦ elim (In-append x overlapping (f ∷ []) h) [
            | inl k ↦ inl k
            | inr k ↦ elim k [ inl same ↦ inr (inl same) | inr none_left ↦ absurd none_left ]
          ]
          | inr h ↦ inr (inr h)
        ],
        λ i. elim i [
          | inl h ↦ from (inl (In-append_left x overlapping (f ∷ []) h))
          | inr j ↦ elim j [
            | inl same ↦ from (inl (In-append_right x overlapping (f ∷ []) (inl same)))
            | inr h ↦ from (inr h)
          ]
        ],
      )
]

-- The file is one that another run has, of those that are asked for.
abbrev pub Shares : (files : List String) → List ActiveWork → String → Type 0
Shares files others x = (row : ActiveWork) × In row others × In x (overlap_of files row)

record_overlap-files :
    (overlap : List String) (run_id : String) (r : FileOverlapResult) (x : String)
    → In x (record_overlap overlap run_id r).overlapping_files
      ↔ (In x r.overlapping_files ⊎ In x overlap)
record_overlap-files [] run_id r x = ground arith
record_overlap-files (f ∷ overlap) run_id r x = In-push_new x (f ∷ overlap) r.overlapping_files

pub scan-files :
    (files : List String) (others : List ActiveWork) (r : FileOverlapResult) (x : String)
    → In x (scan files others r).overlapping_files
      ↔ (In x r.overlapping_files ⊎ Shares files others x)
unfolding scan
scan-files files [] r x =
    (λ i. inl i, λ i. elim i [ inl h ↦ h | inr (row, none_left, shared) ↦ absurd none_left ])
scan-files files (row ∷ others) r x =
    let (to, from) =
      scan-files files others (record_overlap (overlap_of files row) row.run_id r) x in
    let (into, back) = record_overlap-files (overlap_of files row) row.run_id r x in
    (
      λ i. elim (to i) [
        | inl h ↦ elim (into h) [ inl k ↦ inl k | inr k ↦ inr (row, inl refl, k) ]
        | inr (o, found, shared) ↦ inr (o, inr found, shared)
      ],
      λ i. elim i [
        | inl h ↦ from (inl (back (inl h)))
        | inr (o, j, shared) ↦ elim j [
          | inl same ↦
              from (inl (back (inr (subst (λ w. In x (overlap_of files w)) (sym same) shared))))
          | inr found ↦ from (inr (o, found, shared))
        ]
      ],
    )

record_overlap-runs :
    (overlap : List String) (run_id : String) (r : FileOverlapResult) (id : String)
    → In id (record_overlap overlap run_id r).conflicting_run_ids
      ↔ (In id r.conflicting_run_ids ⊎ ((run_id ≡ id) × ((x : String) × In x overlap)))
record_overlap-runs [] run_id r id =
    (λ i. inl i, λ i. elim i [ inl h ↦ h | inr (same, (x, none_left)) ↦ absurd none_left ])
record_overlap-runs (f ∷ overlap) run_id r id = (
  λ i. elim (In-append id r.conflicting_run_ids (run_id ∷ []) i) [
    | inl h ↦ inl h
    | inr j ↦ elim j [ inl same ↦ inr (same, (f, inl refl)) | inr none_left ↦ absurd none_left ]
  ],
  λ i. elim i [
    | inl h ↦ In-append_left id r.conflicting_run_ids (run_id ∷ []) h
    | inr (same, (x, shared)) ↦ In-append_right id r.conflicting_run_ids (run_id ∷ []) (inl same)
  ],
)

-- The run has a file of those that are asked for.
abbrev pub Conflicts : (files : List String) → List ActiveWork → String → Type 0
Conflicts files others id =
    (row : ActiveWork) × In row others
    × (row.run_id ≡ id)
    × ((x : String) × In x (overlap_of files row))

pub scan-runs :
    (files : List String) (others : List ActiveWork) (r : FileOverlapResult) (id : String)
    → In id (scan files others r).conflicting_run_ids
      ↔ (In id r.conflicting_run_ids ⊎ Conflicts files others id)
unfolding scan
scan-runs files [] r id =
    (λ i. inl i, λ i. elim i [ inl h ↦ h | inr (row, none_left, same, shared) ↦ absurd none_left ])
scan-runs files (row ∷ others) r id =
    let (to, from) =
      scan-runs files others (record_overlap (overlap_of files row) row.run_id r) id in
    let (into, back) = record_overlap-runs (overlap_of files row) row.run_id r id in
    (
      λ i. elim (to i) [
        | inl h ↦ elim (into h) [
          | inl k ↦ inl k
          | inr (same, shared) ↦ inr (row, inl refl, same, shared)
        ]
        | inr (o, found, same, shared) ↦ inr (o, inr found, same, shared)
      ],
      λ i. elim i [
        | inl h ↦ from (inl (back (inl h)))
        | inr (o, j, own, shared) ↦ elim j [
          | inl same ↦
              let (x, listed_in) = shared in
              from (
                inl (
                  back (
                    inr (
                      ap (λ w. w.run_id) same ∙ own,
                      (x, subst (λ w. In x (overlap_of files w)) (sym same) listed_in),
                    ))))
          | inr found ↦ from (inr (o, found, own, shared))
        ]
      ],
    )
