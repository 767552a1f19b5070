-- ===== src/Policy/Blocklist.antt =====
-- What policy/path-gate.ts reports.
use urateam.Prelude.{
  ◌≡◌, refl, sym, inl, inr, ◌↔◌, String, true, List, [], ◌∷◌, arith, In, In-append, In-append_left,
  In-append_right, In-if_cons,
}
use urateam.Glob.{matches_any_pattern}
use urateam.Policy.{PolicyViolation}
use urateam.Policy.Gates.{path_violation, blocked_by, blocked_files, evaluate_path_blocklist}

-- The file stands on the blocklist through the pattern.
abbrev pub Blocks : List String → List String → String → String → Type 0
Blocks files patterns file pattern =
    In file files × In pattern patterns × (matches_any_pattern file (pattern ∷ []) ≡ true)

blocked_by_sound :
    (file : String) (patterns : List String) {v : PolicyViolation}
    → In v (blocked_by file patterns)
    → (pattern : String) × In pattern patterns
      × (matches_any_pattern file (pattern ∷ []) ≡ true)
      × (v ≡ path_violation file pattern)
unfolding blocked_by
blocked_by_sound file [] h = elim h [ ]
blocked_by_sound file (p ∷ ps) {v} h =
    elim (In-if_cons (matches_any_pattern file (p ∷ [])) v _ _ h) [
      | inl (m, same) ↦ (p, inl refl, m, sym same)
      | inr r ↦ let (q, i, m, same) = blocked_by_sound file ps r in (q, inr i, m, same)
    ]

blocked_by_complete :
    (file pattern : String) (patterns : List String)
    → In pattern patterns
    → matches_any_pattern file (pattern ∷ []) ≡ true
    → In (path_violation file pattern) (blocked_by file patterns)
unfolding blocked_by
blocked_by_complete file pattern [] i m = elim i [ ]
blocked_by_complete file pattern (p ∷ ps) (inl e) m = rw (e, m) (inl refl)
blocked_by_complete file pattern (p ∷ ps) (inr i) m =
    ground (arith, blocked_by_complete file pattern ps i m)

blocked_files_sound :
    (files patterns : List String) {v : PolicyViolation}
    → In v (blocked_files files patterns)
    → (file : String) × (pattern : String) × Blocks files patterns file pattern
      × (v ≡ path_violation file pattern)
unfolding blocked_files
blocked_files_sound [] patterns h = elim h [ ]
blocked_files_sound (f ∷ fs) patterns {v} h =
    elim (In-append v (blocked_by f patterns) (blocked_files fs patterns) h) [
      | inl a ↦
          let (p, i, m, same) = blocked_by_sound f patterns a in (f, p, (inl refl, i, m), same)
      | inr b ↦
          let (g, p, (i, j, m), same) = blocked_files_sound fs patterns b in
          (g, p, (inr i, j, m), same)
    ]

blocked_files_complete :
    (files patterns : List String) (file pattern : String)
    → Blocks files patterns file pattern
    → In (path_violation file pattern) (blocked_files files patterns)
unfolding blocked_files
blocked_files_complete [] patterns file pattern (i, j, m) = elim i [ ]
blocked_files_complete (f ∷ fs) patterns file pattern (inl e, j, m) =
    rw e (In-append_left _ _ _ (blocked_by_complete file pattern patterns j m))
blocked_files_complete (f ∷ fs) patterns file pattern (inr i, j, m) =
    In-append_right _ (blocked_by f patterns) _
      (blocked_files_complete fs patterns file pattern (i, j, m))

-- The path gate reports a violation exactly for each changed file and each pattern of the
-- blocklist that matches it, and nothing else.
pub evaluate_path_blocklist_iff :
    (files patterns : List String) (v : PolicyViolation)
    → In v (evaluate_path_blocklist files patterns) ↔ (
        (file : String) × (pattern : String) × Blocks files patterns file pattern
        × (v ≡ path_violation file pattern))
unfolding evaluate_path_blocklist
evaluate_path_blocklist_iff files [] v = (λ h. elim h [ ], λ (f, p, (i, j, m), same). elim j [ ])
evaluate_path_blocklist_iff files (q ∷ qs) v = (
  blocked_files_sound files (q ∷ qs),
  λ (f, p, b, same). rw same (blocked_files_complete files (q ∷ qs) f p b),
)
