-- ===== src/Policy/Gates.antt =====
-- policy/path-gate.ts, policy/cost-gate.ts and policy/override.ts.
use Prim.Native.String
use urateam.Prelude.{
  ℕ, String, Bool, false, Option, none, some, List, [], ◌∷◌, ◌++◌, leb, if◌then◌else◌, any,
  is_empty, str_eq, to_lower, show,
}
use urateam.Glob.{matches_any_pattern}
use urateam.Policy.{PolicyViolation, path, cost, blocking, blocked, exceeded}

unfoldable pub path_violation : String → String → PolicyViolation
path_violation file pattern = record {
  gate = path;
  detail = String.◌++◌ file (String.◌++◌ " matches " pattern);
  severity = blocking;
  payload = blocked file pattern;
}

-- The inner loop, over the patterns.
unfoldable pub blocked_by : String → List String → List PolicyViolation
unfolding path_violation
blocked_by file [] = []
blocked_by file (pattern ∷ patterns) =
    let rest = blocked_by file patterns in
    if matches_any_pattern file (pattern ∷ []) then path_violation file pattern ∷ rest else rest

-- The outer loop, over the changed files.
unfoldable pub blocked_files : List String → List String → List PolicyViolation
unfolding blocked_by
blocked_files [] patterns = []
blocked_files (file ∷ files) patterns = blocked_by file patterns ++ blocked_files files patterns

unfoldable pub evaluate_path_blocklist : List String → List String → List PolicyViolation
unfolding blocked_files
evaluate_path_blocklist changed_files patterns =
    if is_empty patterns then [] else blocked_files changed_files patterns

cost_detail : ℕ → ℕ → String → String
cost_detail tokens_used limit stage = String.◌++◌ "token usage " (
    String.◌++◌ (show tokens_used) (
      String.◌++◌ " exceeds per-issue limit "
        (String.◌++◌ (show limit) (String.◌++◌ " after " stage))))

unfoldable pub cost_violation : ℕ → ℕ → String → PolicyViolation
unfolding cost_detail
cost_violation tokens_used limit stage = record {
  gate = cost;
  detail = cost_detail tokens_used limit stage;
  severity = blocking;
  payload = exceeded tokens_used limit stage;
}

unfoldable pub evaluate_cost_gate : ℕ → Option ℕ → String → Option PolicyViolation
unfolding cost_violation
evaluate_cost_gate tokens_used none stage = none
evaluate_cost_gate tokens_used (some limit) stage =
    if leb tokens_used limit then none else some (cost_violation tokens_used limit stage)

-- The labels of the issue, or `none` where the call to Linear throws.
unfoldable pub has_override_label : Option (List String) → String → Bool
has_override_label none label_name = false
has_override_label (some labels) label_name =
    any (λ l. str_eq (to_lower l) (to_lower label_name)) labels
