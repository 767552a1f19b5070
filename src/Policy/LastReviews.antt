-- ===== src/Policy/LastReviews.antt =====
-- Whose last review policy/reviewer-gate.ts takes for an approval.
use urateam.Prelude.{
  ◌≡◌, refl, sym, ◌∙◌, ◌↔◌, String, true, Option, none, some, List, [], ◌∷◌, arith, includes,
  to_lower, str_eq, eq_iff, if◌then◌else◌, Assoc, lookup, lookup-insert, lookup-nil, DistinctKeys,
  DistinctKeys-insert,
}
use urateam.Policy.Reviewers.{Review, latest_by_user, record_state, approved_logins}

abbrev state_by : String → Option String → String → Option String
state_by login none state = none
state_by login (some l) state = if str_eq (to_lower l) login then some state else none

abbrev pub later : Option String → Option String → Option String
later none s = s
later (some t) s = some t

-- The state of the last review by a login in lower case.
abbrev last_state : String → List Review → Option String
last_state login [] = none
last_state login (r ∷ rs) = later (last_state login rs) (state_by login r.user r.state)

-- The last review of the user, whatever the case of the login, is an approval.
abbrev pub Approves : List Review → String → Type 0
Approves reviews user = last_state (to_lower user) reviews ≡ some "APPROVED"

record_state-lookup :
    (login : String) (user : Option String) (state : String) (m : Assoc String)
    → lookup login (record_state user state m) ≡ later (state_by login user state) (lookup login m)
unfolding record_state
record_state-lookup login none state m = refl
record_state-lookup login (some l) state m =
    ground (arith, lookup-insert (to_lower l) login state m)

latest-lookup :
    (login : String) (rs : List Review) (m : Assoc String)
    → lookup login (latest_by_user rs m) ≡ later (last_state login rs) (lookup login m)
unfolding latest_by_user
latest-lookup login [] m = refl
latest-lookup login (r ∷ rs) m = ground (
  arith,
  latest-lookup login rs (record_state r.user r.state m),
  record_state-lookup login r.user r.state m,
)

record_state-DistinctKeys :
    (user : Option String) (state : String) (m : Assoc String)
    → DistinctKeys m
    → DistinctKeys (record_state user state m)
unfolding record_state
record_state-DistinctKeys none state m h = h
record_state-DistinctKeys (some l) state m h = DistinctKeys-insert (to_lower l) state m h

latest-DistinctKeys :
    (rs : List Review) (m : Assoc String) → DistinctKeys m → DistinctKeys (latest_by_user rs m)
unfolding latest_by_user
latest-DistinctKeys [] m h = h
latest-DistinctKeys (r ∷ rs) m h =
    latest-DistinctKeys rs _ (record_state-DistinctKeys r.user r.state m h)

approved_iff :
    (k : String) (m : Assoc String)
    → DistinctKeys m
    → (includes (approved_logins m) k ≡ true) ↔ (lookup k m ≡ some "APPROVED")
unfolding approved_logins lookup includes
approved_iff k [] h = (λ e. cc, λ e. cc)
approved_iff k ((j, s) ∷ m) h =
    ground (arith, eq_iff j k, eq_iff s "APPROVED", approved_iff k m h.1)

later-none : (s : Option String) → later s none ≡ s
later-none none = refl
later-none (some t) = refl

-- The logins that count as approving.
pub approvers_iff :
    (reviews : List Review) (login : String)
    → (includes (approved_logins (latest_by_user reviews [])) login ≡ true)
      ↔ (last_state login reviews ≡ some "APPROVED")
approvers_iff reviews login =
    let (to, from) =
      approved_iff login (latest_by_user reviews []) (latest-DistinctKeys reviews [] tt) in
    let same : lookup login (latest_by_user reviews []) ≡ last_state login reviews =
      latest-lookup login reviews [] ∙ (rw (lookup-nil login) (later-none _)) in
    (λ h. sym same ∙ to h, λ h. from (same ∙ h))
