-- ===== src/Pm/Alerts/Refinement.antt =====
-- The alerts as a set that only grows: what the table of rows and its unique index are for.
use urateam.Prelude.{
  ℕ, ◌+◌, ◌≡◌, fun_ext, refl, ap, Bool, ◌&&◌, ◌||◌, not, List, [], ◌∷◌, map, All, any, arith,
  if◌then◌else◌, subst,
}
use urateam.Pm.Alerts.{AlertRow, has_row, maybe_fire_alerts}
use urateam.Pm.Alerts.Once.{deliveries, deliveries-append, Call, fire_all}
use urateam.Pm.Alerts.Delivery.{reaches, Works, maybe_fire_alerts_lem}

-- The alerts that were announced.
abbrev pub Announced : Type 0
Announced = AlertRow → Bool

-- To announce some alerts: those that are new are told once, and from then on all are announced.
abbrev pub announce : (reached old : Announced) → Announced
announce reached old row = old row || reached row

abbrev pub news : (reached old : Announced) → AlertRow → ℕ
news reached old row = if not (old row) && reached row then 1 else 0

abbrev pub announce_all : List Announced → Announced → Announced × (AlertRow → ℕ)
announce_all [] old = (old, λ row. 0)
announce_all (reached ∷ later) old =
    let rest = announce_all later (announce reached old) in
    (rest.0, λ row. news reached old row + rest.1 row)

-- What a table stands for, and what a call wants to announce.
abbrev pub announced_by : List AlertRow → Announced
announced_by rows row = has_row row rows

abbrev pub reached_in : Call → Announced
reached_in call row = any (reaches call.today row) call.evaluation.scopes

-- Where the database and Slack work, any calls one after the other do what the specification does: the
-- table stands for the set of announced alerts, and each alert is delivered as often as it is told.
pub alerts_refine :
    (calls : List Call) (rows : List AlertRow)
    → All (λ call. Works call.services) calls
    → let fired = fire_all calls rows in
      let spec = announce_all (map reached_in calls) (announced_by rows) in
      (announced_by fired.rows ≡ spec.0) × ((λ row. deliveries row fired.posts) ≡ spec.1)
unfolding fire_all
alerts_refine [] rows works = (refl, refl)
alerts_refine (call ∷ calls) rows (works, rest) =
    let first = maybe_fire_alerts call.services call.today call.evaluation rows in
    let later = fire_all calls first.rows in
    let one = maybe_fire_alerts_lem call.services call.today call.evaluation rows in
    let grown = fun_ext (λ row. (one row works).1) in
    let (set, told) =
      subst
        (λ old.
          (announced_by later.rows ≡ (announce_all (map reached_in calls) old).0)
          × ((λ row. deliveries row later.posts) ≡ (announce_all (map reached_in calls) old).1))
        grown (alerts_refine calls first.rows rest) in
    (
      set,
      fun_ext (λ row. omega (
        arith,
        deliveries-append row first.posts later.posts,
        (one row works).0,
        ap (λ f. f row) told,
      )),
    )
