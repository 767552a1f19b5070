-- ===== src/Pm/Approvals/Settled.antt =====
-- The rows that are not pending stay so.
use urateam.Prelude.{
  ◌≡◌, refl, sym, ap, ◌∙◌, inl, inr, String, true, false, Option, none, some, List, In, Bool-cases,
  subst, In-map, str_eq, eq_iff,
}
use urateam.Pm.Approvals.{
  Status, pending, approved, rejected, expired, Approval, ResolveApprovalsInput, settled,
  update_row, set_status, is_pending,
}

-- No row with the id is pending.
abbrev pub IsSettled : String → List Approval → Type 0
IsSettled id rows = (a : Approval) → In a rows → a.id ≡ id → is_pending a ≡ false

abbrev pub Settles : Option Status → Type 0
Settles none = Unit
Settles (some pending) = true ≡ false
Settles (some _) = Unit

settled-Settles :
    (input : ResolveApprovalsInput) (status : Status) (a : Approval)
    → Settles (some status)
    → is_pending (settled input status a) ≡ false
settled-Settles input pending a ok = cc
settled-Settles input approved a ok = refl
settled-Settles input rejected a ok = refl
settled-Settles input expired a ok = refl

update_row-id :
    (input : ResolveApprovalsInput) (id : String) (status : Status) (a : Approval)
    → (update_row input id status a).id ≡ a.id
update_row-id input id status a = elim (Bool-cases (str_eq id a.id)) [
  | inl e ↦ rw e refl
  | inr e ↦ rw e refl
]

update_row-keeps :
    (input : ResolveApprovalsInput) (id : String) (status : Status) (a : Approval)
    → Settles (some status)
    → is_pending a ≡ false
    → is_pending (update_row input id status a) ≡ false
update_row-keeps input id status a ok h = elim (Bool-cases (str_eq id a.id)) [
  | inl e ↦ rw e (settled-Settles input status a ok)
  | inr e ↦ rw e h
]

update_row-own :
    (input : ResolveApprovalsInput) (id : String) (status : Status) (a : Approval)
    → Settles (some status)
    → a.id ≡ id
    → is_pending (update_row input id status a) ≡ false
update_row-own input id status a ok same =
    rw ((eq_iff id a.id).1 (sym same)) (settled-Settles input status a ok)

-- A settled row stays settled.
pub set_status-keeps :
    (input : ResolveApprovalsInput) (id other : String) (o : Option Status) (rows : List Approval)
    → Settles o
    → IsSettled id rows
    → IsSettled id (set_status input other o rows)
set_status-keeps input id other none rows ok h = h
set_status-keeps input id other (some status) rows ok h = λ a i same.
    let (b, found, e) = In-map (update_row input other status) a rows i in
    subst (λ r. is_pending r ≡ false) e
      (update_row-keeps input other status b ok
        (h b found (sym (update_row-id input other status b) ∙ ap (λ r. r.id) e ∙ same)))

pub set_status-own :
    (input : ResolveApprovalsInput) (id : String) (status : Status) (rows : List Approval)
    → Settles (some status)
    → IsSettled id (set_status input id (some status) rows)
set_status-own input id status rows ok = λ a i same.
    let (b, found, e) = In-map (update_row input id status) a rows i in
    subst (λ r. is_pending r ≡ false) e
      (update_row-own input id status b ok
        (sym (update_row-id input id status b) ∙ ap (λ r. r.id) e ∙ same))
