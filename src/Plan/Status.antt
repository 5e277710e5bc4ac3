-- ===== src/Plan/Status.antt =====
-- The status machine of core/src/actions/plan.rs.
use smolit_assistant.Base.{true, false, ◌≡◌, refl, ◌≢◌, ◌⊎◌, List, [], ◌∷◌, arith}
use smolit_assistant.Plan.{DemoPlan, DemoPlanStatus, is_terminal, set_status}

-- A change is reported exactly when the plan was not terminal and the status is a new one, and then
-- the status is the wanted one; otherwise the plan stays as it was.
pub set_status_cases :
    (p : DemoPlan) (next : DemoPlanStatus)
    → ((is_terminal p.status ≡ false)
        × (p.status ≢ next)
        × (set_status p next ≡ (record p { status = next }, true)))
      ⊎ (((is_terminal p.status ≡ true) ⊎ (p.status ≡ next)) × (set_status p next ≡ (p, false)))
unfolding set_status
set_status_cases p next = ground arith

-- The plan after a list of status changes.
unfoldable pub run_statuses : DemoPlan → List DemoPlanStatus → DemoPlan
run_statuses p [] = p
run_statuses p (next ∷ rest) = run_statuses (set_status p next).0 rest

set_status_terminal :
    (p : DemoPlan) (next : DemoPlanStatus) → is_terminal p.status ≡ true → (set_status p next).0 ≡ p
unfolding set_status
set_status_terminal p next h = ground arith

-- Once a plan is completed, failed, denied or expired, no sequence of status changes alters it.
pub terminal_absorbs :
    (p : DemoPlan) (changes : List DemoPlanStatus)
    → is_terminal p.status ≡ true
    → run_statuses p changes ≡ p
unfolding run_statuses
terminal_absorbs p [] h = refl
terminal_absorbs p (next ∷ rest) h = rw (set_status_terminal p next h) (terminal_absorbs p rest h)
