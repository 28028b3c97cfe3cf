-- ===== src/Policy/Graph.antt =====
-- The stage map of src/policy/stage.policy.ts as a diagram.
use incident_api.Base.{◌≡◌, ◌↔◌, refl, true, false}
use incident_api.Model.Enums.{Stage, reported, triage, investigation, pending_closure, closed}
use incident_api.Policy.{can_transition}

infix 40 ◌⟶◌
pub data ◌⟶◌ : Stage → Stage → Type 0 where
  accept : reported ⟶ triage
  begin : triage ⟶ investigation
  conclude : investigation ⟶ pending_closure
  step_back : investigation ⟶ triage
  finish : pending_closure ⟶ closed
  reopen : pending_closure ⟶ investigation

pub data LeadsTo (target : Stage) : Stage → Type 0 where
  here : LeadsTo target target
  via : {s t : Stage} → s ⟶ t → LeadsTo target t → LeadsTo target s

edge : (s t : Stage) → can_transition s t ≡ true → s ⟶ t
edge reported triage h = accept
edge triage investigation h = begin
edge investigation pending_closure h = conclude
edge investigation triage h = step_back
edge pending_closure closed h = finish
edge pending_closure investigation h = reopen
edge _ _ h = cc

allowed : {s t : Stage} → s ⟶ t → can_transition s t ≡ true
allowed accept = refl
allowed begin = refl
allowed conclude = refl
allowed step_back = refl
allowed finish = refl
allowed reopen = refl

ruleset edges = (accept, begin, conclude, step_back, finish, reopen)

leads : (s : Stage) → LeadsTo closed s
leads closed = here
leads _ = search (here, via, edges)

-- The stage map allows exactly the six edges of the diagram, every stage leads to closed along them,
-- and nothing leaves closed.
pub transition_diagram :
    (s t : Stage)
    → ((can_transition s t ≡ true) ↔ (s ⟶ t)) × LeadsTo closed s × (can_transition closed t ≡ false)
transition_diagram s t = ((edge s t, allowed), leads s, refl)
