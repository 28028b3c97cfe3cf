-- ===== src/Mutations/Decisions.antt =====
-- What the decisions of src/modules/triage and src/modules/closure have in common.
use incident_api.Base.{ℕ, ◌≡◌, ◌⊎◌, true, Option, some, List, [], ◌∷◌, arith, if◌then◌else◌}
use incident_api.Model.Enums.{Stage, closed, stage_changed, same_stage, same_event_type}
use incident_api.Model.Rows.{Actor, AuditInput, AuditValue, stage_value}
use incident_api.Model.World.{World}
use incident_api.Model.Exec.{ok}
use incident_api.Policy.{can_transition}
use incident_api.Incidents.Repository.{TriageIncidentRow, apply_update}
use incident_api.Incidents.Versioned.{Plan}
use incident_api.Mutations.{Mutation, move_to_triage, decide}
use incident_api.Triage.{
  decide_triage, decide_severity, decide_assignment, decide_unassignment, decide_acknowledgement,
}
use incident_api.Closure.{decide_proposal, decide_approval, decide_rejection}

decisions : Unit {0}
unfolding decide decide_triage decide_severity decide_assignment decide_unassignment
    decide_acknowledgement decide_proposal decide_approval decide_rejection apply_update
decisions = tt

-- No mutation is decided on a closed incident.
pub decide_closed :
    (m : Mutation) (actor : Actor) (id : ℕ) (w : World) (row : TriageIncidentRow) (plan : Plan)
    → row.incident.stage ≡ closed
    → decide m actor id w row ≡ ok plan
    → ⊥
unfolding decisions
decide_closed move_to_triage actor id w row plan c h = ground arith
decide_closed _ actor id w row plan c h = ground arith

-- The stages that a list of events says were left and entered.
abbrev pub stage_moves : List AuditInput → List (Option AuditValue × Option AuditValue)
stage_moves [] = []
stage_moves (e ∷ es) =
    let rest = stage_moves es in
    if same_event_type e.type stage_changed then (e.from_value, e.to_value) ∷ rest else rest

abbrev pub stage_after : Plan → TriageIncidentRow → Stage
stage_after plan row = (apply_update plan.changes row.incident).stage

pub decide_stage :
    (m : Mutation) (actor : Actor) (id : ℕ) (w : World) (row : TriageIncidentRow) (plan : Plan)
    → decide m actor id w row ≡ ok plan
    → (stage_after plan row ≡ row.incident.stage)
      ⊎ (can_transition row.incident.stage (stage_after plan row) ≡ true)
unfolding decisions
decide_stage move_to_triage actor id w row plan h = ground arith
decide_stage _ actor id w row plan h = ground arith

pub decide_stage_events :
    (m : Mutation) (actor : Actor) (id : ℕ) (w : World) (row : TriageIncidentRow) (plan : Plan)
    → decide m actor id w row ≡ ok plan
    → stage_moves plan.events ≡ (
        if same_stage row.incident.stage (stage_after plan row)
        then []
        else (some (stage_value row.incident.stage), some (stage_value (stage_after plan row)))
          ∷ [])
unfolding decisions
decide_stage_events move_to_triage actor id w row plan h = ground arith
decide_stage_events _ actor id w row plan h = ground arith
