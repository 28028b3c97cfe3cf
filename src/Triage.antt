-- ===== src/Triage.antt =====
-- src/modules/triage/triage.service.ts: each mutation as the decision that it makes on the row it
-- has read, in the frame of Incidents/Versioned.antt.
pub mod Clock
pub mod Overwrites
use incident_api.Base.{
  ℕ, ◌+◌, Bool, true, false, not, ◌&&◌, ◌||◌, Option, none, some, List, [], ◌∷◌, ◌++◌, ltb, leb,
  is_some, is_none, same_option, if◌then◌else◌, ◌==◌,
}
use incident_api.Model.Enums.{
  Severity, Stage, triage, investigation, pending_closure, closed, AuditEventType, stage_changed,
  severity_changed, investigator_assigned, investigator_unassigned, incident_acknowledged,
  investigator, severity_rank, same_stage, same_severity, same_role,
}
use incident_api.Model.Errors.{
  AppError, app, incident_closed_error, severity_unchanged_error, no_investigator_assigned_error,
  invalid_stage_transition_error, already_acknowledged_error, not_found_error,
  investigator_resource, invalid_assignment_target_error, investigator_clearance_too_low_error,
  closure_pending_review,
}
use incident_api.Model.Text.{Text}
use incident_api.Model.Rows.{
  Actor, User, Incident, AuditInput, AuditValue, severity_value, stage_value, user_value,
  AuditReason, clearance_below_new_severity, reassigned, manual, typed,
}
use incident_api.Model.World.{World}
use incident_api.Model.Exec.{Result, ok, err, Exec}
use incident_api.Policy.{can_assign_investigator, must_unassign_on_raise, assert_transition}
use incident_api.Incidents.Repository.{
  UpdateIncidentStateInput, no_changes, TriageIncidentRow, find_user, is_high_band,
}
use incident_api.Incidents.Mapper.{IncidentDetail}
use incident_api.Incidents.Versioned.{Plan, mutate}

-- `SeverityClockFields` of triage.types.ts.
pub record SeverityClockFields : Type 0 where
  pub high_severity_since : Option ℕ
  pub escalation_cycle : ℕ
  pub current_escalation_level : ℕ
  pub acknowledged_at : Option ℕ
  pub acknowledged_by_id : Option ℕ

unfoldable pub apply_severity_change :
    (current next : Severity) (now : ℕ) → SeverityClockFields → SeverityClockFields
apply_severity_change current next now state =
    let was_high_band = is_high_band current in
    if is_high_band next && (not was_high_band || ltb (severity_rank current) (severity_rank next))
    then record {
      high_severity_since = some now;
      escalation_cycle = state.escalation_cycle + 1;
      current_escalation_level = 0;
      acknowledged_at = none;
      acknowledged_by_id = none;
    }
    else if not (is_high_band next)
    then record {
      high_severity_since = none;
      escalation_cycle = state.escalation_cycle;
      current_escalation_level = 0;
      acknowledged_at = state.acknowledged_at;
      acknowledged_by_id = state.acknowledged_by_id;
    }
    else state

abbrev pub clock_fields : Incident → SeverityClockFields
clock_fields i = record {
  high_severity_since = i.high_severity_since;
  escalation_cycle = i.escalation_cycle;
  current_escalation_level = i.current_escalation_level;
  acknowledged_at = i.acknowledged_at;
  acknowledged_by_id = i.acknowledged_by_id;
}

-- An event of a mutation on one incident, with the fields that it leaves out.
abbrev pub incident_event : Actor → (incident_id now : ℕ) → AuditEventType → AuditInput
incident_event actor incident_id now type = record {
  incident_id = some incident_id;
  actor_id = some actor.id;
  type = type;
  from_value = none;
  to_value = none;
  reason = none;
  payload = none;
  occurred_at = now;
}

abbrev pub stage_event :
    Actor → (incident_id now : ℕ) → (source target : Stage) → Option AuditReason → AuditInput
stage_event actor incident_id now source target reason =
    record (incident_event actor incident_id now stage_changed) {
      from_value = some (stage_value source);
      to_value = some (stage_value target);
      reason = reason;
    }

infixl 5 ◌>>=◌ ◌>>◌
abbrev pub ◌>>=◌ : {A B : Type 0} → Result A → (A → Result B) → Result B
ok a >>= f = f a
err e >>= f = err e

abbrev pub ◌>>◌ : {B : Type 0} → Result (Unit {0}) → Result B → Result B
m >> k = m >>= λ _. k

-- `if (test) throw …`.
abbrev pub refuse_if : Bool → AppError → Result (Unit {0})
refuse_if true e = err (app e)
refuse_if false e = ok tt

unfoldable pub decide_triage : Actor → (id now : ℕ) → TriageIncidentRow → Result Plan
decide_triage actor id now row = do
  assert_transition row.incident.stage triage none
  ok (record {
    changes = record no_changes { stage = some triage };
    events = stage_event actor id now row.incident.stage triage none ∷ [];
  })

unfoldable pub triage_incident : Actor → (id expected : ℕ) → Exec IncidentDetail
unfolding mutate decide_triage
triage_incident actor id expected =
    mutate actor id expected (λ w row. decide_triage actor id w.clock row)

-- `incident.assignee && mustUnassignOnRaise(incident.assignee.clearanceLevel, input.severity)`.
abbrev pub stranded : Option User → Severity → Option User
stranded none severity = none
stranded (some u) severity =
    if must_unassign_on_raise (some u.clearance_level) severity then some u else none

-- The cascade on a stranded assignee: what it writes and records beside the change of severity.
abbrev pub returns_to_triage : Option User → Stage → Bool
returns_to_triage none stage = false
returns_to_triage (some u) stage = same_stage stage investigation

abbrev pub unassigned_event : Actor → (id now : ℕ) → (user_id : ℕ) → AuditReason → AuditInput
unassigned_event actor id now user_id reason =
    record (incident_event actor id now investigator_unassigned) {
      from_value = some (user_value user_id);
      reason = some reason;
    }

abbrev pub unassign_events : Actor → (id now : ℕ) → Option User → List AuditInput
unassign_events actor id now none = []
unassign_events actor id now (some u) =
    unassigned_event actor id now u.id clearance_below_new_severity ∷ []

abbrev pub when {ℓ} : {A : Type ℓ} → Bool → A → Option A
when true a = some a
when false a = none

abbrev pub event_if : Bool → AuditInput → List AuditInput
event_if true e = e ∷ []
event_if false e = []

unfoldable pub decide_severity :
    Actor → (id now : ℕ) → Severity → (reason : Text) → TriageIncidentRow → Result Plan
unfolding apply_severity_change
decide_severity actor id now severity reason row = do
  let incident = row.incident
  refuse_if (same_stage incident.stage closed) incident_closed_error
  refuse_if (same_severity incident.severity severity) severity_unchanged_error
  let clock = apply_severity_change incident.severity severity now (clock_fields incident)
  let removed = stranded row.assignee severity
  let returned = returns_to_triage removed incident.stage
  ok (record {
    changes = record no_changes {
      severity = some severity;
      high_severity_since = some clock.high_severity_since;
      escalation_cycle = some clock.escalation_cycle;
      current_escalation_level = some clock.current_escalation_level;
      acknowledged_at = some clock.acknowledged_at;
      acknowledged_by_id = some clock.acknowledged_by_id;
      assigned_investigator_id = when (is_some removed) none;
      stage = when returned triage;
    };
    events =
        record (incident_event actor id now severity_changed) {
          from_value = some (severity_value incident.severity);
          to_value = some (severity_value severity);
          reason = some (typed reason);
        }
          ∷ unassign_events actor id now removed
        ++ event_if returned
            (stage_event actor id now incident.stage triage (some clearance_below_new_severity));
  })

unfoldable pub change_severity :
    Actor → (id : ℕ) → Severity → (reason : Text) → (expected : ℕ) → Exec IncidentDetail
unfolding mutate decide_severity
change_severity actor id severity reason expected =
    mutate actor id expected (λ w row. decide_severity actor id w.clock severity reason row)

abbrev pub or_err : {A : Type 0} → Option A → AppError → Result A
or_err none e = err (app e)
or_err (some a) e = ok a

-- `previousAssigneeId && previousAssigneeId !== investigator.id`.
abbrev pub reassign_events : Actor → (id now : ℕ) → Option User → (new_id : ℕ) → List AuditInput
reassign_events actor id now none new_id = []
reassign_events actor id now (some previous) new_id =
    event_if (not (previous.id == new_id)) (unassigned_event actor id now previous.id reassigned)

unfoldable pub decide_assignment :
    Actor → (id now : ℕ) → (investigator_id : ℕ) → List User → TriageIncidentRow → Result Plan
decide_assignment actor id now investigator_id users row = do
  let incident = row.incident
  refuse_if (same_stage incident.stage closed) incident_closed_error
  target ←
      or_err (find_user (some investigator_id) users)
        (not_found_error investigator_resource investigator_id)
  refuse_if (not (same_role target.role investigator) || not target.is_active)
      invalid_assignment_target_error
  refuse_if (not (can_assign_investigator target.clearance_level incident.severity)) (
      investigator_clearance_too_low_error (severity_rank incident.severity) target.clearance_level)
  let advanced = same_stage incident.stage triage
  ok (record {
    changes = record no_changes {
      assigned_investigator_id = some (some target.id);
      stage = when advanced investigation;
    };
    events =
        reassign_events actor id now row.assignee target.id
        ++ (record (incident_event actor id now investigator_assigned) {
          to_value = some (user_value target.id);
        }
            ∷ event_if advanced (stage_event actor id now incident.stage investigation none));
  })

unfoldable pub assign_investigator : Actor → (id investigator_id expected : ℕ) → Exec IncidentDetail
unfolding mutate decide_assignment
assign_investigator actor id investigator_id expected =
    mutate actor id expected
      (λ w row. decide_assignment actor id w.clock investigator_id w.db.users row)

unfoldable pub decide_unassignment : Actor → (id now : ℕ) → TriageIncidentRow → Result Plan
decide_unassignment actor id now row = do
  let incident = row.incident
  refuse_if (same_stage incident.stage closed) incident_closed_error
  removed ← or_err incident.assigned_investigator_id no_investigator_assigned_error
  refuse_if (same_stage incident.stage pending_closure)
      (invalid_stage_transition_error incident.stage triage (some closure_pending_review))
  let returned = same_stage incident.stage investigation
  ok (record {
    changes = record no_changes {
      assigned_investigator_id = some none;
      stage = when returned triage;
    };
    events =
        unassigned_event actor id now removed manual
        ∷ event_if returned (stage_event actor id now incident.stage triage none);
  })

unfoldable pub unassign_investigator : Actor → (id expected : ℕ) → Exec IncidentDetail
unfolding mutate decide_unassignment
unassign_investigator actor id expected =
    mutate actor id expected (λ w row. decide_unassignment actor id w.clock row)

unfoldable pub decide_acknowledgement : Actor → (id now : ℕ) → TriageIncidentRow → Result Plan
decide_acknowledgement actor id now row = do
  refuse_if (same_stage row.incident.stage closed) incident_closed_error
  refuse_if (is_some row.incident.acknowledged_at) already_acknowledged_error
  ok (record {
    changes = record no_changes {
      acknowledged_at = some (some now);
      acknowledged_by_id = some (some actor.id);
    };
    events = incident_event actor id now incident_acknowledged ∷ [];
  })

unfoldable pub acknowledge : Actor → (id expected : ℕ) → Exec IncidentDetail
unfolding mutate decide_acknowledgement
acknowledge actor id expected =
    mutate actor id expected (λ w row. decide_acknowledgement actor id w.clock row)
