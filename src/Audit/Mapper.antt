-- ===== src/Audit/Mapper.antt =====
-- src/modules/audit/audit.mapper.ts and the events of src/contracts/audit.contract.ts.
use incident_api.Base.{ℕ, Bool, true, false, Option, none, some, List, find_where, ◌==◌}
use mathlib.Core.Option
use incident_api.Model.Enums.{
  Stage, IncidentType, AuditEventType, reported, incident_created, stage_changed, severity_changed,
  investigator_assigned, investigator_unassigned, incident_acknowledged, note_added,
  closure_proposed, closure_approved, closure_rejected, incident_escalated, access_denied,
  user_clearance_changed, user_role_changed,
}
use incident_api.Model.Text.{Text}
use incident_api.Model.Rows.{
  Incident, AuditValue, user_value, number_value, AuditReason, AuditPayload, created_payload,
  note_payload, closure_payload, escalation_payload, denial_payload, AuditEvent,
}
use incident_api.Incidents.Mapper.{UserRef}

-- `AuditEventRow`: the row with its actor.
pub record AuditEventRow : Type 0 where
  pub row : AuditEvent
  pub actor : Option UserRef

-- The variants of `TimelineEvent`, without the fields that all share. A column that a cast takes for
-- a severity or a stage may hold anything, so it stays a column.
pub data TimelineDetail : Type 0 where
  created_event :
      (severity : Option AuditValue) (incident_type : IncidentType) (stage : Stage) → TimelineDetail
  stage_event : (source target : Option AuditValue) (reason : Option AuditReason) → TimelineDetail
  severity_event :
      (source target : Option AuditValue) (reason : Option AuditReason) → TimelineDetail
  assigned_event : (investigator : Option UserRef) → TimelineDetail
  unassigned_event : (investigator : Option UserRef) (reason : Option AuditReason) → TimelineDetail
  acknowledged_event : TimelineDetail
  note_event : (redacted : Bool) (note_id length : Option ℕ) → TimelineDetail
  proposed_event : (root_cause_length corrective_action_length : ℕ) → TimelineDetail
  approved_event : TimelineDetail
  rejected_event : (reason : Option AuditReason) → TimelineDetail
  escalated_event : (from_level to_level cycle : ℕ) → TimelineDetail
  denied_event : (reason : Option AuditReason) (clearance_level : Option ℕ) → TimelineDetail

pub record TimelineEvent : Type 0 where
  pub id : ℕ
  pub occurred_at : ℕ
  pub actor : Option UserRef
  pub detail : TimelineDetail

-- The fields that the mapper reads of a payload; a missing one is `undefined`.
abbrev pub created_type : Option AuditPayload → IncidentType
created_type (some (created_payload t s)) = t
created_type _ = IncidentType.other

abbrev pub created_stage : Option AuditPayload → Stage
created_stage (some (created_payload t s)) = s
created_stage _ = reported

abbrev pub note_id_of : Option AuditPayload → Option ℕ
note_id_of (some (note_payload id size)) = some id
note_id_of _ = none

abbrev pub note_length_of : Option AuditPayload → Option ℕ
note_length_of (some (note_payload id size)) = some size
note_length_of _ = none

abbrev pub root_cause_length_of : Option AuditPayload → ℕ
root_cause_length_of (some (closure_payload r c)) = r
root_cause_length_of _ = 0

abbrev pub corrective_action_length_of : Option AuditPayload → ℕ
corrective_action_length_of (some (closure_payload r c)) = c
corrective_action_length_of _ = 0

abbrev pub cycle_of : Option AuditPayload → ℕ
cycle_of (some (escalation_payload c l e)) = c
cycle_of _ = 0

abbrev pub level_of_payload : Option AuditPayload → ℕ
level_of_payload (some (escalation_payload c l e)) = l
level_of_payload _ = 0

abbrev pub denied_clearance : Option AuditPayload → Option ℕ
denied_clearance (some (denial_payload c)) = some c
denied_clearance _ = none

-- `Number(value ?? default)`; the code writes numbers into the column of an escalation.
abbrev pub number_or : ℕ → Option AuditValue → ℕ
number_or d (some (number_value n)) = n
number_or d _ = d

-- `value ? userRefs.get(value) ?? null : null`.
abbrev pub ref_of : List UserRef → Option AuditValue → Option UserRef
ref_of refs (some (user_value id)) = find_where (λ (u : UserRef). u.id == id) refs
ref_of refs _ = none

-- The shared fields; a redacted note has no actor.
abbrev pub event_of : AuditEventRow → TimelineDetail → TimelineEvent
event_of row detail = record {
  id = row.row.id;
  occurred_at = row.row.event.occurred_at;
  actor = row.actor;
  detail = detail;
}

abbrev pub redacted_note : AuditEventRow → TimelineEvent
redacted_note row = record {
  id = row.row.id;
  occurred_at = row.row.event.occurred_at;
  actor = none;
  detail = note_event true none none;
}

abbrev pub note_of : AuditEventRow → Bool → TimelineEvent
note_of row true =
    event_of row
      (note_event false (note_id_of row.row.event.payload) (note_length_of row.row.event.payload))
note_of row false = redacted_note row

-- The `switch` on the type of a row. `none` is the error that is thrown for a change of a user.
unfoldable pub timeline_event_by :
    AuditEventType → AuditEventRow → (can_read_notes : Bool) → List UserRef → Option TimelineEvent
timeline_event_by incident_created row notes refs = some (
    event_of row (
      created_event row.row.event.to_value (created_type row.row.event.payload)
        (created_stage row.row.event.payload)))
timeline_event_by stage_changed row notes refs = some (
    event_of row (stage_event row.row.event.from_value row.row.event.to_value row.row.event.reason))
timeline_event_by severity_changed row notes refs = some (
    event_of row
      (severity_event row.row.event.from_value row.row.event.to_value row.row.event.reason))
timeline_event_by investigator_assigned row notes refs =
    some (event_of row (assigned_event (ref_of refs row.row.event.to_value)))
timeline_event_by investigator_unassigned row notes refs =
    some
      (event_of row (unassigned_event (ref_of refs row.row.event.from_value) row.row.event.reason))
timeline_event_by incident_acknowledged row notes refs = some (event_of row acknowledged_event)
timeline_event_by note_added row notes refs = some (note_of row notes)
timeline_event_by closure_proposed row notes refs = some (
    event_of row (
      proposed_event (root_cause_length_of row.row.event.payload)
        (corrective_action_length_of row.row.event.payload)))
timeline_event_by closure_approved row notes refs = some (event_of row approved_event)
timeline_event_by closure_rejected row notes refs =
    some (event_of row (rejected_event row.row.event.reason))
timeline_event_by incident_escalated row notes refs = some (
    event_of row (
      escalated_event (number_or 0 row.row.event.from_value)
        (number_or (level_of_payload row.row.event.payload) row.row.event.to_value)
        (cycle_of row.row.event.payload)))
timeline_event_by access_denied row notes refs =
    some (event_of row (denied_event row.row.event.reason (denied_clearance row.row.event.payload)))
timeline_event_by user_clearance_changed row notes refs = none
timeline_event_by user_role_changed row notes refs = none

unfoldable pub to_timeline_event :
    AuditEventRow → (can_read_notes : Bool) → List UserRef → Option TimelineEvent
unfolding timeline_event_by
to_timeline_event row notes refs = timeline_event_by row.row.event.type row notes refs

-- `AuditRow`, the flat row of the search.
pub record AuditRow : Type 0 where
  pub id : ℕ
  pub type : AuditEventType
  pub occurred_at : ℕ
  pub actor : Option UserRef
  pub incident_id : Option ℕ
  pub incident_reference : Option Text
  pub from_value : Option AuditValue
  pub to_value : Option AuditValue
  pub reason : Option AuditReason
  pub payload : Option AuditPayload

unfoldable pub to_audit_row : AuditEventRow → (incident : Option Incident) → AuditRow
to_audit_row row incident = record {
  id = row.row.id;
  type = row.row.event.type;
  occurred_at = row.row.event.occurred_at;
  actor = row.actor;
  incident_id = row.row.event.incident_id;
  incident_reference = Option.map (λ (i : Incident). i.reference) incident;
  from_value = row.row.event.from_value;
  to_value = row.row.event.to_value;
  reason = row.row.event.reason;
  payload = row.row.event.payload;
}
