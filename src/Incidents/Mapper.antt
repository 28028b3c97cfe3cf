-- ===== src/Incidents/Mapper.antt =====
-- src/modules/incidents/incident.mapper.ts: what a viewer is shown, and the actions offered.
use incident_api.Base.{
  ℕ, Bool, true, false, not, ◌&&◌, ◌||◌, Option, none, some, List, is_none, same_option,
}
use incident_api.Model.Enums.{
  Severity, Stage, IncidentType, triage_manager, admin, triage, pending_closure, closed, same_role,
  same_stage,
}
use incident_api.Model.Text.{Text}
use incident_api.Model.Rows.{Actor, User, Incident}
use incident_api.Policy.{can_transition, can_read_notes, can_write_notes, has_closure_requirements}
use incident_api.Incidents.Repository.{find_user, is_high_band}

abbrev pub can_manage : Actor → Bool
can_manage actor = same_role actor.role triage_manager || same_role actor.role admin

abbrev pub is_assignee_or_admin : Actor → Incident → Bool
is_assignee_or_admin actor incident =
    same_role actor.role admin || same_option incident.assigned_investigator_id (some actor.id)

-- `IncidentActions`.
pub record IncidentActions : Type 0 where
  pub can_triage : Bool
  pub can_assign : Bool
  pub can_acknowledge : Bool
  pub can_read_notes : Bool
  pub can_add_note : Bool
  pub can_propose_closure : Bool
  pub can_approve_closure : Bool

unfoldable pub compute_actions : Actor → Incident → IncidentActions
unfolding has_closure_requirements
compute_actions actor incident = record {
  can_triage = can_manage actor && can_transition incident.stage triage;
  can_assign = can_manage actor && not (same_stage incident.stage closed);
  can_acknowledge =
      can_manage actor
      && is_high_band incident.severity
      && is_none incident.acknowledged_at
      && not (same_stage incident.stage closed);
  can_read_notes = can_read_notes actor incident;
  can_add_note = can_write_notes actor incident;
  can_propose_closure =
      is_assignee_or_admin actor incident && can_transition incident.stage pending_closure;
  can_approve_closure =
      can_manage actor
      && same_stage incident.stage pending_closure
      && has_closure_requirements incident;
}

-- `USER_REF_SELECT`.
pub record UserRef : Type 0 where
  pub id : ℕ
  pub display_name : Text

abbrev pub user_ref : Option User → Option UserRef
user_ref none = none
user_ref (some u) = some (record { id = u.id; display_name = u.display_name })

pub record EscalationView : Type 0 where
  pub current_escalation_level : ℕ
  pub high_severity_since : Option ℕ
  pub last_escalated_at : Option ℕ

-- `IncidentDetail`. A key that is omitted for the viewer is `none`, and one that is shown and null
-- is `some none`. `signed_image` is the path that the storage service signs a link for.
pub record IncidentDetail : Type 0 where
  pub id : ℕ
  pub reference : Text
  pub type : IncidentType
  pub severity : Severity
  pub stage : Stage
  pub title : Text
  pub description : Text
  pub signed_image : Option Text
  pub no_image_reason : Option Text
  pub reporter : Option UserRef
  pub assigned_investigator : Option (Option UserRef)
  pub root_cause : Option Text
  pub corrective_action : Option Text
  pub closure : Option (ℕ × Option UserRef)
  pub acknowledgement : Option (Option (ℕ × Option UserRef))
  pub escalation : Option EscalationView
  pub version : ℕ
  pub created_at : ℕ
  pub actions : IncidentActions

abbrev at_by : Option ℕ → Option UserRef → Option (ℕ × Option UserRef)
at_by none who = none
at_by (some at_time) who = some (at_time, who)

abbrev shown {ℓ} : {A : Type ℓ} → Bool → A → Option A
shown true a = some a
shown false a = none

unfoldable pub to_incident_detail : List User → Incident → Actor → IncidentDetail
unfolding compute_actions
to_incident_detail users incident actor =
    let can_see_assignment =
      can_manage actor || same_option incident.assigned_investigator_id (some actor.id) in
    let can_see_escalation = can_manage actor in
    let assignee = user_ref (find_user incident.assigned_investigator_id users) in
    let acknowledger = user_ref (find_user incident.acknowledged_by_id users) in
    record {
      id = incident.id;
      reference = incident.reference;
      type = incident.type;
      severity = incident.severity;
      stage = incident.stage;
      title = incident.title;
      description = incident.description;
      signed_image = incident.image_path;
      no_image_reason = incident.no_image_reason;
      reporter = user_ref (find_user (some incident.reporter_id) users);
      assigned_investigator = shown can_see_assignment assignee;
      root_cause = incident.root_cause;
      corrective_action = incident.corrective_action;
      closure = at_by incident.closed_at (user_ref (find_user incident.closed_by_id users));
      acknowledgement = shown can_see_escalation (at_by incident.acknowledged_at acknowledger);
      escalation = shown can_see_escalation (record {
        current_escalation_level = incident.current_escalation_level;
        high_severity_since = incident.high_severity_since;
        last_escalated_at = incident.last_escalated_at;
      });
      version = incident.version;
      created_at = incident.created_at;
      actions = compute_actions actor incident;
    }
