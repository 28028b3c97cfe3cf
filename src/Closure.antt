-- ===== src/Closure.antt =====
-- src/modules/closure/closure.service.ts: proposing, approving and rejecting a closure.
use incident_api.Base.{ℕ, not, none, some, [], ◌∷◌, length}
use incident_api.Model.Enums.{
  investigation, pending_closure, closed, closure_proposed, closure_approved, closure_rejected,
  same_stage,
}
use incident_api.Model.Errors.{
  closure_requirements_missing_error, invalid_stage_transition_error,
  not_assigned_investigator_error, only_while_pending,
}
use incident_api.Model.Text.{Text}
use incident_api.Model.Rows.{Actor, Incident, closure_payload, typed}
use incident_api.Model.Exec.{Result, ok, Exec}
use incident_api.Policy.{assert_transition, has_closure_requirements}
use incident_api.Incidents.Repository.{no_changes, TriageIncidentRow}
use incident_api.Incidents.Mapper.{IncidentDetail, is_assignee_or_admin}
use incident_api.Incidents.Versioned.{Plan, mutate}
use incident_api.Triage.{incident_event, stage_event, refuse_if, ◌>>◌}

-- `assertIsAssigneeOrAdmin`.
abbrev pub assert_is_assignee_or_admin : Actor → Incident → (incident_id : ℕ) → Result (Unit {0})
assert_is_assignee_or_admin actor incident incident_id =
    refuse_if (not (is_assignee_or_admin actor incident))
      (not_assigned_investigator_error incident_id)

unfoldable pub decide_proposal :
    Actor → (id now : ℕ) → (root_cause corrective_action : Text) → TriageIncidentRow → Result Plan
decide_proposal actor id now root_cause corrective_action row = do
  assert_is_assignee_or_admin actor row.incident id
  assert_transition row.incident.stage pending_closure none
  ok (record {
    changes = record no_changes {
      stage = some pending_closure;
      root_cause = some (some root_cause);
      corrective_action = some (some corrective_action);
      closure_proposed_by_id = some (some actor.id);
      closure_proposed_at = some (some now);
    };
    events =
        record (incident_event actor id now closure_proposed) {
          payload = some (closure_payload (length root_cause) (length corrective_action));
        }
        ∷ stage_event actor id now row.incident.stage pending_closure none
        ∷ [];
  })

unfoldable pub propose :
    Actor → (id : ℕ) → (root_cause corrective_action : Text) → (expected : ℕ) → Exec IncidentDetail
unfolding mutate decide_proposal
propose actor id root_cause corrective_action expected =
    mutate actor id expected
      (λ w row. decide_proposal actor id w.clock root_cause corrective_action row)

unfoldable pub decide_approval : Actor → (id now : ℕ) → TriageIncidentRow → Result Plan
unfolding has_closure_requirements
decide_approval actor id now row = do
  assert_transition row.incident.stage closed none
  refuse_if (not (has_closure_requirements row.incident)) closure_requirements_missing_error
  ok (record {
    changes = record no_changes {
      stage = some closed;
      closed_by_id = some (some actor.id);
      closed_at = some (some now);
    };
    events =
        incident_event actor id now closure_approved
        ∷ stage_event actor id now row.incident.stage closed none
        ∷ [];
  })

unfoldable pub approve : Actor → (id expected : ℕ) → Exec IncidentDetail
unfolding mutate decide_approval
approve actor id expected = mutate actor id expected (λ w row. decide_approval actor id w.clock row)

unfoldable pub decide_rejection :
    Actor → (id now : ℕ) → (reason : Text) → TriageIncidentRow → Result Plan
decide_rejection actor id now reason row = do
  refuse_if (not (same_stage row.incident.stage pending_closure))
      (invalid_stage_transition_error row.incident.stage investigation (some only_while_pending))
  ok (record {
    changes = record no_changes { stage = some investigation };
    events =
        record (incident_event actor id now closure_rejected) { reason = some (typed reason) }
        ∷ stage_event actor id now row.incident.stage investigation (some (typed reason))
        ∷ [];
  })

unfoldable pub reject : Actor → (id : ℕ) → (reason : Text) → (expected : ℕ) → Exec IncidentDetail
unfolding mutate decide_rejection
reject actor id reason expected =
    mutate actor id expected (λ w row. decide_rejection actor id w.clock reason row)
