-- ===== src/Tests/Incidents.antt =====
-- The mutations of an incident, run on the fixtures.
use incident_api.Base.{◌≡◌, ◌⊎◌, ◌&&◌, ◌++◌, refl, arith, true, false, some, none, List}
use incident_api.Model.Enums.{medium, critical, investigation, triage}
use incident_api.Model.Errors.{
  app, violated, closed_requires_rca, insufficient_clearance_error, error_middleware,
}
use incident_api.Model.Exec.{err}
use incident_api.Audit.Record.{record_denial, stamp}
use incident_api.Model.Rows.{AuditInput}
use incident_api.Policy.{
  meets_min_length, meets_sql_length, has_closure_requirements, visibility_scope,
  visible_severities,
}
use incident_api.Incidents.Mapper.{compute_actions}
use incident_api.Triage.{change_severity, unassign_investigator}
use incident_api.Incidents.Repository.{incident_at, update_violation, violation, apply_update}
use incident_api.Mutations.{
  set_severity, assign, move_to_triage, confirm, approve_closure, unassign, run,
}
use incident_api.Mutations.Effects.{Change, Failure, after, run_outcome}
use incident_api.Mutations.WellFormed.{WellFormed}
use incident_api.Mutations.WellFormed.Keeps.{run-WellFormed}
use incident_api.Mutations.Lifecycle.{
  run_stale, run_closed, run_moves, Moved, run-Records, Records, run_forbidden,
}
use incident_api.Mutations.Accepts.Offered.{Accepted, actions_granted, approval_outcome}
use incident_api.Tests.Fixtures.{
  unassigned, long_text, pictures, manager, low_manager, fresh, urgent, awaiting, finished, start,
  start-Unique, start-WellFormed,
}

run_outcome_example :
    Change (set_severity medium long_text) manager 11 3 (start long_text)
    ⊎ Failure (set_severity medium long_text) manager 11 3 (start long_text)
run_outcome_example =
    run_outcome (set_severity medium long_text) manager 11 3 (start long_text)
      (start-Unique long_text)

run-WellFormed_example : WellFormed (after (assign 2) manager 10 1 (start long_text))
run-WellFormed_example =
    run-WellFormed (assign 2) manager 10 1 (start long_text) (start-WellFormed long_text)

run_stale_example : Failure move_to_triage manager 10 9 (start long_text)
run_stale_example =
    run_stale move_to_triage manager 10 9 (start long_text) (start-Unique long_text) fresh refl
      (omega arith)

run_closed_example :
    incident_at 13 (after (set_severity medium long_text) manager 13 6 (start long_text)).incidents
    ≡ some finished
run_closed_example =
    run_closed (set_severity medium long_text) manager 13 6 (start long_text)
      (start-Unique long_text) 13 finished refl refl

run_moves_example :
    Moved approve_closure manager 12 5
      (start long_text)
      (start-Unique long_text)
      12
      (awaiting long_text)
run_moves_example =
    run_moves approve_closure manager 12 5 (start long_text) (start-Unique long_text) 12
      (awaiting long_text) refl

run_forbidden_example :
    run confirm low_manager 11 3 (start long_text)
    ≡ (err (app (insufficient_clearance_error 11)), (record_denial 11 1 1 (start long_text)).1)
run_forbidden_example =
    run_forbidden confirm low_manager 11 3 (start long_text) (start-Unique long_text) urgent refl
      (omega arith)

run-Records_example :
    (events : List AuditInput) × ((after unassign manager 11 3 (start long_text)).audit
      ≡ (start long_text).db.audit ++ stamp (start long_text).supply (start long_text).drawn events)
    × Records unassign manager 11 3
        (start long_text)
        (start-Unique long_text)
        events
        investigation
        triage
unfolding run unassign_investigator visibility_scope visible_severities update_violation violation
    apply_update
run-Records_example =
    run-Records unassign manager 11 3 (start long_text) (start-Unique long_text) urgent unassigned
      refl refl

-- The urgent incident is under investigation: it is sent back to triage.
actions_granted_example :
    Accepted manager 11
      (start long_text)
      (start-WellFormed long_text)
      urgent
      refl
      (omega arith)
      move_to_triage
unfolding compute_actions
actions_granted_example =
    actions_granted manager 11 (start long_text) (start-WellFormed long_text) urgent refl
      (omega arith) move_to_triage refl

approval_outcome_example :
    (((meets_sql_length (some pictures) && meets_sql_length (some pictures)) ≡ true)
      × Accepted manager 12
          (start pictures)
          (start-WellFormed pictures)
          (awaiting pictures)
          refl
          (omega arith)
          approve_closure)
    ⊎ (((meets_sql_length (some pictures) && meets_sql_length (some pictures)) ≡ false)
        × (run approve_closure manager 12 5 (start pictures)
            ≡ (err (violated closed_requires_rca), start pictures))
        × ((error_middleware (violated closed_requires_rca)).status ≡ 500))
unfolding compute_actions has_closure_requirements
approval_outcome_example =
    approval_outcome manager 12 (start pictures) (start-WellFormed pictures) (awaiting pictures)
      refl (omega arith) refl

-- Ten characters in twenty code units pass the gate of the service and not the constraint.
pictures_gates :
    (meets_min_length (some pictures) ≡ true) × (meets_sql_length (some pictures) ≡ false)
unfolding meets_min_length meets_sql_length
pictures_gates = (refl, refl)

-- Raising the severity above the assignee's clearance returns the incident to triage, unassigned.
stranded_run :
    incident_at 11
      (after (set_severity critical long_text) manager 11 3 (start long_text)).incidents
    ≡ some (record urgent {
      severity = critical;
      stage = triage;
      assigned_investigator_id = none;
      high_severity_since = some 3601000;
      escalation_cycle = 2;
      version = 4;
    })
unfolding run change_severity visibility_scope visible_severities update_violation violation
    apply_update
stranded_run = refl
