-- ===== src/Tests/Notes.antt =====
-- Notes on the urgent incident, and a change of its severity while the escalation job runs.
use incident_api.Base.{◌≡◌, refl, arith, some, none, [], ◌∷◌}
use incident_api.Model.Enums.{high, critical, reported}
use incident_api.Model.Errors.{app, notes_closed_error}
use incident_api.Model.Rows.{Incident}
use incident_api.Model.World.{World}
use incident_api.Model.Exec.{Result, ok, err}
use incident_api.Policy.{visibility_scope, visible_severities}
use incident_api.Incidents.Repository.{
  TriageIncidentRow, violation, no_changes, incident_at, apply_update,
}
use incident_api.Incidents.Versioned.{Plan, commit}
use incident_api.Triage.{decide_severity}
use incident_api.Triage.Overwrites.{severity_overwrites}
use incident_api.Investigation.{add_note}
use incident_api.Investigation.Gates.{new_note, noted, add_note_refused, add_note_granted}
use incident_api.Tests.Fixtures.{long_text, manager, administrator, urgent, start}

add_note_refused_example :
    ((add_note administrator 10 long_text (start long_text)).0
      ≡ err (app (notes_closed_error reported)))
    × ((add_note administrator 10 long_text (start long_text)).1.db ≡ (start long_text).db)
unfolding visibility_scope visible_severities
add_note_refused_example =
    add_note_refused administrator 10 long_text (start long_text) (notes_closed_error reported) refl

-- The incident awaits its closure.
add_note_granted_example :
    ((add_note administrator 12 long_text (start long_text)).0
      ≡ ok (new_note administrator 12 long_text (start long_text)))
    × ((add_note administrator 12 long_text (start long_text)).1.db
        ≡ noted administrator 12 long_text (start long_text))
unfolding visibility_scope visible_severities
add_note_granted_example = add_note_granted administrator 12 long_text (start long_text) refl

-- The urgent incident when it was critical, at level 1, and after a batch has raised it to level 2.
abbrev read : TriageIncidentRow
read = record {
  incident = record urgent { severity = critical; current_escalation_level = 1 };
  assignee = none;
}

abbrev raised : Incident
raised = record urgent { severity = critical; current_escalation_level = 2 }

abbrev after_batch : World
after_batch = record (start long_text) {
  db = record ((start long_text).db) { incidents = raised ∷ [] };
}

abbrev plan_of : Result Plan → Plan
plan_of (ok plan) = plan
plan_of (err _) = record { changes = no_changes; events = [] }

abbrev calmed : Plan
unfolding decide_severity
calmed = plan_of (decide_severity manager 11 5000000 high long_text read)

severity_overwrites_example :
    ((commit 11 3 calmed after_batch).0 ≡ ok tt)
    × ((row : Incident) × (incident_at 11 (commit 11 3 calmed after_batch).1.db.incidents
          ≡ some row)
        × (row.current_escalation_level ≡ 1))
unfolding decide_severity violation apply_update
severity_overwrites_example =
    severity_overwrites manager 11 5000000 high long_text read calmed after_batch raised refl refl
      refl (ground arith) refl refl refl
