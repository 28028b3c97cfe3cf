-- ===== src/Investigation.antt =====
-- src/modules/investigation: the notes of an incident behind the two gates of clearance and assignment.
pub mod Gates
pub mod Pages
use incident_api.Base.{
  ℕ, Bool, true, false, not, ◌&&◌, ◌||◌, Option, none, some, List, [], ◌∷◌, ◌++◌, length, ◌==◌,
  filter, find_where, same_option, if◌then◌else◌,
}
use incident_api.Model.Enums.{admin, note_added, same_role}
use incident_api.Model.Errors.{not_assigned_investigator_error, notes_closed_error}
use incident_api.Model.Text.{Text}
use incident_api.Model.Rows.{Actor, Incident, InvestigationNote, AuditInput, note_payload}
use incident_api.Model.World.{World, Db}
use incident_api.Model.Exec.{Result, ok, Exec, pure, require, transaction, now, new_id, ◌>>=◌, ◌>>◌}
use incident_api.Policy.{visibility_scope, can_read_notes, can_write_notes}
use incident_api.Audit.Record.{record_event}
use incident_api.Incidents.Repository.{TriageIncidentRow, incident_at}
use incident_api.Incidents.Service.{get_by_id_for_actor}

unfoldable pub assert_read_access : Actor → (incident_id : ℕ) → Exec TriageIncidentRow
unfolding get_by_id_for_actor
assert_read_access actor incident_id = do
  row ← get_by_id_for_actor actor incident_id
  require (can_read_notes actor row.incident) (not_assigned_investigator_error incident_id)
  pure row

-- `noteScopeWhere`, on the incident of a note.
unfoldable pub is_note_incident : Actor → Incident → Bool
is_note_incident actor incident =
    visibility_scope actor incident
    && (same_role actor.role admin || same_option incident.assigned_investigator_id (some actor.id))

abbrev pub passes : Actor → Option Incident → Bool
passes actor none = false
passes actor (some i) = is_note_incident actor i

unfoldable pub note_scope : Actor → (incident_id : ℕ) → List Incident → InvestigationNote → Bool
unfolding is_note_incident
note_scope actor incident_id incidents note =
    note.incident_id == incident_id && passes actor (incident_at note.incident_id incidents)

abbrev pub set_notes : List InvestigationNote → World → World
set_notes notes w = record w { db = record (w.db) { notes = notes } }

unfoldable pub create_note : InvestigationNote → Exec InvestigationNote
create_note note w = (ok note, set_notes (w.db.notes ++ note ∷ []) w)

-- The audit row holds the id and the length of a note, never its body.
abbrev pub note_event : Actor → InvestigationNote → AuditInput
note_event actor note = record {
  incident_id = some note.incident_id;
  actor_id = some actor.id;
  type = note_added;
  from_value = none;
  to_value = none;
  reason = none;
  payload = some (note_payload note.id (length note.body));
  occurred_at = note.created_at;
}

unfoldable pub write_note : Actor → InvestigationNote → Exec InvestigationNote
unfolding create_note record_event
write_note actor note = do
  created ← create_note note
  record_event (note_event actor created)
  pure created

unfoldable pub assert_open : Actor → Incident → Exec (Unit {0})
assert_open actor incident =
    require (can_write_notes actor incident) (notes_closed_error incident.stage)

unfoldable pub add_note : Actor → (incident_id : ℕ) → (body : Text) → Exec InvestigationNote
unfolding assert_read_access assert_open new_id write_note
add_note actor incident_id body = do
  row ← assert_read_access actor incident_id
  assert_open actor row.incident
  at ← now
  note_id ← new_id
  transaction (
      write_note actor (record {
        id = note_id;
        incident_id = incident_id;
        author_id = actor.id;
        body = body;
        created_at = at;
      }))
