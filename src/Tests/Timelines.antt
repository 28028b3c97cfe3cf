-- ===== src/Tests/Timelines.antt =====
-- The timeline of the urgent incident: its creation, a note and a denied access.
use incident_api.Base.{◌≡◌, refl, none, some, true, false, [], ◌∷◌, map, arith, All}
use incident_api.Model.Enums.{
  high, safety, reported, incident_created, note_added, access_denied, investigator_assigned,
}
use incident_api.Model.Rows.{
  AuditEvent, severity_value, user_value, clearance, created_payload, note_payload, denial_payload,
}
use incident_api.Model.World.{World}
use incident_api.Model.Exec.{ok}
use incident_api.Policy.{visibility_scope, visible_severities}
use incident_api.Pagination.{CursorPage}
use incident_api.Pagination.Tokens.{object, string, occurred_at_id_key}
use incident_api.Pagination.Walk.{read_all}
use incident_api.Incidents.Repository.{TriageIncidentRow, find_user}
use incident_api.Audit.Mapper.{TimelineEvent, note_event, assigned_event}
use incident_api.Audit.Timeline.{timeline, timeline_where}
use incident_api.Audit.Timeline.Redaction.{Redacted, timeline_redacts}
use incident_api.Audit.Timeline.Refs.{shown_event}
use incident_api.Audit.Timeline.Complete.{timeline_complete}
use incident_api.Tests.Fixtures.{long_text, manager, urgent, users, start}
use incident_api.Tests.Codecs.{plain_codec}

abbrev creation : AuditEvent
creation = record {
  id = 201;
  event = record {
    incident_id = some 11;
    actor_id = some 4;
    type = incident_created;
    from_value = none;
    to_value = some (severity_value high);
    reason = none;
    payload = some (created_payload safety reported);
    occurred_at = 5;
  };
}

abbrev assignment : AuditEvent
assignment = record {
  id = 202;
  event = record (creation.event) {
    actor_id = some 1;
    type = investigator_assigned;
    to_value = some (user_value 2);
    payload = none;
    occurred_at = 7;
  };
}

abbrev note : AuditEvent
note = record {
  id = 203;
  event = record (creation.event) {
    actor_id = some 2;
    type = note_added;
    to_value = none;
    payload = some (note_payload 300 42);
    occurred_at = 9;
  };
}

abbrev denial : AuditEvent
denial = record {
  id = 204;
  event = record (creation.event) {
    type = access_denied;
    to_value = none;
    reason = some clearance;
    payload = some (denial_payload 1);
    occurred_at = 9;
  };
}

abbrev told : World
told = record (start long_text) {
  db = record ((start long_text).db) { audit = creation ∷ denial ∷ note ∷ assignment ∷ [] };
}

abbrev urgent_row : TriageIncidentRow
urgent_row = record { incident = urgent; assignee = find_user (some 2) users }

timeline_complete_example :
    read_all 4 (λ raw. timeline plain_codec manager 11 raw 2) none told
    ≡ (ok (some (map (shown_event false users) (note ∷ assignment ∷ creation ∷ []))), told)
unfolding visibility_scope visible_severities timeline_where
timeline_complete_example =
    timeline_complete plain_codec manager 11 urgent_row told refl 1 (ground arith)
      (tt, (tt, (tt, tt))) 4 (omega arith)

-- The first page of two: the note, redacted, and the assignment.
abbrev first_two : CursorPage TimelineEvent
first_two = record {
  items =
      record { id = 203; occurred_at = 9; actor = none; detail = note_event true none none }
      ∷ record {
        id = 202;
        occurred_at = 7;
        actor = some (record { id = 1; display_name = 77 ∷ [] });
        detail = assigned_event (some (record { id = 2; display_name = 77 ∷ [] }));
      }
      ∷ [];
  next_cursor = some (
      plain_codec.encode
        (object (some occurred_at_id_key) (some (string (7 ∷ []) ∷ string (202 ∷ []) ∷ []))));
  has_more = true;
}

timeline_redacts_example : All (Redacted false) first_two.items
unfolding visibility_scope visible_severities timeline
timeline_redacts_example =
    timeline_redacts plain_codec manager 11 urgent_row none 2 told told first_two refl refl refl
