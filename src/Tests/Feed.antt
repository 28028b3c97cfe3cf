-- ===== src/Tests/Feed.antt =====
-- The feed with the urgent incident, which has reached level 1.
use incident_api.Base.{◌≡◌, none, some, true, [], ◌∷◌, map, arith, ltb, is_some, All, Unique}
use incident_api.Model.Enums.{high}
use incident_api.Model.Rows.{Incident, EscalationEvent}
use incident_api.Model.World.{World}
use incident_api.Model.Exec.{ok}
use incident_api.Policy.{visibility_scope, visible_severities}
use incident_api.Pagination.Walk.{read_all}
use incident_api.Incidents.Repository.{incident_id}
use incident_api.Escalation.Feed.{active_escalation_where, list_feed}
use incident_api.Escalation.Feed.Order.{Clocked}
use incident_api.Escalation.Feed.Events.{current_event, shown_row}
use incident_api.Escalation.Feed.Rows.{incident_of}
use incident_api.Escalation.Feed.Complete.{feed_complete}
use incident_api.Tests.Fixtures.{long_text, manager, fresh, urgent, finished, start}
use incident_api.Tests.Codecs.{plain_codec}

abbrev raised : Incident
raised = record urgent { current_escalation_level = 1 }

abbrev escalation : EscalationEvent
escalation = record {
  id = 301;
  incident_id = 11;
  cycle = 1;
  level = 1;
  severity_at_escalation = high;
  due_at = 1801000;
  triggered_at = 1900000;
}

abbrev alarmed : World
alarmed = record (start long_text) {
  db = record ((start long_text).db) {
    incidents = fresh ∷ raised ∷ finished ∷ [];
    events = escalation ∷ [];
  };
}

alarmed-Unique : Unique incident_id alarmed.db.incidents
alarmed-Unique = ground arith

alarmed-Clocked : All Clocked alarmed.db.incidents
alarmed-Clocked = ground arith

alarmed-Found :
    All
      (λ (r : Incident).
        ltb 0 r.current_escalation_level ≡ true
        → is_some (current_event r alarmed.db.events) ≡ true)
      alarmed.db.incidents
alarmed-Found = ground arith

feed_complete_example :
    (read_all 2 (λ raw. list_feed plain_codec manager raw 1) none alarmed
      ≡ (ok (some (map (shown_row alarmed.db.users) ((raised, escalation) ∷ []))), alarmed))
    × (map incident_of ((raised, escalation) ∷ []) ≡ raised ∷ [])
unfolding active_escalation_where visibility_scope visible_severities
feed_complete_example =
    feed_complete plain_codec manager alarmed alarmed-Unique alarmed-Clocked alarmed-Found 0 2
      (omega arith)
