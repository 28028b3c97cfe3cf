-- ===== src/Tests/Inbox.antt =====
-- Two notifications of the investigator of the urgent incident, one of them of an incident that a
-- lowered clearance hides.
use incident_api.Base.{◌≡◌, refl, none, some, false, [], ◌∷◌}
use incident_api.Model.Enums.{high, investigator}
use incident_api.Model.Rows.{Actor, EscalationEvent, Notification}
use incident_api.Model.World.{World}
use incident_api.Model.Exec.{ok}
use incident_api.Policy.{visibility_scope, visible_severities}
use incident_api.Notifications.{
  to_notification_item, own_notifications_where, mark_notification_read,
}
use incident_api.Notifications.Read.{marked, read_world, mark_read_hidden}
use incident_api.Tests.Fixtures.{long_text, urgent, start}

abbrev escalated : EscalationEvent
escalated = record {
  id = 301;
  incident_id = 11;
  cycle = 1;
  level = 1;
  severity_at_escalation = high;
  due_at = 1800000;
  triggered_at = 1900000;
}

abbrev unread : Notification
unread = record {
  id = 401;
  escalation_event_id = 301;
  recipient_id = 2;
  created_at = 1900000;
  read_at = none;
}

abbrev inbox : World
inbox = record (start long_text) {
  db = record ((start long_text).db) { events = escalated ∷ []; notifications = unread ∷ [] };
}

abbrev recipient : Actor
recipient = record { id = 2; role = investigator; clearance_level = 3; session_id = none }

abbrev lowered : Actor
lowered = record recipient { clearance_level = 1 }

mark_read_hidden_example :
    (own_notifications_where lowered inbox.db unread ≡ false)
    × (mark_notification_read lowered 401 inbox ≡ (
      ok (
          to_notification_item (record {
            row = marked inbox.clock unread;
            event = some escalated;
            incident = some urgent;
          })),
      read_world lowered 401 inbox,
    ))
unfolding visibility_scope visible_severities
mark_read_hidden_example = mark_read_hidden lowered 401 inbox unread refl urgent refl refl
