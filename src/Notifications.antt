-- ===== src/Notifications.antt =====
-- src/modules/escalation/notification.service.ts with its repository and mapper.
pub mod Read
use incident_api.Base.{
  ℕ, suc, Bool, true, false, ◌&&◌, Option, none, some, List, [], map, ◌==◌, is_none, find_where,
  update_where, count_where, first_some, has_key, if◌then◌else◌,
}
use mathlib.Core.Option
use incident_api.Model.Enums.{Severity}
use incident_api.Model.Errors.{not_found_error, notification_resource}
use incident_api.Model.Text.{Text}
use incident_api.Model.Rows.{Actor, Incident, EscalationEvent, Notification}
use incident_api.Model.World.{Db, World}
use incident_api.Model.Exec.{
  Exec, ok, pure, throw, gets, lift, now, or_throw, modify_db, ◌>>=◌, ◌>>◌,
}
use incident_api.Policy.{visibility_scope}
use incident_api.Pagination.{CursorPage, cursor_page, find_first_rows}
use incident_api.Pagination.Tokens.{
  Codec, TimeIdWhere, time_id_bound, optional_cursor, encode_created_at_id_cursor,
  decode_created_at_id_cursor,
}
use incident_api.Pagination.Cursors.{newest_first}
use incident_api.Incidents.Repository.{incident_at}

-- `NOTIFICATION_INCLUDE`: the event of a notification, and the event's incident. Foreign keys make
-- both exist; a row whose event or incident is missing has none here.
pub record NotificationRow : Type 0 where
  pub row : Notification
  pub event : Option EscalationEvent
  pub incident : Option Incident

abbrev pub event_of : Notification → List EscalationEvent → Option EscalationEvent
event_of n events = find_where (λ (e : EscalationEvent). e.id == n.escalation_event_id) events

abbrev pub incident_of_event : Option EscalationEvent → List Incident → Option Incident
incident_of_event none incidents = none
incident_of_event (some e) incidents = incident_at e.incident_id incidents

abbrev pub joined : Db → Notification → NotificationRow
joined db n = record {
  row = n;
  event = event_of n db.events;
  incident = incident_of_event (event_of n db.events) db.incidents;
}

abbrev pub sees : Actor → Option Incident → Bool
sees actor none = false
sees actor (some i) = visibility_scope actor i

unfoldable pub own_notifications_where : Actor → Db → Notification → Bool
own_notifications_where actor db n =
    n.recipient_id == actor.id && sees actor (incident_of_event (event_of n db.events) db.incidents)

-- `NotificationItem`.
pub record NotificationItem : Type 0 where
  pub id : ℕ
  pub incident_id : Option ℕ
  pub incident_reference : Option Text
  pub incident_title : Option Text
  pub severity : Option Severity
  pub level : Option ℕ
  pub due_at : Option ℕ
  pub read_at : Option ℕ
  pub created_at : ℕ

unfoldable pub to_notification_item : NotificationRow → NotificationItem
to_notification_item r = record {
  id = r.row.id;
  incident_id = Option.map (λ (i : Incident). i.id) r.incident;
  incident_reference = Option.map (λ (i : Incident). i.reference) r.incident;
  incident_title = Option.map (λ (i : Incident). i.title) r.incident;
  severity = Option.map (λ (i : Incident). i.severity) r.incident;
  level = Option.map (λ (e : EscalationEvent). e.level) r.event;
  due_at = Option.map (λ (e : EscalationEvent). e.due_at) r.event;
  read_at = r.row.read_at;
  created_at = r.row.created_at;
}

abbrev pub notification_time : Notification → ℕ
notification_time n = n.created_at

abbrev pub notification_id : Notification → ℕ
notification_id n = n.id

unfoldable pub find_notifications_page :
    Actor → TimeIdWhere → (page_size : ℕ) → Exec (List NotificationRow)
unfolding own_notifications_where
find_notifications_page actor bound page_size = gets (λ w. map (joined w.db) (
    find_first_rows (newest_first notification_time notification_id)
      (λ n. own_notifications_where actor w.db n && bound (notification_time n) n.id)
      (suc page_size) w.db.notifications))

unfoldable pub count_unread : Actor → Exec ℕ
unfolding own_notifications_where
count_unread actor = gets (λ w.
    count_where (λ (n : Notification). own_notifications_where actor w.db n && is_none n.read_at)
      w.db.notifications)

pub record NotificationsResponse : Type 0 where
  pub page : CursorPage NotificationItem
  pub unread_count : ℕ

module _ (codec : Codec) where
  abbrev pub notification_cursor : NotificationRow → Text
  unfolding encode_created_at_id_cursor
  notification_cursor r = encode_created_at_id_cursor codec r.row.created_at r.row.id

  unfoldable pub list_notifications :
      Actor → (cursor_raw : Option Text) → (page_size : ℕ) → Exec NotificationsResponse
  unfolding optional_cursor decode_created_at_id_cursor time_id_bound find_notifications_page
      count_unread cursor_page to_notification_item notification_cursor
  list_notifications actor cursor_raw page_size = do
    cursor ← lift (optional_cursor (decode_created_at_id_cursor codec) cursor_raw)
    bound ← lift (time_id_bound cursor)
    rows ← find_notifications_page actor bound page_size
    unread ← count_unread actor
    pure (record {
      page = cursor_page to_notification_item notification_cursor page_size rows;
      unread_count = unread;
    })

-- `findOwnNotification`: by recipient alone.
abbrev pub is_own : Actor → (id : ℕ) → Notification → Bool
is_own actor id n = n.id == id && n.recipient_id == actor.id

unfoldable pub find_own_notification : Actor → (id : ℕ) → Exec (Option NotificationRow)
find_own_notification actor id =
    gets (λ w. Option.map (joined w.db) (find_where (is_own actor id) w.db.notifications))

abbrev pub is_unread : Notification → Bool
is_unread n = is_none n.read_at

abbrev pub set_read : ℕ → Notification → Notification
set_read at n = record n { read_at = some at }

unfoldable pub mark_read : (id at : ℕ) → Exec (Unit {0})
mark_read id at = modify_db (λ db. record db {
  notifications =
      update_where (λ n. has_key notification_id id n && is_unread n) (set_read at)
        db.notifications;
})

unfoldable pub mark_notification_read : Actor → (id : ℕ) → Exec NotificationItem
unfolding find_own_notification mark_read to_notification_item
mark_notification_read actor id = do
  found ← find_own_notification actor id
  existing ← or_throw found (not_found_error notification_resource id)
  at ← now
  mark_read id at
  pure (
      to_notification_item (record existing {
        row = record (existing.row) { read_at = first_some existing.row.read_at (some at) };
      }))
