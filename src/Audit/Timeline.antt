-- ===== src/Audit/Timeline.antt =====
-- src/modules/audit/timeline.service.ts with its queries in audit.repository.ts.
pub mod Redaction
pub mod Refs
pub mod Complete
use incident_api.Base.{
  ℕ, suc, ◌+◌, Bool, true, false, not, ◌&&◌, ◌||◌, Option, none, some, List, [], ◌∷◌, map, ◌==◌,
  ltb, any, filter, take, length, sort_by, same_option, if◌then◌else◌,
}
use incident_api.Model.Enums.{
  AuditEventType, admin, access_denied, investigator_assigned, investigator_unassigned, same_role,
  same_event_type,
}
use incident_api.Model.Errors.{plain_error}
use incident_api.Model.Text.{Text}
use incident_api.Model.Rows.{Actor, User, Incident, AuditEvent, AuditInput, AuditValue, user_value}
use incident_api.Model.World.{World}
use incident_api.Model.Exec.{Result, ok, err, Exec, pure, fail, gets, lift, ◌>>=◌}
use incident_api.Policy.{can_read_notes}
use incident_api.Pagination.{CursorPage, cursor_page, page_rows, find_first_rows}
use incident_api.Pagination.Tokens.{
  Codec, TimeIdCursor, TimeIdWhere, time_id_bound, encode_occurred_at_id_cursor,
  decode_occurred_at_id_cursor, optional_cursor,
}
use incident_api.Pagination.Cursors.{newest_first}
use incident_api.Incidents.Repository.{find_user}
use incident_api.Incidents.Mapper.{UserRef, user_ref}
use incident_api.Incidents.Service.{get_by_id_for_actor}
use incident_api.Audit.Mapper.{AuditEventRow, TimelineEvent, to_timeline_event}

abbrev pub audit_time : AuditEvent → ℕ
audit_time row = row.event.occurred_at

abbrev pub audit_id : AuditEvent → ℕ
audit_id row = row.id

-- `AUDIT_EVENT_INCLUDE`.
abbrev pub with_actor : List User → AuditEvent → AuditEventRow
with_actor users row = record { row = row; actor = user_ref (find_user row.event.actor_id users) }

unfoldable pub timeline_where :
    (incident_id : ℕ) → (include_access_denied : Bool) → AuditEvent → Bool
timeline_where incident_id include_access_denied row =
    same_option row.event.incident_id (some incident_id)
    && (include_access_denied || not (same_event_type row.event.type access_denied))

abbrev pub timeline_rows :
    (incident_id : ℕ)
    → TimeIdWhere
    → (page_size : ℕ) → (include_access_denied : Bool) → World
    → List AuditEventRow
timeline_rows incident_id bound page_size include_access_denied w = map (with_actor w.db.users) (
    find_first_rows (newest_first audit_time audit_id)
      (λ row. timeline_where incident_id include_access_denied row && bound (audit_time row) row.id)
      (suc page_size) w.db.audit)

unfoldable pub find_timeline_page :
    (incident_id : ℕ)
    → TimeIdWhere
    → (page_size : ℕ) → (include_access_denied : Bool) → Exec (List AuditEventRow)
unfolding timeline_where
find_timeline_page incident_id bound page_size include_access_denied =
    gets (timeline_rows incident_id bound page_size include_access_denied)

-- The user ids that a page names.
abbrev pub named_by : Option AuditValue → List ℕ → List ℕ
named_by (some (user_value id)) ids = id ∷ ids
named_by _ ids = ids

abbrev pub named_value : AuditEventType → AuditInput → Option AuditValue
named_value investigator_assigned event = event.to_value
named_value investigator_unassigned event = event.from_value
named_value _ event = none

unfoldable pub user_ids_of : List AuditEventRow → List ℕ
user_ids_of [] = []
user_ids_of (r ∷ rows) = named_by (named_value r.row.event.type r.row.event) (user_ids_of rows)

abbrev pub ref : User → UserRef
ref u = record { id = u.id; display_name = u.display_name }

unfoldable pub find_user_refs_by_ids : List ℕ → List User → List UserRef
find_user_refs_by_ids ids users = map ref (filter (λ (u : User). any (λ i. u.id == i) ids) users)

abbrev pub push : TimelineEvent → Option (List TimelineEvent) → Option (List TimelineEvent)
push e none = none
push e (some es) = some (e ∷ es)

-- A row that cannot be mapped throws.
abbrev pub all_mapped : List (Option TimelineEvent) → Option (List TimelineEvent)
all_mapped [] = some []
all_mapped (none ∷ es) = none
all_mapped (some e ∷ es) = push e (all_mapped es)

abbrev pub with_items :
    CursorPage (Option TimelineEvent)
    → Option (List TimelineEvent)
    → Exec (CursorPage TimelineEvent)
with_items page none = fail plain_error
with_items page (some items) =
    pure (record { items = items; next_cursor = page.next_cursor; has_more = page.has_more })

module _ (codec : Codec) where
  abbrev pub timeline_cursor : AuditEventRow → Text
  unfolding encode_occurred_at_id_cursor
  timeline_cursor r = encode_occurred_at_id_cursor codec r.row.event.occurred_at r.row.id

  -- The answer to the rows that were read.
  unfoldable pub timeline_page :
      (can_see_notes : Bool)
      → (page_size : ℕ) → List User
      → List AuditEventRow
      → Exec (CursorPage TimelineEvent)
  unfolding cursor_page to_timeline_event user_ids_of find_user_refs_by_ids timeline_cursor
  timeline_page can_see_notes page_size users rows =
      let refs = find_user_refs_by_ids (user_ids_of (page_rows page_size rows)) users in
      let page =
        cursor_page (λ r. to_timeline_event r can_see_notes refs) timeline_cursor page_size rows in
      with_items page (all_mapped page.items)

  -- What follows the gate.
  unfoldable pub timeline_of :
      Actor
      → Incident
      → (incident_id : ℕ) → (cursor_raw : Option Text) → (page_size : ℕ)
      → Exec (CursorPage TimelineEvent)
  unfolding optional_cursor decode_occurred_at_id_cursor time_id_bound find_timeline_page
      timeline_page
  timeline_of actor incident incident_id cursor_raw page_size = do
    cursor ← lift (optional_cursor (decode_occurred_at_id_cursor codec) cursor_raw)
    bound ← lift (time_id_bound cursor)
    rows ← find_timeline_page incident_id bound page_size (same_role actor.role admin)
    users ← gets (λ w. w.db.users)
    timeline_page (can_read_notes actor incident) page_size users rows

  unfoldable pub timeline :
      Actor
      → (incident_id : ℕ) → (cursor_raw : Option Text) → (page_size : ℕ)
      → Exec (CursorPage TimelineEvent)
  unfolding get_by_id_for_actor timeline_of
  timeline actor incident_id cursor_raw page_size = do
    row ← get_by_id_for_actor actor incident_id
    timeline_of actor row.incident incident_id cursor_raw page_size
