-- ===== src/Escalation/Feed.antt =====
-- The reads of src/modules/escalation/escalation.service.ts: the tiers, the feed of active
-- escalations, and the history of one incident.
pub mod Order
pub mod Events
pub mod Rows
pub mod Page
pub mod Complete
use incident_api.Base.{
  ℕ, suc, Bool, true, false, not, ◌&&◌, ◌||◌, Option, none, some, List, [], ◌∷◌, ◌++◌, map, ltb,
  ◌==◌, is_none, any, filter, sort_by, length,
}
use incident_api.Model.Enums.{Severity, closed, same_stage}
use incident_api.Model.Errors.{plain_error}
use incident_api.Model.Text.{Text}
use incident_api.Model.Rows.{Actor, User, Incident, EscalationEvent}
use incident_api.Model.Exec.{Exec, Result, ok, err, pure, gets, lift, ◌>>=◌}
use incident_api.Policy.{visibility_scope}
use incident_api.Pagination.{CursorPage, page_rows, last_of, find_first_rows}
use incident_api.Pagination.Tokens.{
  Codec, FeedWhere, feed_bound, optional_cursor, encode_escalation_feed_cursor,
  decode_escalation_feed_cursor,
}
use incident_api.Incidents.Repository.{find_user}
use incident_api.Incidents.Mapper.{UserRef, user_ref}
use incident_api.Incidents.Service.{get_by_id_for_actor}
use incident_api.Escalation.Tiers.{Tier, active_tiers}

-- `toEscalationTierDto` takes the fields of a tier over as they are.
unfoldable pub list_tiers : Exec (List Tier)
unfolding active_tiers
list_tiers = gets (λ w. active_tiers w.db.tiers)

unfoldable pub active_escalation_where : Actor → Incident → Bool
active_escalation_where actor row =
    visibility_scope actor row
    && ltb 0 row.current_escalation_level
    && is_none row.acknowledged_at
    && not (same_stage row.stage closed)

-- `EscalationFeedIncidentRow`.
pub record FeedRow : Type 0 where
  pub incident : Incident
  pub assignee : Option User

-- Ascending, null last.
abbrev pub option_before : Option ℕ → Option ℕ → Bool
option_before none b = false
option_before (some a) none = true
option_before (some a) (some b) = ltb a b

abbrev pub same_since : Option ℕ → Option ℕ → Bool
same_since a b = not (option_before a b) && not (option_before b a)

abbrev pub feed_before : Incident → Incident → Bool
feed_before a b =
    ltb b.current_escalation_level a.current_escalation_level
    || (a.current_escalation_level == b.current_escalation_level
        && (option_before a.high_severity_since b.high_severity_since
            || (same_since a.high_severity_since b.high_severity_since && ltb a.id b.id)))

abbrev pub feed_row : List User → Incident → FeedRow
feed_row users row = record {
  incident = row;
  assignee = find_user row.assigned_investigator_id users;
}

unfoldable pub find_active_escalations_page :
    Actor → FeedWhere → (page_size : ℕ) → Exec (List FeedRow)
unfolding active_escalation_where
find_active_escalations_page actor bound page_size = gets (λ w. map (feed_row w.db.users) (
    find_first_rows feed_before
      (λ row.
        active_escalation_where actor row
        && bound row.current_escalation_level row.high_severity_since row.id)
      (suc page_size) w.db.incidents))

-- `CurrentEventKey`.
pub record CurrentEventKey : Type 0 where
  pub incident_id : ℕ
  pub cycle : ℕ
  pub level : ℕ

abbrev pub has_event_key : EscalationEvent → CurrentEventKey → Bool
has_event_key e k = e.incident_id == k.incident_id && e.cycle == k.cycle && e.level == k.level

unfoldable pub find_current_events : List CurrentEventKey → Exec (List EscalationEvent)
find_current_events keys = gets (λ w. filter (λ e. any (has_event_key e) keys) w.db.events)

abbrev pub current_key : FeedRow → CurrentEventKey
current_key r = record {
  incident_id = r.incident.id;
  cycle = r.incident.escalation_cycle;
  level = r.incident.current_escalation_level;
}

-- `EscalationFeedItem`.
pub record EscalationFeedItem : Type 0 where
  pub incident_id : ℕ
  pub incident_reference : Text
  pub incident_title : Text
  pub severity : Severity
  pub level : ℕ
  pub cycle : ℕ
  pub due_at : ℕ
  pub triggered_at : ℕ
  pub assigned_investigator : Option UserRef
  pub version : ℕ

unfoldable pub to_escalation_feed_item : FeedRow → EscalationEvent → EscalationFeedItem
to_escalation_feed_item r event = record {
  incident_id = r.incident.id;
  incident_reference = r.incident.reference;
  incident_title = r.incident.title;
  severity = r.incident.severity;
  level = event.level;
  cycle = event.cycle;
  due_at = event.due_at;
  triggered_at = event.triggered_at;
  assigned_investigator = user_ref r.assignee;
  version = r.incident.version;
}

-- `new Map(events.map((e) => [e.incidentId, e]))` and `get`: the last entry counts.
abbrev pub later_or :
    Option EscalationEvent → (found : Bool) → EscalationEvent → Option EscalationEvent
later_or (some e) found first = some e
later_or none true first = some first
later_or none false first = none

abbrev pub event_by_incident : (incident_id : ℕ) → List EscalationEvent → Option EscalationEvent
event_by_incident id [] = none
event_by_incident id (e ∷ es) = later_or (event_by_incident id es) (e.incident_id == id) e

abbrev pub item_if : FeedRow → Option EscalationEvent → List EscalationFeedItem
unfolding to_escalation_feed_item
item_if r none = []
item_if r (some e) = to_escalation_feed_item r e ∷ []

unfoldable pub feed_items : List EscalationEvent → List FeedRow → List EscalationFeedItem
unfolding item_if
feed_items events [] = []
feed_items events (r ∷ rs) =
    item_if r (event_by_incident r.incident.id events) ++ feed_items events rs

module _ (codec : Codec) where
  -- `last.highSeveritySince.toISOString()` throws on a null.
  abbrev pub feed_cursor : (level : ℕ) → (since : Option ℕ) → (id : ℕ) → Result (Option Text)
  unfolding encode_escalation_feed_cursor
  feed_cursor level none id = err plain_error
  feed_cursor level (some since) id = ok (some (encode_escalation_feed_cursor codec level since id))

  abbrev pub next_feed_cursor : (has_more : Bool) → Option FeedRow → Result (Option Text)
  unfolding feed_cursor
  next_feed_cursor true (some r) =
      feed_cursor r.incident.current_escalation_level r.incident.high_severity_since r.incident.id
  next_feed_cursor _ _ = ok none

  unfoldable pub list_feed :
      Actor → (cursor_raw : Option Text) → (page_size : ℕ) → Exec (CursorPage EscalationFeedItem)
  unfolding optional_cursor decode_escalation_feed_cursor feed_bound find_active_escalations_page
      find_current_events feed_items next_feed_cursor
  list_feed actor cursor_raw page_size = do
    cursor ← lift (optional_cursor (decode_escalation_feed_cursor codec) cursor_raw)
    bound ← lift (feed_bound cursor)
    rows ← find_active_escalations_page actor bound page_size
    events ← find_current_events (map current_key (page_rows page_size rows))
    next ←
        lift (next_feed_cursor (ltb page_size (length rows)) (last_of (page_rows page_size rows)))
    pure (record {
      items = feed_items events (page_rows page_size rows);
      next_cursor = next;
      has_more = ltb page_size (length rows);
    })

-- `level: 'asc'`, then `triggeredAt: 'asc'`.
abbrev pub history_before : EscalationEvent → EscalationEvent → Bool
history_before a b =
    ltb a.level b.level || (a.level == b.level && ltb a.triggered_at b.triggered_at)

unfoldable pub find_events_for_incident : (incident_id : ℕ) → Exec (List EscalationEvent)
find_events_for_incident incident_id = gets (λ w.
    sort_by history_before
      (filter (λ (e : EscalationEvent). e.incident_id == incident_id) w.db.events))

-- `EscalationEventDto`.
pub record EscalationEventDto : Type 0 where
  pub id : ℕ
  pub cycle : ℕ
  pub level : ℕ
  pub due_at : ℕ
  pub triggered_at : ℕ

unfoldable pub to_escalation_event_dto : EscalationEvent → EscalationEventDto
to_escalation_event_dto e = record {
  id = e.id;
  cycle = e.cycle;
  level = e.level;
  due_at = e.due_at;
  triggered_at = e.triggered_at;
}

unfoldable pub list_events_for_incident : Actor → (incident_id : ℕ) → Exec (List EscalationEventDto)
unfolding get_by_id_for_actor find_events_for_incident to_escalation_event_dto
list_events_for_incident actor incident_id = do
  row ← get_by_id_for_actor actor incident_id
  events ← find_events_for_incident incident_id
  pure (map to_escalation_event_dto events)
