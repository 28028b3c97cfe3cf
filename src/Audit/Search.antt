-- ===== src/Audit/Search.antt =====
-- `search` of src/modules/audit/audit.service.ts and its query in audit.repository.ts.
use incident_api.Base.{ℕ, Bool, true, ◌&&◌, Option, none, some, List, map, same_option}
use mathlib.Core.Option
use incident_api.Model.Enums.{AuditEventType, same_event_type}
use incident_api.Model.Rows.{AuditEvent, Incident}
use incident_api.Model.Exec.{Exec, pure, gets, ◌>>=◌}
use incident_api.Pagination.{
  OffsetPage, build_offset_page, count_and_find, DateInput, new_date, exclusive_end_of_day,
}
use incident_api.Pagination.Cursors.{newest_first}
use incident_api.Incidents.Repository.{incident_at}
use incident_api.Incidents.Queries.{one_of, from_bound, to_bound}
use incident_api.Audit.Mapper.{AuditEventRow, AuditRow, to_audit_row}
use incident_api.Audit.Timeline.{audit_time, audit_id, with_actor}

pub record AuditSearchFilters : Type 0 where
  pub type : Option (List AuditEventType)
  pub actor_id : Option ℕ
  pub incident_id : Option ℕ
  pub from_time : Option ℕ
  pub to_time : Option ℕ

-- `AuditSearchQuery`. An empty id in the query string is taken for a missing one; here it is.
pub record AuditSearchQuery : Type 0 where
  pub page : ℕ
  pub page_size : ℕ
  pub type : Option (List AuditEventType)
  pub actor_id : Option ℕ
  pub incident_id : Option ℕ
  pub from_date : Option DateInput
  pub to_date : Option DateInput

abbrev matches_id : Option ℕ → Option ℕ → Bool
matches_id none column = true
matches_id (some id) column = same_option column (some id)

unfoldable pub build_search_where : AuditSearchFilters → AuditEvent → Bool
build_search_where filters row =
    one_of (λ t. same_event_type row.event.type t) filters.type
    && matches_id filters.actor_id row.event.actor_id
    && matches_id filters.incident_id row.event.incident_id
    && from_bound filters.from_time row.event.occurred_at
    && to_bound filters.to_time row.event.occurred_at

-- `AUDIT_SEARCH_INCLUDE`: the actor and the incident.
abbrev incident_of : Option ℕ → List Incident → Option Incident
incident_of none rows = none
incident_of (some id) rows = incident_at id rows

unfoldable pub search_audit :
    AuditSearchFilters → (page page_size : ℕ) → Exec (ℕ × List (AuditEventRow × Option Incident))
unfolding build_search_where
search_audit filters page page_size = gets (λ w.
    let (total, rows) =
      count_and_find (λ (row : AuditEvent). w.place row.id) (newest_first audit_time audit_id)
        (build_search_where filters) w.db.audit page page_size in
    (
      total,
      map
          (λ (r : AuditEvent).
            (with_actor w.db.users r, incident_of r.event.incident_id w.db.incidents))
          rows,
    ))

unfoldable pub to_search_filters : AuditSearchQuery → AuditSearchFilters
unfolding exclusive_end_of_day
to_search_filters query = record {
  type = query.type;
  actor_id = query.actor_id;
  incident_id = query.incident_id;
  from_time = Option.map new_date query.from_date;
  to_time = Option.map exclusive_end_of_day query.to_date;
}

unfoldable pub search_response :
    (page page_size : ℕ) → ℕ × List (AuditEventRow × Option Incident) → OffsetPage AuditRow
unfolding build_offset_page to_audit_row
search_response page page_size (total, rows) =
    build_offset_page (map (λ r. to_audit_row r.0 r.1) rows) total page page_size

unfoldable pub search_events : AuditSearchQuery → Exec (OffsetPage AuditRow)
unfolding search_audit to_search_filters search_response
search_events query = do
  found ← search_audit (to_search_filters query) query.page query.page_size
  pure (search_response query.page query.page_size found)
