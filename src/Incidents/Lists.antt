-- ===== src/Incidents/Lists.antt =====
-- The lists of incidents: the services of src/modules/incidents, triage, closure and investigation
-- that page through the queries, and src/modules/incidents/incident.mapper.ts for their items.
pub mod Pages
pub mod Scope
use incident_api.Base.{ℕ, Bool, Option, none, List, map}
use mathlib.Core.Option
use incident_api.Model.Enums.{Severity, Stage, IncidentType}
use incident_api.Model.Text.{Text}
use incident_api.Model.Rows.{Actor, Incident}
use incident_api.Model.Exec.{Exec, pure, ◌>>=◌}
use incident_api.Pagination.{
  OffsetPage, build_offset_page, DateInput, new_date, exclusive_end_of_day,
}
use incident_api.Incidents.Mapper.{UserRef, user_ref}
use incident_api.Incidents.Queries.{
  Search, IncidentListFilters, OrderField, Direction, IncidentListRow, count_and_find_page,
  find_mine_page, find_triage_queue_page, find_my_investigations_page, find_closures_pending_page,
}

pub record IncidentListItem : Type 0 where
  pub id : ℕ
  pub reference : Text
  pub type : IncidentType
  pub severity : Severity
  pub stage : Stage
  pub title : Text
  pub assigned_investigator : Option UserRef
  pub acknowledged_at : Option ℕ
  pub current_escalation_level : ℕ
  pub created_at : ℕ
  pub updated_at : ℕ

unfoldable pub to_incident_list_item : (updated : Incident → ℕ) → IncidentListRow → IncidentListItem
to_incident_list_item updated row = record {
  id = row.incident.id;
  reference = row.incident.reference;
  type = row.incident.type;
  severity = row.incident.severity;
  stage = row.incident.stage;
  title = row.incident.title;
  assigned_investigator = user_ref row.assignee;
  acknowledged_at = row.incident.acknowledged_at;
  current_escalation_level = row.incident.current_escalation_level;
  created_at = row.incident.created_at;
  updated_at = updated row.incident;
}

-- `ListIncidentsQuery`, with the defaults of its schema filled in.
pub record ListIncidentsQuery : Type 0 where
  pub page : ℕ
  pub page_size : ℕ
  pub severity : Option (List Severity)
  pub stage : Option (List Stage)
  pub type : Option (List IncidentType)
  pub assigned_to_me : Option Bool
  pub reported_by_me : Option Bool
  pub unacknowledged : Option Bool
  pub escalated_only : Option Bool
  pub from_date : Option DateInput
  pub to_date : Option DateInput
  pub q : Option Text
  pub sort : OrderField
  pub order : Direction

-- The query's `q` is not handed on.
unfoldable pub to_repository_filters : ListIncidentsQuery → IncidentListFilters
unfolding exclusive_end_of_day
to_repository_filters query = record {
  severity = query.severity;
  stage = query.stage;
  type = query.type;
  assigned_to_me = query.assigned_to_me;
  reported_by_me = query.reported_by_me;
  unacknowledged = query.unacknowledged;
  escalated_only = query.escalated_only;
  from_time = Option.map new_date query.from_date;
  to_time = Option.map exclusive_end_of_day query.to_date;
  q = none;
}

-- What the list services answer with.
abbrev pub list_response :
    (updated : Incident → ℕ)
    → (page page_size : ℕ) → ℕ × List IncidentListRow
    → OffsetPage IncidentListItem
unfolding build_offset_page to_incident_list_item
list_response updated page page_size (total, rows) =
    build_offset_page (map (to_incident_list_item updated) rows) total page page_size

module _ (updated : Incident → ℕ) where
  unfoldable pub list : Search → Actor → ListIncidentsQuery → Exec (OffsetPage IncidentListItem)
  unfolding count_and_find_page to_repository_filters list_response
  list search actor query = do
    found ←
        count_and_find_page search updated actor (to_repository_filters query) query.page
          query.page_size (record { field = query.sort; direction = query.order })
    pure (list_response updated query.page query.page_size found)

  unfoldable pub mine : Actor → (page page_size : ℕ) → Exec (OffsetPage IncidentListItem)
  unfolding find_mine_page list_response
  mine actor page page_size = do
    found ← find_mine_page actor page page_size
    pure (list_response updated page page_size found)

  unfoldable pub get_triage_queue :
      Actor → (page page_size : ℕ) → Exec (OffsetPage IncidentListItem)
  unfolding find_triage_queue_page list_response
  get_triage_queue actor page page_size = do
    found ← find_triage_queue_page actor page page_size
    pure (list_response updated page page_size found)

  unfoldable pub my_investigations :
      Actor → (page page_size : ℕ) → Exec (OffsetPage IncidentListItem)
  unfolding find_my_investigations_page list_response
  my_investigations actor page page_size = do
    found ← find_my_investigations_page actor page page_size
    pure (list_response updated page page_size found)

  unfoldable pub get_closures_pending :
      Actor → (page page_size : ℕ) → Exec (OffsetPage IncidentListItem)
  unfolding find_closures_pending_page list_response
  get_closures_pending actor page page_size = do
    found ← find_closures_pending_page updated actor page page_size
    pure (list_response updated page page_size found)
