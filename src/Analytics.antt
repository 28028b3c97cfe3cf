-- ===== src/Analytics.antt =====
-- src/modules/analytics: the reports over a period. `percentile_cont` of the database is the
-- argument `percentile`, which is given the times of first escalation and of acknowledgement.
-- Left out: the trend, which the database buckets by calendar, and the texts of the CSV export.
pub mod Sums
pub mod Totals
use incident_api.Base.{
  ℕ, ◌+◌, Bool, true, not, ◌&&◌, Option, none, some, List, [], ◌∷◌, map, ltb, leb, count_where,
  filter, find_where, if◌then◌else◌, or_else, is_some, ◌==◌,
}
use incident_api.Model.Enums.{
  Severity, Stage, IncidentType, closed, same_stage, same_severity, severity_values,
}
use incident_api.Model.Rows.{Actor, Incident, EscalationEvent}
use incident_api.Model.World.{World}
use incident_api.Model.Exec.{Exec, pure, gets, ◌>>=◌}
use incident_api.Policy.{visible_severities, includes}
use incident_api.Pagination.{DateInput, new_date, exclusive_end_of_day}
use incident_api.Incidents.Queries.{AnalyticsPeriodFilters, one_of, same_type}
use incident_api.Incidents.Counts.{
  TypeSeverityCount, incident_type_values, flat_map, group_incidents_by_type_and_severity,
  count_incidents_in_period,
}

-- `AnalyticsMatrixQuery` and the like.
pub record PeriodQuery : Type 0 where
  pub from_date : DateInput
  pub to_date : DateInput
  pub type : Option (List IncidentType)
  pub stage : Option (List Stage)

unfoldable pub to_filters : PeriodQuery → AnalyticsPeriodFilters
unfolding exclusive_end_of_day
to_filters query = record {
  from_time = new_date query.from_date;
  to_time = exclusive_end_of_day query.to_date;
  type = query.type;
  stage = query.stage;
}

pub record TypeCount : Type 0 where
  pub type : IncidentType
  pub count : ℕ

pub record SeverityCount : Type 0 where
  pub severity : Severity
  pub count : ℕ

-- `TypeSeverityMatrixResponse`, without the period that it repeats from the query.
pub record TypeSeverityMatrix : Type 0 where
  pub severities : List Severity
  pub cells : List TypeSeverityCount
  pub row_totals : List TypeCount
  pub column_totals : List SeverityCount
  pub grand_total : ℕ

-- `reduce((sum, c) => sum + c.count, 0)`.
abbrev pub sum_of : {A : Type 0} → (A → ℕ) → List A → ℕ
sum_of f [] = 0
sum_of f (x ∷ xs) = f x + sum_of f xs

abbrev pub count_of : Option TypeSeverityCount → ℕ
count_of none = 0
count_of (some r) = r.count

-- `countByKey.get(key) ?? 0`.
abbrev pub count_by_key : List TypeSeverityCount → IncidentType → Severity → ℕ
count_by_key rows t s =
    count_of (
      find_where (λ (r : TypeSeverityCount). same_type r.type t && same_severity r.severity s) rows)

unfoldable pub matrix_cells : List Severity → List TypeSeverityCount → List TypeSeverityCount
matrix_cells severities rows =
    flat_map
      (λ t. map (λ s. record { type = t; severity = s; count = count_by_key rows t s }) severities)
      incident_type_values

unfoldable pub row_total : List TypeSeverityCount → IncidentType → TypeCount
row_total cells t = record {
  type = t;
  count =
      sum_of (λ (c : TypeSeverityCount). c.count)
        (filter (λ (c : TypeSeverityCount). same_type c.type t) cells);
}

unfoldable pub column_total : List TypeSeverityCount → Severity → SeverityCount
column_total cells s = record {
  severity = s;
  count =
      sum_of (λ (c : TypeSeverityCount). c.count)
        (filter (λ (c : TypeSeverityCount). same_severity c.severity s) cells);
}

unfoldable pub to_matrix_response : List Severity → List TypeSeverityCount → TypeSeverityMatrix
unfolding matrix_cells row_total column_total
to_matrix_response severities rows =
    let cells = matrix_cells severities rows in
    let row_totals = map (row_total cells) incident_type_values in
    record {
      severities = severities;
      cells = cells;
      row_totals = row_totals;
      column_totals = map (column_total cells) severities;
      grand_total = sum_of (λ (r : TypeCount). r.count) row_totals;
    }

unfoldable pub matrix : Actor → PeriodQuery → Exec TypeSeverityMatrix
unfolding group_incidents_by_type_and_severity to_filters to_matrix_response
matrix actor query = do
  rows ← group_incidents_by_type_and_severity actor (to_filters query)
  pure (to_matrix_response (visible_severities actor.clearance_level) rows)

unfoldable pub matrix_grand_total_cross_check : Actor → PeriodQuery → Exec ℕ
unfolding count_incidents_in_period to_filters
matrix_grand_total_cross_check actor query = count_incidents_in_period actor (to_filters query)

-- `first_escalation`: the earliest event of an incident, in any cycle.
abbrev pub earlier : ℕ → Option ℕ → Option ℕ
earlier t none = some t
earlier t (some u) = some (if ltb t u then t else u)

abbrev pub first_escalation : (incident_id : ℕ) → List EscalationEvent → Option ℕ
first_escalation id [] = none
first_escalation id (e ∷ events) =
    let rest = first_escalation id events in
    if e.incident_id == id then earlier e.triggered_at rest else rest

-- The times of those incidents that were escalated and acknowledged.
abbrev pub times_of : Option ℕ → Option ℕ → List (ℕ × ℕ) → List (ℕ × ℕ)
times_of (some first) (some acknowledged) rest = (first, acknowledged) ∷ rest
times_of _ _ rest = rest

abbrev pub acknowledgement_times : List EscalationEvent → List Incident → List (ℕ × ℕ)
acknowledgement_times events [] = []
acknowledgement_times events (row ∷ rows) =
    times_of (first_escalation row.id events) row.acknowledged_at
      (acknowledgement_times events rows)

-- The condition of the raw queries.
unfoldable pub raw_where : List Severity → AnalyticsPeriodFilters → Incident → Bool
raw_where severities filters row =
    leb filters.from_time row.created_at
    && ltb row.created_at filters.to_time
    && includes severities row.severity
    && one_of (λ t. same_type row.type t) filters.type
    && one_of (λ s. same_stage row.stage s) filters.stage

pub record Overview : Type 0 where
  pub total_incidents : ℕ
  pub open_incidents : ℕ
  pub escalated_incidents : ℕ
  pub median_ack_seconds : Option ℕ

pub record EscalationPerformanceRow : Type 0 where
  pub severity : Severity
  pub escalated_count : ℕ
  pub acknowledged_count : ℕ
  pub median_ack_seconds : Option ℕ
  pub p90_ack_seconds : Option ℕ

module _ (percentile : (tenths : ℕ) → List (ℕ × ℕ) → Option ℕ) where
  unfoldable pub overview_aggregate : Actor → AnalyticsPeriodFilters → Exec Overview
  unfolding raw_where
  overview_aggregate actor filters = gets (λ w.
      let severities = visible_severities actor.clearance_level in
      let rows = filter (raw_where severities filters) w.db.incidents in
      record {
        total_incidents = count_where (raw_where severities filters) w.db.incidents;
        open_incidents = count_where (λ (row : Incident). not (same_stage row.stage closed)) rows;
        escalated_incidents =
            count_where (λ (row : Incident). is_some (first_escalation row.id w.db.events)) rows;
        median_ack_seconds = percentile 5 (acknowledgement_times w.db.events rows);
      })

  unfoldable pub overview : Actor → PeriodQuery → Exec Overview
  unfolding overview_aggregate to_filters
  overview actor query = overview_aggregate actor (to_filters query)

  -- One row of `escalationPerformanceAggregate`: the escalated incidents of a severity.
  unfoldable pub performance_row :
      List EscalationEvent → List Incident → Severity → EscalationPerformanceRow
  performance_row events rows s =
      let escalated =
        filter
          (λ (row : Incident).
            same_severity row.severity s && is_some (first_escalation row.id events))
          rows in
      record {
        severity = s;
        escalated_count = count_where (λ row. true) escalated;
        acknowledged_count =
            count_where (λ (row : Incident). is_some row.acknowledged_at) escalated;
        median_ack_seconds = percentile 5 (acknowledgement_times events escalated);
        p90_ack_seconds = percentile 9 (acknowledgement_times events escalated);
      }

  -- `GROUP BY severity ORDER BY severity`: a row for each severity that occurs.
  unfoldable pub escalation_performance : Actor → PeriodQuery → Exec (List EscalationPerformanceRow)
  unfolding performance_row raw_where to_filters
  escalation_performance actor query = gets (λ w.
      let severities = visible_severities actor.clearance_level in
      let rows = filter (raw_where severities (to_filters query)) w.db.incidents in
      filter (λ (r : EscalationPerformanceRow). ltb 0 r.escalated_count)
        (map (performance_row w.db.events rows) severity_values))
