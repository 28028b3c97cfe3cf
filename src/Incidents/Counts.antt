-- ===== src/Incidents/Counts.antt =====
-- The grouped counts of src/modules/incidents/incident.repository.ts and the summary of
-- src/modules/incidents/incident.service.ts.
use incident_api.Base.{
  ℕ, Bool, ◌&&◌, List, [], ◌∷◌, ◌++◌, map, ltb, leb, count_where, filter, if◌then◌else◌,
}
use incident_api.Model.Enums.{
  Severity, Stage, IncidentType, stage_values, severity_values, same_stage, same_severity,
}
use incident_api.Model.Rows.{Actor, Incident}
use incident_api.Model.Exec.{Exec, pure, gets, ◌>>=◌}
use incident_api.Policy.{visibility_scope}
use incident_api.Incidents.Queries.{AnalyticsPeriodFilters, one_of, same_type}

pub record StageCount : Type 0 where
  pub stage : Stage
  pub count : ℕ

-- `groupBy({ by: ['stage'], where, _count })`: a row for each stage that occurs.
unfoldable pub count_by_stage : Actor → Exec (List StageCount)
count_by_stage actor = gets (λ w.
    filter (λ (r : StageCount). ltb 0 r.count)
      (map
        (λ s. record {
          stage = s;
          count =
              count_where (λ row. same_stage row.stage s && visibility_scope actor row)
                w.db.incidents;
        })
        stage_values))

-- `counts[row.stage] = row.count`.
abbrev pub set_counts : List StageCount → (Stage → ℕ) → Stage → ℕ
set_counts [] counts = counts
set_counts (r ∷ rows) counts =
    set_counts rows (λ s. if same_stage s r.stage then r.count else counts s)

unfoldable pub summary : Actor → Exec (Stage → ℕ)
unfolding count_by_stage
summary actor = do rows ← count_by_stage actor; pure (set_counts rows (λ s. 0))

-- `IncidentTypeValues`.
abbrev pub incident_type_values : List IncidentType
incident_type_values =
    IncidentType.safety ∷ IncidentType.security ∷ IncidentType.environmental
    ∷ IncidentType.operational ∷ IncidentType.data_privacy ∷ IncidentType.equipment
    ∷ IncidentType.other ∷ []

unfoldable pub analytics_period_where : Actor → AnalyticsPeriodFilters → Incident → Bool
analytics_period_where actor filters row =
    visibility_scope actor row
    && leb filters.from_time row.created_at
    && ltb row.created_at filters.to_time
    && one_of (λ t. same_type row.type t) filters.type
    && one_of (λ s. same_stage row.stage s) filters.stage

pub record TypeSeverityCount : Type 0 where
  pub type : IncidentType
  pub severity : Severity
  pub count : ℕ

abbrev pub in_cell : IncidentType → Severity → Incident → Bool
in_cell t s row = same_type row.type t && same_severity row.severity s

abbrev pub flat_map : {A B : Type 0} → (A → List B) → List A → List B
flat_map f [] = []
flat_map f (x ∷ xs) = f x ++ flat_map f xs

-- `groupBy({ by: ['type', 'severity'], where, _count })`.
unfoldable pub group_rows : (Incident → Bool) → List Incident → List TypeSeverityCount
group_rows p rows =
    filter (λ (r : TypeSeverityCount). ltb 0 r.count)
      (flat_map
        (λ t.
          map
            (λ s. record {
              type = t;
              severity = s;
              count = count_where (λ row. in_cell t s row && p row) rows;
            })
            severity_values)
        incident_type_values)

unfoldable pub group_incidents_by_type_and_severity :
    Actor → AnalyticsPeriodFilters → Exec (List TypeSeverityCount)
unfolding group_rows analytics_period_where
group_incidents_by_type_and_severity actor filters =
    gets (λ w. group_rows (analytics_period_where actor filters) w.db.incidents)

unfoldable pub count_incidents_in_period : Actor → AnalyticsPeriodFilters → Exec ℕ
unfolding analytics_period_where
count_incidents_in_period actor filters =
    gets (λ w. count_where (analytics_period_where actor filters) w.db.incidents)
