-- ===== src/Incidents/Queries.antt =====
-- The queries for pages of incidents of src/modules/incidents/incident.repository.ts.
-- The database orders rows that compare equal as it likes; here they keep the order of the table.
-- The column `updatedAt`, which Prisma writes, is the argument `updated`.
use incident_api.Base.{
  ℕ, Bool, true, false, not, ◌&&◌, ◌||◌, Option, none, some, List, [], ◌∷◌, map, ◌==◌, ltb, leb,
  is_some, is_none, same_option, any,
}
use incident_api.Model.Enums.{
  Severity, Stage, IncidentType, reported, triage, pending_closure, closed, severity_rank,
  same_stage,
}
use incident_api.Model.Text.{Text}
use incident_api.Model.Rows.{Actor, User, Incident}
use incident_api.Model.World.{World}
use incident_api.Model.Exec.{Exec, gets}
use incident_api.Policy.{includes, visibility_scope, effective_severities}
use incident_api.Pagination.{count_and_find}
use incident_api.Incidents.Repository.{find_user}

-- `contains` of a text.
abbrev pub is_prefix : Text → Text → Bool
is_prefix [] s = true
is_prefix (c ∷ p) [] = false
is_prefix (c ∷ p) (d ∷ s) = c == d && is_prefix p s

abbrev pub contains : Text → Text → Bool
contains [] p = is_prefix p []
contains (c ∷ s) p = is_prefix p (c ∷ s) || contains s p

-- `mode: 'insensitive'` of the database, and `toUpperCase`.
pub record Search : Type 0 where
  pub contains_insensitive : Text → Text → Bool
  pub to_upper : Text → Text

pub record IncidentListFilters : Type 0 where
  pub severity : Option (List Severity)
  pub stage : Option (List Stage)
  pub type : Option (List IncidentType)
  pub assigned_to_me : Option Bool
  pub reported_by_me : Option Bool
  pub unacknowledged : Option Bool
  pub escalated_only : Option Bool
  pub from_time : Option ℕ
  pub to_time : Option ℕ
  pub q : Option Text

pub data OrderField : Type 0 where
  created_at severity updated_at : OrderField

pub data Direction : Type 0 where
  asc desc : Direction

pub record OrderBy : Type 0 where
  pub field : OrderField
  pub direction : Direction

-- `AnalyticsPeriodFilters`.
pub record AnalyticsPeriodFilters : Type 0 where
  pub from_time : ℕ
  pub to_time : ℕ
  pub type : Option (List IncidentType)
  pub stage : Option (List Stage)

-- `IncidentListRow`: the row with its assignee.
pub record IncidentListRow : Type 0 where
  pub incident : Incident
  pub assignee : Option User

-- A filter that is absent, or an empty list, adds no condition.
abbrev pub one_of : {A : Type 0} → (A → Bool) → Option (List A) → Bool
one_of same none = true
one_of same (some []) = true
one_of same (some (a ∷ more)) = any same (a ∷ more)

abbrev pub when_set : Option Bool → Bool → Bool
when_set (some true) test = test
when_set _ test = true

abbrev pub type_place : IncidentType → ℕ
type_place IncidentType.safety = 0
type_place IncidentType.security = 1
type_place IncidentType.environmental = 2
type_place IncidentType.operational = 3
type_place IncidentType.data_privacy = 4
type_place IncidentType.equipment = 5
type_place IncidentType.other = 6

abbrev pub same_type : IncidentType → IncidentType → Bool
same_type a b = type_place a == type_place b

abbrev pub from_bound : Option ℕ → ℕ → Bool
from_bound none t = true
from_bound (some f) t = leb f t

abbrev pub to_bound : Option ℕ → ℕ → Bool
to_bound none t = true
to_bound (some u) t = ltb t u

module _ (search : Search) where
  abbrev pub text_matches : Option Text → Incident → Bool
  text_matches none row = true
  text_matches (some []) row = true
  text_matches (some (c ∷ q)) row =
      search.contains_insensitive row.title (c ∷ q)
      || contains row.reference (search.to_upper (c ∷ q))

  -- What `buildWhere` adds to the scope.
  abbrev pub narrowed : Actor → IncidentListFilters → Incident → Bool
  narrowed actor filters row =
      includes (effective_severities actor filters.severity) row.severity
      && one_of (λ s. same_stage row.stage s) filters.stage
      && one_of (λ t. same_type row.type t) filters.type
      && when_set filters.assigned_to_me (same_option row.assigned_investigator_id (some actor.id))
      && when_set filters.reported_by_me (row.reporter_id == actor.id)
      && when_set filters.unacknowledged (is_none row.acknowledged_at)
      && when_set filters.escalated_only (ltb 0 row.current_escalation_level)
      && from_bound filters.from_time row.created_at
      && to_bound filters.to_time row.created_at
      && text_matches filters.q row

  unfoldable pub build_where : Actor → IncidentListFilters → Incident → Bool
  build_where actor filters row = visibility_scope actor row && narrowed actor filters row

unfoldable pub mine_where : Actor → Incident → Bool
mine_where actor row = visibility_scope actor row && row.reporter_id == actor.id

unfoldable pub triage_queue_where : Actor → Incident → Bool
triage_queue_where actor row =
    visibility_scope actor row
    && (same_stage row.stage reported
        || same_stage row.stage triage
        || (is_some row.high_severity_since
            && is_none row.acknowledged_at
            && not (same_stage row.stage closed)))

unfoldable pub my_investigations_where : Actor → Incident → Bool
my_investigations_where actor row =
    visibility_scope actor row && same_option row.assigned_investigator_id (some actor.id)

unfoldable pub closures_pending_where : Actor → Incident → Bool
closures_pending_where actor row =
    visibility_scope actor row && same_stage row.stage pending_closure

-- `ORDER BY` one column.
abbrev pub by_column : (Incident → ℕ) → Direction → Incident → Incident → Bool
by_column column asc a b = ltb (column a) (column b)
by_column column desc a b = ltb (column b) (column a)

-- `currentEscalationLevel: 'desc'`, then `createdAt: 'asc'`.
abbrev pub queue_before : Incident → Incident → Bool
queue_before a b =
    ltb b.current_escalation_level a.current_escalation_level
    || (a.current_escalation_level == b.current_escalation_level && ltb a.created_at b.created_at)

abbrev pub column_of : (Incident → ℕ) → OrderField → Incident → ℕ
column_of updated created_at row = row.created_at
column_of updated severity row = severity_rank row.severity
column_of updated updated_at row = updated row

abbrev pub newest : Incident → Incident → Bool
newest = by_column (λ (row : Incident). row.created_at) desc

abbrev pub list_row : List User → Incident → IncidentListRow
list_row users row = record {
  incident = row;
  assignee = find_user row.assigned_investigator_id users;
}

-- `count` and `findMany` of one transaction, with the assignees.
unfoldable pub count_and_join :
    (Incident → Incident → Bool)
    → (Incident → Bool)
    → (page page_size : ℕ) → World
    → ℕ × List IncidentListRow
unfolding count_and_find
count_and_join before p page page_size w =
    let (total, rows) =
      count_and_find (λ (row : Incident). w.place row.id) before p w.db.incidents page page_size in
    (total, map (list_row w.db.users) rows)

unfoldable pub count_and_find_page :
    Search
    → (updated : Incident → ℕ) → Actor
    → IncidentListFilters
    → (page page_size : ℕ) → OrderBy
    → Exec (ℕ × List IncidentListRow)
unfolding count_and_join build_where
count_and_find_page search updated actor filters page page_size order_by = gets (
    count_and_join (by_column (column_of updated order_by.field) order_by.direction)
      (build_where search actor filters) page page_size)

unfoldable pub find_mine_page : Actor → (page page_size : ℕ) → Exec (ℕ × List IncidentListRow)
unfolding count_and_join mine_where
find_mine_page actor page page_size = gets (count_and_join newest (mine_where actor) page page_size)

unfoldable pub find_triage_queue_page :
    Actor → (page page_size : ℕ) → Exec (ℕ × List IncidentListRow)
unfolding count_and_join triage_queue_where
find_triage_queue_page actor page page_size =
    gets (count_and_join queue_before (triage_queue_where actor) page page_size)

unfoldable pub find_my_investigations_page :
    Actor → (page page_size : ℕ) → Exec (ℕ × List IncidentListRow)
unfolding count_and_join my_investigations_where
find_my_investigations_page actor page page_size =
    gets (count_and_join newest (my_investigations_where actor) page page_size)

unfoldable pub find_closures_pending_page :
    (updated : Incident → ℕ) → Actor → (page page_size : ℕ) → Exec (ℕ × List IncidentListRow)
unfolding count_and_join closures_pending_where
find_closures_pending_page updated actor page page_size =
    gets (count_and_join (by_column updated asc) (closures_pending_where actor) page page_size)
