-- ===== src/Incidents/Repository.antt =====
-- src/modules/incidents/incident.repository.ts and incident.types.ts, with the CHECK constraints of
-- prisma/migrations that guard the table.
use incident_api.Base.{
  ℕ, ◌+◌, Bool, not, ◌&&◌, ◌||◌, Option, none, some, List, [], ◌∷◌, ◌==◌, leb, is_some, or_else,
  if◌then◌else◌, find_where, has_key, update_where, count_where, same_option,
}
use incident_api.Model.Enums.{Severity, Stage, closed, severity_rank, high_band_rank, same_stage}
use incident_api.Model.Errors.{Constraint, closed_requires_rca, high_severity_clock, violated}
use incident_api.Model.Text.{Text}
use incident_api.Model.Rows.{Actor, User, Incident}
use incident_api.Model.World.{World}
use incident_api.Model.Exec.{Result, ok, err, Exec, gets}
use incident_api.Policy.{visibility_scope, meets_sql_length}

-- `UpdateIncidentStateInput`: an absent field leaves its column as it is. A column that may be
-- null is given an `Option` of its own.
pub record UpdateIncidentStateInput : Type 0 where
  pub stage : Option Stage
  pub severity : Option Severity
  pub assigned_investigator_id : Option (Option ℕ)
  pub acknowledged_at : Option (Option ℕ)
  pub acknowledged_by_id : Option (Option ℕ)
  pub high_severity_since : Option (Option ℕ)
  pub escalation_cycle : Option ℕ
  pub current_escalation_level : Option ℕ
  pub root_cause : Option (Option Text)
  pub corrective_action : Option (Option Text)
  pub closure_proposed_by_id : Option (Option ℕ)
  pub closure_proposed_at : Option (Option ℕ)
  pub closed_by_id : Option (Option ℕ)
  pub closed_at : Option (Option ℕ)

abbrev pub no_changes : UpdateIncidentStateInput
no_changes = record {
  stage = none;
  severity = none;
  assigned_investigator_id = none;
  acknowledged_at = none;
  acknowledged_by_id = none;
  high_severity_since = none;
  escalation_cycle = none;
  current_escalation_level = none;
  root_cause = none;
  corrective_action = none;
  closure_proposed_by_id = none;
  closure_proposed_at = none;
  closed_by_id = none;
  closed_at = none;
}

-- `data: { ...data, version: { increment: 1 } }`.
unfoldable pub apply_update : UpdateIncidentStateInput → Incident → Incident
apply_update u row = record row {
  stage = or_else u.stage row.stage;
  severity = or_else u.severity row.severity;
  assigned_investigator_id = or_else u.assigned_investigator_id row.assigned_investigator_id;
  acknowledged_at = or_else u.acknowledged_at row.acknowledged_at;
  acknowledged_by_id = or_else u.acknowledged_by_id row.acknowledged_by_id;
  high_severity_since = or_else u.high_severity_since row.high_severity_since;
  escalation_cycle = or_else u.escalation_cycle row.escalation_cycle;
  current_escalation_level = or_else u.current_escalation_level row.current_escalation_level;
  root_cause = or_else u.root_cause row.root_cause;
  corrective_action = or_else u.corrective_action row.corrective_action;
  closure_proposed_by_id = or_else u.closure_proposed_by_id row.closure_proposed_by_id;
  closure_proposed_at = or_else u.closure_proposed_at row.closure_proposed_at;
  closed_by_id = or_else u.closed_by_id row.closed_by_id;
  closed_at = or_else u.closed_at row.closed_at;
  version = row.version + 1;
}

abbrev pub is_high_band : Severity → Bool
is_high_band severity = leb high_band_rank (severity_rank severity)

-- The first constraint that a row violates.
unfoldable pub violation : Incident → Option Constraint
violation row =
    if not (same_stage row.stage closed)
      || (meets_sql_length row.root_cause && meets_sql_length row.corrective_action)
    then if not (is_high_band row.severity) || is_some row.high_severity_since
      then none
      else some high_severity_clock
    else some closed_requires_rca

-- The first violation among the rows that an update has written.
unfoldable pub update_violation :
    (Incident → Bool) → (Incident → Incident) → List Incident → Option Constraint
update_violation p f [] = none
update_violation p f (row ∷ rows) =
    let rest = update_violation p f rows in
    if p row then elim (violation (f row)) [ some c ↦ some c | none ↦ rest ] else rest

abbrev pub set_incidents : List Incident → World → World
set_incidents rows w = record w { db = record (w.db) { incidents = rows } }

-- A statement that violates a constraint is refused whole.
abbrev pub unless : Option Constraint → World → Result ℕ × World → Result ℕ × World
unless none w done = done
unless (some c) w done = (err (violated c), w)

-- `incident.updateMany`.
unfoldable pub update_many : (Incident → Bool) → (Incident → Incident) → Exec ℕ
update_many p f w =
    unless (update_violation p f w.db.incidents) w
      (ok (count_where p w.db.incidents), set_incidents (update_where p f w.db.incidents) w)

abbrev pub has_version : (id expected : ℕ) → Incident → Bool
has_version id expected row = row.id == id && row.version == expected

unfoldable pub update_versioned : (id expected : ℕ) → UpdateIncidentStateInput → Exec ℕ
unfolding update_many
update_versioned id expected changes = update_many (has_version id expected) (apply_update changes)

-- The row that the mutations read: `TRIAGE_ROW_INCLUDE` joins the assignee.
pub record TriageIncidentRow : Type 0 where
  pub incident : Incident
  pub assignee : Option User

abbrev pub find_user : Option ℕ → List User → Option User
find_user none users = none
find_user (some id) users = find_where (λ (u : User). u.id == id) users

-- `where: { id, ...visibilityScope(actor) }`.
abbrev pub is_scoped : (id : ℕ) → Actor → Incident → Bool
is_scoped id actor row = row.id == id && visibility_scope actor row

unfoldable pub find_by_id_scoped : (id : ℕ) → Actor → Exec (Option Incident)
find_by_id_scoped id actor = gets (λ w. find_where (is_scoped id actor) w.db.incidents)

abbrev pub with_assignee : List User → Option Incident → Option TriageIncidentRow
with_assignee users none = none
with_assignee users (some row) =
    some (record { incident = row; assignee = find_user row.assigned_investigator_id users })

unfoldable pub find_triage_row_scoped : (id : ℕ) → Actor → Exec (Option TriageIncidentRow)
find_triage_row_scoped id actor =
    gets (λ w. with_assignee w.db.users (find_where (is_scoped id actor) w.db.incidents))

unfoldable pub exists_by_id : (id : ℕ) → Exec Bool
exists_by_id id = gets (λ w. is_some (find_where (λ (row : Incident). row.id == id) w.db.incidents))

-- `AssignedIncidentRow`s of one user, without the closed ones.
abbrev pub is_assigned_non_closed : (user_id : ℕ) → Incident → Bool
is_assigned_non_closed user_id row =
    same_option row.assigned_investigator_id (some user_id) && not (same_stage row.stage closed)

abbrev pub incident_id : Incident → ℕ
incident_id row = row.id

-- The row with an id, whoever asks.
abbrev pub incident_at : (id : ℕ) → List Incident → Option Incident
incident_at id rows = find_where (has_key incident_id id) rows
