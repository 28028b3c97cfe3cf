-- ===== src/Mutations/WellFormed.antt =====
-- The invariants of the table of incidents, of which prisma/migrations has two as constraints.
pub mod Keeps
use incident_api.Base.{
  ℕ, ◌≡◌, Bool, true, false, not, ◌||◌, Option, none, some, List, leb, is_some, Unique,
}
use incident_api.Model.Enums.{Severity, closed, severity_rank, same_stage}
use incident_api.Model.Rows.{User, Incident}
use incident_api.Model.World.{Db}
use incident_api.Policy.{has_closure_requirements}
use incident_api.Incidents.Repository.{is_high_band, find_user, incident_at, incident_id}

-- The clearance of an assignee that is there.
abbrev pub cleared : Option User → Severity → Bool
cleared none severity = false
cleared (some u) severity = leb (severity_rank severity) u.clearance_level

abbrev pub assignee_cleared : List User → Option ℕ → Severity → Bool
assignee_cleared users none severity = true
assignee_cleared users (some id) severity = cleared (find_user (some id) users) severity

pub record RowOk (users : List User) (row : Incident) : Type 0 where
  -- The escalation clock runs exactly in the high band.
  pub clock : is_some row.high_severity_since ≡ is_high_band row.severity
  -- A closed incident has its root cause and its corrective action.
  pub documented : (not (same_stage row.stage closed) || has_closure_requirements row) ≡ true
  -- The assignee of an open incident is a user whose clearance covers its severity.
  pub covered :
      (same_stage row.stage closed
        || assignee_cleared users row.assigned_investigator_id row.severity)
      ≡ true

pub record WellFormed (db : Db) : Type 0 where
  pub unique : Unique incident_id db.incidents
  pub rows : (id : ℕ) (row : Incident) → incident_at id db.incidents ≡ some row → RowOk db.users row
