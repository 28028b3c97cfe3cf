-- ===== src/Model/World.antt =====
-- The state that the program works on: the database, and what lives beside it in the process.
use incident_api.Base.{ℕ, List}
use incident_api.Model.Rows.{
  User, Incident, InvestigationNote, AuditEvent, EscalationTier, EscalationEvent, Notification,
  RefreshToken, JobRun, JobLease,
}

pub record Db : Type 0 where
  pub users : List User
  pub incidents : List Incident
  pub notes : List InvestigationNote
  pub audit : List AuditEvent
  pub tiers : List EscalationTier
  pub events : List EscalationEvent
  pub notifications : List Notification
  pub tokens : List RefreshToken
  pub job_runs : List JobRun
  pub lease : JobLease

-- A call of `recordDenial` whose insert has not run yet: it is not awaited.
pub record Denial : Type 0 where
  pub incident_id : ℕ
  pub actor_id : ℕ
  pub clearance_level : ℕ
  pub at_time : ℕ

-- `clock` is the time that `new Date()` reads; it moves between requests and not within one.
-- `sequence` is the last value that `incident_reference_seq` gave; a rollback keeps it.
-- `supply` are the ids that `createId` of @paralleldrive/cuid2 gives, call by call, and `drawn` is
-- the number of calls made.
-- `place` says where the row with an id stands among those that the ORDER BY of a paged query leaves
-- equal: the database promises no order of these, and may choose another for each query.
pub record World : Type 0 where
  pub db : Db
  pub clock : ℕ
  pub sequence : ℕ
  pub supply : ℕ → ℕ
  pub drawn : ℕ
  pub pending : List Denial
  pub place : ℕ → ℕ
