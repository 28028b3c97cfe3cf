-- ===== src/Model/Rows.antt =====
-- The tables of prisma/schema.prisma, a record for each row type.
-- An id is an opaque key that the program compares and that the database orders: a number, its
-- place in that order. A `Date` is its number of milliseconds. Columns that no modelled code reads
-- are left out: `updatedAt` of every table, `createdAt`, `userAgent` and `ipAddress` of a refresh
-- token, the id of a tier, `channel` of a notification, `jobName` and `error` of a job run.
use incident_api.Base.{ℕ, Bool, Option}
use incident_api.Model.Enums.{Role, Severity, Stage, IncidentType, AuditEventType}
use incident_api.Model.Text.{Text}

pub record User : Type 0 where
  pub id : ℕ
  pub email : Text
  pub password_hash : Text
  pub display_name : Text
  pub role : Role
  pub clearance_level : ℕ
  pub is_active : Bool
  pub created_at : ℕ

-- src/types/actor.type.ts
pub record Actor : Type 0 where
  pub id : ℕ
  pub role : Role
  pub clearance_level : ℕ
  pub session_id : Option ℕ

pub record Incident : Type 0 where
  pub id : ℕ
  pub reference : Text
  pub type : IncidentType
  pub severity : Severity
  pub stage : Stage
  pub title : Text
  pub description : Text
  pub image_path : Option Text
  pub no_image_reason : Option Text
  pub reporter_id : ℕ
  pub assigned_investigator_id : Option ℕ
  pub acknowledged_by_id : Option ℕ
  pub acknowledged_at : Option ℕ
  pub high_severity_since : Option ℕ
  pub escalation_cycle : ℕ
  pub current_escalation_level : ℕ
  pub last_escalated_at : Option ℕ
  pub root_cause : Option Text
  pub corrective_action : Option Text
  pub closure_proposed_by_id : Option ℕ
  pub closure_proposed_at : Option ℕ
  pub closed_by_id : Option ℕ
  pub closed_at : Option ℕ
  pub version : ℕ
  pub created_at : ℕ

pub record InvestigationNote : Type 0 where
  pub id : ℕ
  pub incident_id : ℕ
  pub author_id : ℕ
  pub body : Text
  pub created_at : ℕ

-- `fromValue` and `toValue` are one string column for all event types: what is printed into it.
pub data AuditValue : Type 0 where
  severity_value : Severity → AuditValue
  stage_value : Stage → AuditValue
  role_value : Role → AuditValue
  user_value : (id : ℕ) → AuditValue
  number_value : ℕ → AuditValue

-- `reason`: a fixed code of the program, or what a user typed.
pub data AuditReason : Type 0 where
  clearance_below_new_severity reassigned manual : AuditReason
  admin_clearance_lowered clearance : AuditReason
  typed : Text → AuditReason

pub data AuditPayload : Type 0 where
  created_payload : IncidentType → Stage → AuditPayload
  note_payload : (note_id size : ℕ) → AuditPayload
  closure_payload : (root_cause_length corrective_action_length : ℕ) → AuditPayload
  escalation_payload : (cycle level event_id : ℕ) → AuditPayload
  denial_payload : (clearance_level : ℕ) → AuditPayload
  target_payload : (user_id : ℕ) → (display_name : Text) → AuditPayload

-- `CreateAuditEventInput` of src/modules/audit/audit.types.ts.
pub record AuditInput : Type 0 where
  pub incident_id : Option ℕ
  pub actor_id : Option ℕ
  pub type : AuditEventType
  pub from_value : Option AuditValue
  pub to_value : Option AuditValue
  pub reason : Option AuditReason
  pub payload : Option AuditPayload
  pub occurred_at : ℕ

-- A row of `AuditEvent`: an input with its id.
pub record AuditEvent : Type 0 where
  pub id : ℕ
  pub event : AuditInput

pub record EscalationTier : Type 0 where
  pub severity : Severity
  pub level : ℕ
  pub threshold_minutes : ℕ
  pub is_active : Bool
  pub updated_by_id : Option ℕ

pub record EscalationEvent : Type 0 where
  pub id : ℕ
  pub incident_id : ℕ
  pub cycle : ℕ
  pub level : ℕ
  pub severity_at_escalation : Severity
  pub due_at : ℕ
  pub triggered_at : ℕ

pub record Notification : Type 0 where
  pub id : ℕ
  pub escalation_event_id : ℕ
  pub recipient_id : ℕ
  pub read_at : Option ℕ
  pub created_at : ℕ

pub record RefreshToken : Type 0 where
  pub id : ℕ
  pub user_id : ℕ
  pub session_id : ℕ
  pub token_hash : Text
  pub expires_at : ℕ
  pub revoked_at : Option ℕ
  pub replaced_by_id : Option ℕ

-- `outcome` of a job run.
pub data Outcome : Type 0 where
  completed skipped_locked failed : Outcome

pub record JobRun : Type 0 where
  pub id : ℕ
  pub started_at : ℕ
  pub finished_at : Option ℕ
  pub outcome : Option Outcome
  pub scanned : ℕ
  pub escalated : ℕ
  pub notified : ℕ

-- The one row of `JobLease`, for the job "escalation".
pub record JobLease : Type 0 where
  pub owner_run_id : Option ℕ
  pub held_until : Option ℕ
