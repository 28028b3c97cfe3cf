-- ===== src/Model/Enums.antt =====
-- src/contracts/enums.ts and the ranks of src/config/constants.ts.
use mathlib.Core.Logic.{◌↔◌}
use incident_api.Base.{ℕ, ◌≡◌, Bool, true, List, [], ◌∷◌, ◌==◌, arith}

pub data Role : Type 0 where
  reporter triage_manager investigator admin : Role

pub data Severity : Type 0 where
  low medium high critical : Severity

pub data Stage : Type 0 where
  reported triage investigation pending_closure closed : Stage

pub data IncidentType : Type 0 where
  safety security environmental operational data_privacy equipment other : IncidentType

pub data AuditEventType : Type 0 where
  incident_created stage_changed severity_changed investigator_assigned : AuditEventType
  investigator_unassigned incident_acknowledged note_added closure_proposed : AuditEventType
  closure_approved closure_rejected incident_escalated access_denied : AuditEventType
  user_clearance_changed user_role_changed : AuditEventType

-- `SeverityValues`, in rank order.
abbrev pub severity_values : List Severity
severity_values = low ∷ medium ∷ high ∷ critical ∷ []

abbrev pub stage_values : List Stage
stage_values = reported ∷ triage ∷ investigation ∷ pending_closure ∷ closed ∷ []

-- `SEVERITY_RANK` and `HIGH_BAND_RANK`.
abbrev pub severity_rank : Severity → ℕ
severity_rank low = 1
severity_rank medium = 2
severity_rank high = 3
severity_rank critical = 4

abbrev pub high_band_rank : ℕ
high_band_rank = 3

-- `===` on the enumerations compares places in the lists above.
abbrev pub stage_place : Stage → ℕ
stage_place reported = 0
stage_place triage = 1
stage_place investigation = 2
stage_place pending_closure = 3
stage_place closed = 4

abbrev pub role_place : Role → ℕ
role_place reporter = 0
role_place triage_manager = 1
role_place investigator = 2
role_place admin = 3

abbrev pub same_severity : Severity → Severity → Bool
same_severity a b = severity_rank a == severity_rank b

abbrev pub same_stage : Stage → Stage → Bool
same_stage a b = stage_place a == stage_place b

abbrev pub same_role : Role → Role → Bool
same_role a b = role_place a == role_place b

pub same_stage_iff : (a b : Stage) → (same_stage a b ≡ true) ↔ (a ≡ b)
same_stage_iff a b = ground arith

pub same_severity_iff : (a b : Severity) → (same_severity a b ≡ true) ↔ (a ≡ b)
same_severity_iff a b = ground arith

pub same_role_iff : (a b : Role) → (same_role a b ≡ true) ↔ (a ≡ b)
same_role_iff a b = ground arith

abbrev pub audit_event_place : AuditEventType → ℕ
audit_event_place incident_created = 0
audit_event_place stage_changed = 1
audit_event_place severity_changed = 2
audit_event_place investigator_assigned = 3
audit_event_place investigator_unassigned = 4
audit_event_place incident_acknowledged = 5
audit_event_place note_added = 6
audit_event_place closure_proposed = 7
audit_event_place closure_approved = 8
audit_event_place closure_rejected = 9
audit_event_place incident_escalated = 10
audit_event_place access_denied = 11
audit_event_place user_clearance_changed = 12
audit_event_place user_role_changed = 13

abbrev pub same_event_type : AuditEventType → AuditEventType → Bool
same_event_type a b = audit_event_place a == audit_event_place b
