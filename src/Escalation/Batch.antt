-- ===== src/Escalation/Batch.antt =====
-- One batch of the escalation job: `escalateBatch` of src/jobs/escalation.job.ts. The statements of a
-- batch run in one transaction, each on the tables as they are when it runs.
pub mod Once
pub mod Effect
use incident_api.Base.{
  ℕ, ◌+◌, ◌*◌, Bool, true, false, not, ◌&&◌, ◌||◌, Option, none, some, List, [], ◌∷◌, ◌++◌, ◌==◌,
  ltb, is_none, any, find_where, if◌then◌else◌,
}
use incident_api.Model.Enums.{
  Severity, low, medium, high, critical, closed, incident_escalated, same_stage,
}
use incident_api.Model.Rows.{
  Incident, EscalationEvent, Notification, AuditInput, number_value, escalation_payload,
}
use incident_api.Model.World.{World, Db}
use incident_api.Model.Exec.{Result, ok, err, Exec, new_id, pure, modify_db, ◌>>=◌, ◌>>◌}
use incident_api.Audit.Record.{record_event}
use incident_api.Incidents.Repository.{update_many, is_high_band}
use incident_api.Escalation.Tiers.{DueTier, EscalationCandidate}

pub record Due : Type 0 where
  pub candidate : EscalationCandidate
  pub tier : DueTier

-- `recipientsBySeverity`, by user id.
pub record Recipients : Type 0 where
  pub of_high : List ℕ
  pub of_critical : List ℕ

-- `recipientsBySeverity[severity]`. The scan reads rows of the two high severities only; the source
-- has no entry for the others, and no recipients stand for it here.
abbrev pub recipients_of : Recipients → Severity → List ℕ
recipients_of r low = []
recipients_of r medium = []
recipients_of r high = r.of_high
recipients_of r critical = r.of_critical

pub record Counts : Type 0 where
  pub escalated : ℕ
  pub notified : ℕ

-- The `WHERE` of the `INSERT … SELECT`, asked of a row when the statement runs.
abbrev pub still_candidate : Due → Incident → Bool
still_candidate d i =
    i.id == d.candidate.id
    && i.escalation_cycle == d.candidate.escalation_cycle
    && ltb i.current_escalation_level d.tier.level
    && is_none i.acknowledged_at
    && not (same_stage i.stage closed)
    && is_high_band i.severity

-- The unique key of `EscalationEvent`.
abbrev pub has_event_key : (incident_id cycle level : ℕ) → EscalationEvent → Bool
has_event_key incident_id cycle level e =
    e.incident_id == incident_id && e.cycle == cycle && e.level == level

unfoldable pub has_event : (incident_id cycle level : ℕ) → List EscalationEvent → Bool
has_event incident_id cycle level events = any (has_event_key incident_id cycle level) events

abbrev pub due_at : Due → ℕ
due_at d = d.candidate.high_severity_since + d.tier.threshold_minutes * 60000

abbrev pub new_event : (event_id : ℕ) → Due → (now : ℕ) → Incident → EscalationEvent
new_event event_id d now i = record {
  id = event_id;
  incident_id = i.id;
  cycle = i.escalation_cycle;
  level = d.tier.level;
  severity_at_escalation = i.severity;
  due_at = due_at d;
  triggered_at = now;
}

abbrev pub add_event : EscalationEvent → World → World
add_event e w = record w { db = record (w.db) { events = w.db.events ++ e ∷ [] } }

-- `ON CONFLICT DO NOTHING RETURNING "id"`: whether a row came back.
abbrev pub insert_row : (event_id : ℕ) → Due → (now : ℕ) → Option Incident → Exec Bool
insert_row event_id d now none w = (ok false, w)
insert_row event_id d now (some i) w =
    if has_event i.id i.escalation_cycle d.tier.level w.db.events
    then (ok false, w)
    else (ok true, add_event (new_event event_id d now i) w)

unfoldable pub insert_event : (event_id : ℕ) → Due → (now : ℕ) → Exec Bool
insert_event event_id d now w =
    insert_row event_id d now (find_where (still_candidate d) w.db.incidents) w

abbrev pub is_notified : (event_id recipient_id : ℕ) → Notification → Bool
is_notified event_id recipient_id n =
    n.escalation_event_id == event_id && n.recipient_id == recipient_id

abbrev pub add_notification : Notification → World → World
add_notification n w = record w {
  db = record (w.db) { notifications = w.db.notifications ++ n ∷ [] };
}

-- One row of `createMany` with `skipDuplicates`: the number of rows written.
unfoldable pub notify_one : (event_id now recipient_id : ℕ) → Exec ℕ
unfolding new_id
notify_one event_id now recipient_id = do
  id ← new_id
  λ w. if any (is_notified event_id recipient_id) w.db.notifications then (ok 0, w) else (
    ok 1,
    add_notification
        (record {
          id = id;
          escalation_event_id = event_id;
          recipient_id = recipient_id;
          read_at = none;
          created_at = now;
        })
        w,
  )

unfoldable pub notify : (event_id now : ℕ) → List ℕ → Exec ℕ
unfolding notify_one
notify event_id now [] = pure 0
notify event_id now (r ∷ rs) = do
  n ← notify_one event_id now r
  k ← notify event_id now rs
  pure (n + k)

abbrev pub escalated_event : (event_id : ℕ) → Due → (now : ℕ) → AuditInput
escalated_event event_id d now = record {
  incident_id = some d.candidate.id;
  actor_id = none;
  type = incident_escalated;
  from_value = some (number_value d.candidate.current_escalation_level);
  to_value = some (number_value d.tier.level);
  reason = none;
  payload = some (escalation_payload d.candidate.escalation_cycle d.tier.level event_id);
  occurred_at = now;
}

abbrev pub below_level : Due → Incident → Bool
below_level d row = row.id == d.candidate.id && ltb row.current_escalation_level d.tier.level

abbrev pub raise_level : Due → (now : ℕ) → Incident → Incident
raise_level d now row = record row {
  current_escalation_level = d.tier.level;
  last_escalated_at = some now;
}

-- What follows an insert that returned a row.
unfoldable pub announce : Recipients → (now event_id : ℕ) → Due → Exec Counts
unfolding notify record_event update_many
announce recipients now event_id d = do
  notified ← notify event_id now (recipients_of recipients d.candidate.severity)
  record_event (escalated_event event_id d now)
  count ← update_many (below_level d) (raise_level d now)
  pure (record { escalated = 1; notified = notified })

-- `if (inserted.length === 0) continue`.
abbrev pub announce_if : Bool → Recipients → (now event_id : ℕ) → Due → Exec Counts
announce_if true recipients now event_id d = announce recipients now event_id d
announce_if false recipients now event_id d = pure (record { escalated = 0; notified = 0 })

unfoldable pub escalate_one : Recipients → (now : ℕ) → Due → Exec Counts
unfolding new_id insert_event announce
escalate_one recipients now d = do
  event_id ← new_id
  inserted ← insert_event event_id d now
  announce_if inserted recipients now event_id d

unfoldable pub escalate_batch : Recipients → (now : ℕ) → List Due → Exec Counts
unfolding escalate_one
escalate_batch recipients now [] = pure (record { escalated = 0; notified = 0 })
escalate_batch recipients now (d ∷ ds) = do
  a ← escalate_one recipients now d
  b ← escalate_batch recipients now ds
  pure (record { escalated = a.escalated + b.escalated; notified = a.notified + b.notified })
