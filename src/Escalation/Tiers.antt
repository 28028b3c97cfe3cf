-- ===== src/Escalation/Tiers.antt =====
-- `tiersDueFor` of src/jobs/escalation.job.ts and src/modules/escalation/tiers.repository.ts.
pub mod Due
use incident_api.Base.{
  ℕ, ◌+◌, ◌*◌, ◌≤◌, Bool, true, false, ◌&&◌, Option, none, some, List, [], ◌∷◌, map, ltb, leb,
  filter, if◌then◌else◌, sort_by,
}
use incident_api.Model.Enums.{Severity, severity_rank, same_severity}
use incident_api.Model.Rows.{EscalationTier}
use incident_api.Model.World.{World}
use incident_api.Model.Exec.{Exec, gets, modify_db, ok}

-- `Tier` of escalation.types.ts.
pub record Tier : Type 0 where
  pub severity : Severity
  pub level : ℕ
  pub threshold_minutes : ℕ

-- `DueTier` of jobs.types.ts.
pub record DueTier : Type 0 where
  pub level : ℕ
  pub threshold_minutes : ℕ

-- `EscalationCandidate`: a row of the scan, whose clock is running.
pub record EscalationCandidate : Type 0 where
  pub id : ℕ
  pub severity : Severity
  pub high_severity_since : ℕ
  pub escalation_cycle : ℕ
  pub current_escalation_level : ℕ

-- A strictly smaller row moves in front; equal ones stay in their order.
abbrev pub lower_level : Tier → Tier → Bool
lower_level a b = ltb a.level b.level

-- `elapsedMinutes >= t.thresholdMinutes`, multiplied out: the quotient of the source is a real number.
abbrev pub has_elapsed : (since threshold_minutes now : ℕ) → Bool
has_elapsed since threshold_minutes now = leb (since + threshold_minutes * 60000) now

abbrev pub is_due : EscalationCandidate → (now : ℕ) → Tier → Bool
is_due incident now t = has_elapsed incident.high_severity_since t.threshold_minutes now

abbrev pub due_tier : Tier → DueTier
due_tier t = record { level = t.level; threshold_minutes = t.threshold_minutes }

unfoldable pub tiers_due_for : EscalationCandidate → List Tier → (now : ℕ) → List DueTier
tiers_due_for incident tiers now = map due_tier (
    sort_by lower_level (
      filter (is_due incident now) (
        filter (λ t. ltb incident.current_escalation_level t.level)
          (filter (λ t. same_severity t.severity incident.severity) tiers))))

abbrev pub tier_of : EscalationTier → Tier
tier_of row = record {
  severity = row.severity;
  level = row.level;
  threshold_minutes = row.threshold_minutes;
}

-- `orderBy: [{ severity: 'asc' }, { level: 'asc' }]`.
abbrev pub tier_before : EscalationTier → EscalationTier → Bool
tier_before a b =
    if same_severity a.severity b.severity
    then ltb a.level b.level
    else ltb (severity_rank a.severity) (severity_rank b.severity)

unfoldable pub active_tiers : List EscalationTier → List Tier
active_tiers rows =
    map tier_of (sort_by tier_before (filter (λ (r : EscalationTier). r.is_active) rows))

-- Delete all, then create: a tier that is created is active. That no severity and level occurs twice
-- in the request is for its contract (TierSetRequestSchema) to see to.
unfoldable pub replace_tier_set : List Tier → (updated_by_id : ℕ) → Exec (Unit {0})
replace_tier_set tiers updated_by_id = modify_db (λ db. record db {
  tiers =
      map
        (λ (t : Tier). record {
          severity = t.severity;
          level = t.level;
          threshold_minutes = t.threshold_minutes;
          is_active = true;
          updated_by_id = some updated_by_id;
        })
        tiers;
})
