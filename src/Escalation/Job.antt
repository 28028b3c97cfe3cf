-- ===== src/Escalation/Job.antt =====
-- `runEscalationJob` of src/jobs/escalation.job.ts and src/jobs/jobRun.repository.ts: the scan in
-- batches by key, between the claim and the release of the lease.
pub mod Finishes
use incident_api.Base.{
  ℕ, zero, suc, ◌+◌, Bool, true, false, not, ◌&&◌, ◌||◌, Option, none, some, List, [], ◌∷◌, ◌++◌,
  map, leb, ltb, ◌==◌, length, take, filter, is_some, is_none, sort_by, update_where, if◌then◌else◌,
}
use incident_api.Model.Enums.{
  Severity, high, critical, closed, triage_manager, admin, severity_rank, same_stage, same_role,
}
use incident_api.Model.Errors.{Thrown}
use incident_api.Model.Rows.{User, Incident, JobRun, Outcome, completed, skipped_locked, failed}
use incident_api.Model.World.{World, Db}
use incident_api.Model.Exec.{Result, ok, err, Exec, new_id, pure, transaction}
use incident_api.Incidents.Repository.{is_high_band}
use incident_api.Escalation.Tiers.{Tier, EscalationCandidate, tiers_due_for, active_tiers}
use incident_api.Escalation.Lease.{claim_lease, renew_lease, release_lease}
use incident_api.Escalation.Batch.{Due, Recipients, Counts, escalate_batch}

-- `recipientsFor`.
abbrev pub is_recipient : Severity → User → Bool
is_recipient severity u =
    u.is_active
    && (same_role u.role triage_manager || same_role u.role admin)
    && leb (severity_rank severity) u.clearance_level

unfoldable pub recipients_for : Severity → List User → List ℕ
recipients_for severity users = map (λ (u : User). u.id) (filter (is_recipient severity) users)

-- `highSeveritySince as Date`: the scan reads rows where it is there.
abbrev pub since_of : Incident → ℕ
since_of i = elim i.high_severity_since [ none ↦ 0 | some t ↦ t ]

pub record Cursor : Type 0 where
  pub since : ℕ
  pub id : ℕ

abbrev pub cursor_of : Incident → Cursor
cursor_of i = record { since = since_of i; id = i.id }

unfoldable pub after_cursor : Option Cursor → Incident → Bool
after_cursor none i = true
after_cursor (some c) i = ltb c.since (since_of i) || (since_of i == c.since && ltb c.id i.id)

abbrev pub is_open_candidate : Incident → Bool
is_open_candidate i =
    is_none i.acknowledged_at
    && not (same_stage i.stage closed)
    && is_high_band i.severity
    && is_some i.high_severity_since

abbrev pub is_scanned : Option Cursor → Incident → Bool
is_scanned c i = is_open_candidate i && after_cursor c i

-- `orderBy: [{ highSeveritySince: 'asc' }, { id: 'asc' }]`.
abbrev pub scan_before : Incident → Incident → Bool
scan_before a b = ltb (since_of a) (since_of b) || (since_of a == since_of b && ltb a.id b.id)

unfoldable pub next_batch : (batch_size : ℕ) → Option Cursor → List Incident → List Incident
unfolding after_cursor
next_batch batch_size c rows = take batch_size (sort_by scan_before (filter (is_scanned c) rows))

abbrev pub candidate_of : Incident → EscalationCandidate
candidate_of i = record {
  id = i.id;
  severity = i.severity;
  high_severity_since = since_of i;
  escalation_cycle = i.escalation_cycle;
  current_escalation_level = i.current_escalation_level;
}

unfoldable pub due_of : List Tier → (now : ℕ) → List Incident → List Due
unfolding tiers_due_for
due_of tiers at [] = []
due_of tiers at (i ∷ batch) =
    map (λ t. record { candidate = candidate_of i; tier = t })
      (tiers_due_for (candidate_of i) tiers at)
    ++ due_of tiers at batch

pub record Totals : Type 0 where
  pub scanned : ℕ
  pub escalated : ℕ
  pub notified : ℕ

abbrev pub no_totals : Totals
no_totals = record { scanned = 0; escalated = 0; notified = 0 }

-- How the loop ends: out of fuel, at its end, or at an error with the counts until then.
pub data Scan : Type 0 where
  exhausted : Scan
  finished : Totals → Scan
  failed_at : Totals → Thrown → Scan

-- `if (due.length > 0)`.
abbrev pub run_batch : Recipients → (now : ℕ) → List Due → Exec Counts
run_batch recipients at [] = pure (record { escalated = 0; notified = 0 })
run_batch recipients at (d ∷ ds) = transaction (escalate_batch recipients at (d ∷ ds))

abbrev pub last_of : Incident → List Incident → Incident
last_of i [] = i
last_of i (j ∷ batch) = last_of j batch

-- `ESCALATION_BATCH_SIZE` and `ESCALATION_LEASE_MS`, and what the run has read before its loop.
module _ (batch_size lease_ms run_id : ℕ) (tiers : List Tier) (recipients : Recipients) where
  -- The rest of the loop.
  abbrev pub Rest : Type 0
  Rest = Option Cursor → Totals → World → Scan × World

  abbrev pub go_on : Rest → Bool → (last : Incident) → Totals → World → Scan × World
  go_on rest true last t w = (finished t, w)
  go_on rest false last t w = rest (some (cursor_of last)) t (renew_lease lease_ms run_id w).1

  abbrev pub after_batch :
      Rest → (first : Incident) → List Incident → Totals → Result Counts × World → Scan × World
  after_batch rest i batch t (err e, w) = (failed_at t e, w)
  after_batch rest i batch t (ok c, w) =
      go_on rest (ltb (length (i ∷ batch)) batch_size) (last_of i batch)
        (record {
          scanned = t.scanned + length (i ∷ batch);
          escalated = t.escalated + c.escalated;
          notified = t.notified + c.notified;
        })
        w

  abbrev pub round : Rest → List Incident → Totals → World → Scan × World
  round rest [] t w = (finished t, w)
  round rest (i ∷ batch) t w =
      after_batch rest i batch t (run_batch recipients w.clock (due_of tiers w.clock (i ∷ batch)) w)

  unfoldable pub scan : (fuel : ℕ) → Rest
  unfolding next_batch due_of escalate_batch renew_lease
  scan zero c t w = (exhausted, w)
  scan (suc n) c t w = round (scan n) (next_batch batch_size c w.db.incidents) t w

-- `jobRunRepository.start` and `finish`.
abbrev pub set_job_runs : List JobRun → World → World
set_job_runs runs w = record w { db = record (w.db) { job_runs = runs } }

unfoldable pub start_run : Exec ℕ
unfolding new_id
start_run w =
    let id = w.supply w.drawn in
    (
      ok id,
      set_job_runs
          (w.db.job_runs
            ++ record {
              id = id;
              started_at = w.clock;
              finished_at = none;
              outcome = none;
              scanned = 0;
              escalated = 0;
              notified = 0;
            }
              ∷ [])
          (record w { drawn = w.drawn + 1 }),
    )

abbrev pub is_open_run : (id : ℕ) → JobRun → Bool
is_open_run id r = r.id == id && is_none r.finished_at

unfoldable pub finish_run : (id : ℕ) → Outcome → Totals → World → World
finish_run id outcome t w =
    set_job_runs
      (update_where (is_open_run id)
        (λ r. record r {
          finished_at = some w.clock;
          outcome = some outcome;
          scanned = t.scanned;
          escalated = t.escalated;
          notified = t.notified;
        })
        w.db.job_runs)
      w

-- `EscalationRunResult`.
pub record RunResult : Type 0 where
  pub outcome : Outcome
  pub totals : Totals

-- The end of the run: `finish`, then the release in `finally`. Nothing is returned out of fuel.
abbrev pub end_run : (lease_ms job_id run_id : ℕ) → Scan × World → Option (Result RunResult) × World
end_run lease_ms job_id run_id (exhausted, w) = (none, w)
end_run lease_ms job_id run_id (finished t, w) = (
  some (ok (record { outcome = completed; totals = t })),
  (release_lease lease_ms run_id (finish_run job_id completed t w)).1,
)
end_run lease_ms job_id run_id (failed_at t e, w) =
    (some (err e), (release_lease lease_ms run_id (finish_run job_id failed t w)).1)

abbrev pub with_lease :
    (batch_size lease_ms job_id : ℕ) → Result (Option ℕ) × World → Option (Result RunResult) × World
with_lease batch_size lease_ms job_id (err e, w) = (some (err e), w)
with_lease batch_size lease_ms job_id (ok none, w) = (
  some (ok (record { outcome = skipped_locked; totals = no_totals })),
  finish_run job_id skipped_locked no_totals w,
)
with_lease batch_size lease_ms job_id (ok (some run_id), w) = end_run lease_ms job_id run_id (
    scan batch_size lease_ms run_id (active_tiers w.db.tiers)
      (record {
        of_high = recipients_for high w.db.users;
        of_critical = recipients_for critical w.db.users;
      })
      (length w.db.incidents + 1) none no_totals w)

abbrev pub after_start :
    (batch_size lease_ms : ℕ)
    → (locked : Bool) → Result ℕ × World
    → Option (Result RunResult) × World
after_start batch_size lease_ms locked (err e, w) = (some (err e), w)
after_start batch_size lease_ms locked (ok job_id, w) =
    with_lease batch_size lease_ms job_id (claim_lease lease_ms locked w)

unfoldable pub run_escalation_job :
    (batch_size lease_ms : ℕ) → (locked : Bool) → World → Option (Result RunResult) × World
unfolding start_run claim_lease scan finish_run release_lease active_tiers recipients_for
run_escalation_job batch_size lease_ms locked w =
    after_start batch_size lease_ms locked (start_run w)
