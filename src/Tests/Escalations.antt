-- ===== src/Tests/Escalations.antt =====
-- The escalation job at concrete tiers, leases and candidates.
use incident_api.Base.{◌+◌, ◌≡◌, refl, arith, true, some, List, [], ◌∷◌, Any, inl, inr}
use incident_api.Model.Enums.{high}
use incident_api.Model.World.{World}
use incident_api.Model.Exec.{ok}
use incident_api.Escalation.Tiers.{Tier, DueTier, EscalationCandidate, due_tier}
use incident_api.Escalation.Tiers.Due.{due, Reached, tiers_due_complete}
use incident_api.Escalation.Lease.{claim_lease, Others, here, next, claims, waits, lease_exclusive}
use incident_api.Escalation.Batch.{Due, Recipients, has_event, escalate_one, escalate_batch}
use incident_api.Escalation.Batch.Once.{escalate_again}
use incident_api.Escalation.Batch.Effect.{Checked}
use incident_api.Escalation.Batch.Effect.Steps.{Does, escalate_batch_effect}
use incident_api.Escalation.Job.{RunResult, run_escalation_job}
use incident_api.Escalation.Job.Finishes.{run_escalation_job_returns}
use incident_api.Incidents.Repository.{violation, update_violation}
use incident_api.Policy.{meets_sql_length}
use incident_api.Tests.Fixtures.{long_text, start}

abbrev pub candidate : EscalationCandidate
candidate = record {
  id = 11;
  severity = high;
  high_severity_since = 1000;
  escalation_cycle = 1;
  current_escalation_level = 0;
}

abbrev first_tier : Tier
first_tier = record { severity = high; level = 1; threshold_minutes = 30 }

abbrev pub tiers : List Tier
tiers = record { severity = high; level = 2; threshold_minutes = 60 } ∷ first_tier ∷ []

first_tier-Reached : Reached candidate 3601000 first_tier
first_tier-Reached = record { severity = refl; above = omega arith; elapsed = omega arith }

tiers_due_complete_example :
    Any (λ (d : DueTier). d ≡ due_tier first_tier) (due candidate tiers 3601000)
tiers_due_complete_example =
    tiers_due_complete candidate tiers 3601000 first_tier (inr (inl (refl, first_tier-Reached)))

abbrev leased : World
leased = record (start long_text) {
  db = record ((start long_text).db) {
    lease = record { owner_run_id = some 7; held_until = some 4000000 };
  };
}

abbrev interrupted : World
interrupted = record ((claim_lease 300000 true leased).1) {
  clock = (claim_lease 300000 true leased).1.clock + 1000;
}

others : Others 300000 7 leased interrupted
others = next (next here (claims true leased)) (waits 1000 (claim_lease 300000 true leased).1)

lease_exclusive_example :
    interrupted.db.lease ≡ record { owner_run_id = some 7; held_until = some 4000000 }
unfolding claim_lease
lease_exclusive_example = lease_exclusive 300000 4000000 others refl (omega arith)

abbrev task : Due
task = record { candidate = candidate; tier = due_tier first_tier }

abbrev recipients : Recipients
recipients = record { of_high = 1 ∷ 3 ∷ []; of_critical = 1 ∷ 3 ∷ [] }

abbrev escalated : World
escalated = record (start long_text) {
  db = record ((start long_text).db) {
    events =
        record {
          id = 90;
          incident_id = 11;
          cycle = 1;
          level = 1;
          severity_at_escalation = high;
          due_at = 1801000;
          triggered_at = 2000000;
        }
        ∷ [];
  };
}

escalate_again_example :
    ((escalate_one recipients 3601000 task escalated).0
      ≡ ok (record { escalated = 0; notified = 0 }))
    × ((escalate_one recipients 3601000 task escalated).1.db ≡ escalated.db)
unfolding has_event
escalate_again_example = escalate_again recipients 3601000 task escalated refl

start-Checked : Checked (start long_text).db
unfolding violation meets_sql_length
start-Checked = record { constraints = (refl, (refl, (refl, (refl, tt)))); keys = tt }

escalate_batch_effect_example :
    Does (escalate_batch recipients 3601000 (task ∷ [])) (start long_text)
escalate_batch_effect_example =
    escalate_batch_effect recipients 3601000 (task ∷ []) (start long_text) start-Checked

-- One escalation, two recipients.
batch_run :
    (escalate_batch recipients 3601000 (task ∷ task ∷ []) (start long_text)).0
    ≡ ok (record { escalated = 1; notified = 2 })
unfolding escalate_batch has_event update_violation violation
batch_run = refl

run_escalation_job_returns_example :
    (r : RunResult) × (w' : World) × (run_escalation_job 1 300000 true (start long_text)
      ≡ (some (ok r), w'))
run_escalation_job_returns_example =
    run_escalation_job_returns 1 300000 true (start long_text) start-Checked
