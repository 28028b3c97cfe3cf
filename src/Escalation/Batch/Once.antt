-- ===== src/Escalation/Batch/Once.antt =====
-- A repeated attempt at one escalation by `escalateBatch` of src/jobs/escalation.job.ts.
use mathlib.Core.Path.{ap₂}
use incident_api.Base.{
  ℕ, ◌≡◌, refl, ◌∙◌, true, arith, find_where, find_where_test, Option-cases, inl, inr,
}
use incident_api.Model.World.{World}
use incident_api.Model.Exec.{ok}
use incident_api.Escalation.Batch.{Due, Recipients, still_candidate, has_event, escalate_one}

-- Once an event with the key of a due tier in the candidate's cycle exists, an attempt to escalate
-- it again counts nothing and leaves the database as it was.
pub escalate_again :
    (recipients : Recipients) (now : ℕ) (d : Due) (w : World)
    → has_event d.candidate.id d.candidate.escalation_cycle d.tier.level w.db.events ≡ true
    → ((escalate_one recipients now d w).0 ≡ ok (record { escalated = 0; notified = 0 }))
      × ((escalate_one recipients now d w).1.db ≡ w.db)
unfolding escalate_one
escalate_again recipients now d w h =
    elim (Option-cases (find_where (still_candidate d) w.db.incidents)) [
      | inl e ↦ rw e (refl, refl)
      | inr (i, e) ↦
          let t = find_where_test (still_candidate d) w.db.incidents i e in
          let k : has_event i.id i.escalation_cycle d.tier.level w.db.events ≡ true =
            ap₂ (λ (x : ℕ) (c : ℕ). has_event x c d.tier.level w.db.events) (ground (arith, t))
              (ground (arith, t))
            ∙ h in
          rw (e, k) (refl, refl)
    ]
