-- ===== src/Triage/Overwrites.antt =====
-- The transaction of `changeSeverity` (src/modules/triage/triage.service.ts) on a row that the
-- escalation job has written since it was read. A batch raises a level without a new version.
use incident_api.Base.{
  ℕ, ◌≡◌, refl, ◌∙◌, Bool, true, false, none, some, arith, ◌==◌, Unique, find-update_self,
  count_of_find, ==_refl,
}
use incident_api.Model.Enums.{Severity}
use incident_api.Model.Text.{Text}
use incident_api.Model.Rows.{Actor, Incident}
use incident_api.Model.World.{World}
use incident_api.Model.Exec.{ok}
use incident_api.Incidents.Repository.{
  TriageIncidentRow, apply_update, violation, incident_at, incident_id, is_high_band,
}
use incident_api.Incidents.Versioned.{Plan, commit}
use incident_api.Incidents.Versioned.Laws.{commit_ok}
use incident_api.Incidents.Versioned.Checks.{update_violation_at}
use incident_api.Triage.{decide_severity}
use incident_api.Triage.Clock.{restarts}

written_level :
    (actor : Actor) (id at : ℕ) (severity : Severity) (reason : Text) (read : TriageIncidentRow)
    (plan : Plan) (current : Incident)
    → decide_severity actor id at severity reason read ≡ ok plan
    → restarts read.incident.severity severity ≡ false
    → is_high_band severity ≡ true
    → (apply_update plan.changes current).current_escalation_level
      ≡ read.incident.current_escalation_level
unfolding decide_severity apply_update
written_level actor id at severity reason read plan current decides lowers band = ground arith

apply_update-same_id :
    (plan : Plan) (i : Incident) → incident_id (apply_update plan.changes i) ≡ incident_id i
unfolding apply_update
apply_update-same_id plan i = refl

module _ (actor : Actor) (id at : ℕ) (severity : Severity) (reason : Text)
    (read : TriageIncidentRow) (plan : Plan) (v : World) (current : Incident) where
  -- Where incident ids are unique, a change of severity to one of the high band that restarts no
  -- clock, decided on a row read earlier, commits over a row of the same version, if the row that it
  -- writes violates no constraint, and writes the escalation level that was read, whatever level the
  -- row has reached since.
  pub severity_overwrites :
      decide_severity actor id at severity reason read ≡ ok plan
      → restarts read.incident.severity severity ≡ false
      → is_high_band severity ≡ true
      → Unique incident_id v.db.incidents
      → incident_at id v.db.incidents ≡ some current
      → current.version ≡ read.incident.version
      → violation (apply_update plan.changes current) ≡ none
      → ((commit id read.incident.version plan v).0 ≡ ok tt)
        × ((row : Incident) × (incident_at id
                (commit id read.incident.version plan v).1.db.incidents
              ≡ some row)
            × (row.current_escalation_level ≡ read.incident.current_escalation_level))
  severity_overwrites decides lowers band unique here same clean =
      let expected = read.incident.version in
      let q : Incident → Bool = λ i. i.version == expected in
      let passes : q current ≡ true = rw same (==_refl expected) in
      let done =
        commit_ok id expected plan v
          (update_violation_at id expected (apply_update plan.changes) v.db.incidents current unique
              here same
            ∙ clean)
          (count_of_find incident_id id q v.db.incidents current unique here passes) in
      let updated =
        find-update_self incident_id id q (apply_update plan.changes) v.db.incidents current
          (apply_update-same_id plan) here passes in
      rw done (
        refl,
        (
          apply_update plan.changes current,
          updated,
          written_level actor id at severity reason read plan current decides lowers band,
        ),
      )
