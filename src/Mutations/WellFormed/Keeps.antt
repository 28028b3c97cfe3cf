-- ===== src/Mutations/WellFormed/Keeps.antt =====
-- The invariants under the mutations of src/modules/triage and src/modules/closure.
use incident_api.Base.{
  ℕ, ◌≡◌, true, not, ◌||◌, some, List, arith, is_some, Unique, find_where_test, Option-cases, ◌==◌,
  inl, inr, update-Unique,
}
use native.Mathlib.Decide.{ℕ_discrete}
use mathlib.Core.Path.{subst, sym}
use incident_api.Model.Enums.{closed, same_stage}
use incident_api.Model.Rows.{Actor, User, Incident}
use incident_api.Model.World.{World}
use incident_api.Model.Exec.{ok}
use incident_api.Policy.{has_closure_requirements}
use incident_api.Incidents.Repository.{
  is_high_band, find_user, incident_at, incident_id, TriageIncidentRow, apply_update, has_version,
}
use incident_api.Incidents.Versioned.{Plan}
use incident_api.Triage.{
  clock_fields, decide_triage, decide_severity, decide_assignment, decide_unassignment,
  decide_acknowledgement,
}
use incident_api.Triage.Clock.{severity_change_clock}
use incident_api.Closure.{decide_proposal, decide_approval, decide_rejection}
use incident_api.Mutations.{Mutation, set_severity, assign, approve_closure, decide}
use incident_api.Mutations.Effects.{apply_update-id, after, Change, run_outcome}
use incident_api.Mutations.WellFormed.{RowOk, WellFormed, assignee_cleared}

shapes : Unit {0}
unfolding decide decide_triage decide_severity decide_assignment decide_unassignment
    decide_acknowledgement decide_proposal decide_approval decide_rejection apply_update
shapes = tt

find_user-id :
    (users : List User) (id : ℕ) (u : User) → find_user (some id) users ≡ some u → u.id ≡ id
find_user-id users id u h = ground (arith, find_where_test (λ (v : User). v.id == id) users u h)

module _ (actor : Actor) (id : ℕ) (w : World) (row : TriageIncidentRow) (plan : Plan) where
  pub decide-clock :
      (m : Mutation)
      → decide m actor id w row ≡ ok plan
      → is_some row.incident.high_severity_since ≡ is_high_band row.incident.severity
      → is_some (apply_update plan.changes row.incident).high_severity_since
        ≡ is_high_band (apply_update plan.changes row.incident).severity
  unfolding shapes
  decide-clock (set_severity severity reason) h k = ground (
    arith,
    severity_change_clock row.incident.severity severity w.clock (clock_fields row.incident),
  )
  decide-clock _ h k = ground arith

  decide-documented :
      (m : Mutation)
      → decide m actor id w row ≡ ok plan
      → (not (same_stage (apply_update plan.changes row.incident).stage closed)
          || has_closure_requirements (apply_update plan.changes row.incident))
        ≡ true
  unfolding shapes
  decide-documented approve_closure h = ground arith
  decide-documented _ h = ground arith

  decide-covered :
      (m : Mutation)
      → decide m actor id w row ≡ ok plan
      → row.assignee ≡ find_user row.incident.assigned_investigator_id w.db.users
      → (same_stage row.incident.stage closed
          || assignee_cleared w.db.users row.incident.assigned_investigator_id
              row.incident.severity)
        ≡ true
      → (same_stage (apply_update plan.changes row.incident).stage closed
          || assignee_cleared w.db.users
              (apply_update plan.changes row.incident).assigned_investigator_id
              (apply_update plan.changes row.incident).severity)
        ≡ true
  unfolding shapes
  decide-covered (assign investigator_id) h j k =
      elim (Option-cases (find_user (some investigator_id) w.db.users)) [
        | inl e ↦ ground arith
        | inr (u, e) ↦ ground (arith, find_user-id w.db.users investigator_id u e)
      ]
  decide-covered (set_severity severity reason) h j k = ground arith
  decide-covered _ h j k = ground arith

module _ (m : Mutation) (actor : Actor) (id expected : ℕ) (w : World)
    (ok_before : WellFormed w.db) where
  rows_after :
      (c : Change m actor id expected w) (j : ℕ) (row : Incident)
      → incident_at j (after m actor id expected w).incidents ≡ some row
      → RowOk w.db.users row
  rows_after c j row there = elim (ℕ_discrete j id) [
    | no n ↦ ok_before.rows j row (ground (arith, c.others j n, there))
    | yes e ↦
        let old = ok_before.rows id c.row.incident c.before in
        let same : apply_update c.plan.changes c.row.incident ≡ row =
          ground (arith, c.now, there, e) in
        subst (RowOk w.db.users) same (record {
          clock = decide-clock actor id w c.row c.plan m c.decides old.clock;
          documented = decide-documented actor id w c.row c.plan m c.decides;
          covered = decide-covered actor id w c.row c.plan m c.decides c.joined old.covered;
        })
  ]

  -- Every mutation, whatever its outcome, keeps the incidents well formed: ids unique, the
  -- escalation clock running exactly in the high band, closed incidents documented, and the assignee
  -- of every open incident cleared for its severity.
  pub run-WellFormed : WellFormed (after m actor id expected w)
  run-WellFormed = elim (run_outcome m actor id expected w ok_before.unique) [
    | inr f ↦ subst WellFormed (sym f.unchanged) ok_before
    | inl c ↦ record {
      unique = subst (Unique incident_id) (sym c.written) (
          update-Unique incident_id (has_version id expected) (apply_update c.plan.changes)
            w.db.incidents (apply_update-id c.plan.changes) ok_before.unique);
      rows = λ j row there.
          subst (λ (users : List User). RowOk users row) (sym c.users) (rows_after c j row there);
    }
  ]
