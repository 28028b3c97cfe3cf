-- ===== src/Mutations/Accepts.antt =====
-- The mutations of src/modules/triage and src/modules/closure at the current version of a row.
pub mod Offered
use incident_api.Base.{
  ℕ, ◌≤◌, ◌≡◌, ◌⊎◌, inl, inr, Bool-cases, refl, ap, ◌∙◌, Bool, true, false, ◌&&◌, none, some, arith,
  ◌==◌, is_some, find_both, find-update_self, count_of_find, ==_refl, le→leb,
}
use incident_api.Model.Enums.{closed, severity_rank, same_stage}
use incident_api.Model.Errors.{Thrown, violated, closed_requires_rca, error_middleware}
use incident_api.Model.Rows.{Actor, Incident}
use incident_api.Model.World.{World}
use incident_api.Model.Exec.{Result, ok, err}
use incident_api.Policy.{visibility_scope, meets_sql_length}
use incident_api.Policy.Visibility.{visibility_scope-eq}
use incident_api.Incidents.Repository.{
  is_high_band, violation, incident_at, incident_id, TriageIncidentRow, find_user, apply_update,
}
use incident_api.Incidents.Mapper.{IncidentActions, compute_actions, to_incident_detail}
use incident_api.Incidents.Access.{scoped, loaded, get_by_id-some}
use incident_api.Incidents.Versioned.{Plan}
use incident_api.Incidents.Versioned.Laws.{committed, refusal, matches}
use incident_api.Incidents.Versioned.Checks.{update_violation_at}
use incident_api.Incidents.Versioned.Outcomes.{mutate_written, mutate_violated}
use incident_api.Mutations.{
  Mutation, move_to_triage, confirm, propose_closure, approve_closure, run, decide, run-mutate,
}
use incident_api.Triage.{decide_triage, decide_acknowledgement}
use incident_api.Closure.{decide_proposal, decide_approval}
use incident_api.Mutations.Effects.{apply_update-id}
use incident_api.Mutations.WellFormed.{WellFormed}
use incident_api.Mutations.WellFormed.Keeps.{decide-clock}

-- The row with its assignee, as the mutations read it.
abbrev pub joined : World → Incident → TriageIncidentRow
joined w row = record {
  incident = row;
  assignee = find_user row.assigned_investigator_id w.db.users;
}

module _ (m : Mutation) (actor : Actor) (id : ℕ) (w : World) (well : WellFormed w.db)
    (row : Incident) (here : incident_at id w.db.incidents ≡ some row)
    (visible : severity_rank row.severity ≤ actor.clearance_level) where
  pub loads : loaded id actor w ≡ some (joined w row)
  loads =
      let found : scoped id actor w ≡ some row =
        find_both incident_id id (visibility_scope actor) w.db.incidents row here
          (visibility_scope-eq actor row ∙ le→leb _ _ visible) in
      rw found

  module _ (plan : Plan) (decides : decide m actor id w (joined w row) ≡ ok plan) where
    pub refusal-violation :
        refusal id row.version plan.changes w ≡ violation (apply_update plan.changes row)
    refusal-violation =
        update_violation_at id row.version (apply_update plan.changes) w.db.incidents row
          well.unique here refl

    -- The outcome of a decided mutation at the current version.
    pub run_accepts :
        violation (apply_update plan.changes row) ≡ none
        → severity_rank (apply_update plan.changes row).severity ≤ actor.clearance_level
        → run m actor id row.version w ≡ (
          ok (to_incident_detail w.db.users (apply_update plan.changes row) actor),
          committed id row.version plan w,
        )
    run_accepts clean still =
        let q : Incident → Bool = λ i. i.version == row.version in
        let one : matches id row.version w ≡ 1 =
          count_of_find incident_id id q w.db.incidents row well.unique here
            (==_refl row.version) in
        let updated =
          find-update_self incident_id id q (apply_update plan.changes) w.db.incidents row
            (apply_update-id plan.changes) here (==_refl row.version) in
        let found =
          find_both incident_id id (visibility_scope actor)
            (committed id row.version plan w).db.incidents (apply_update plan.changes row) updated
            (visibility_scope-eq actor (apply_update plan.changes row) ∙ le→leb _ _ still) in
        ap (λ f. f w) (run-mutate m actor id row.version)
        ∙ mutate_written actor id row.version (decide m actor id) w (joined w row) plan loads
            decides (refusal-violation ∙ clean) one
        ∙ get_by_id-some actor id (committed id row.version plan w) (apply_update plan.changes row)
            found
