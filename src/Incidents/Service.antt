-- ===== src/Incidents/Service.antt =====
-- src/modules/incidents/incident.service.ts: the reads by id.
use incident_api.Base.{ℕ, Bool, Option, none, some, if◌then◌else◌}
use incident_api.Model.Errors.{insufficient_clearance_error, not_found_error, incident_resource}
use incident_api.Model.Rows.{Actor}
use incident_api.Model.Exec.{Exec, pure, throw, gets, ◌>>=◌, ◌>>◌}
use incident_api.Audit.Record.{record_denial}
use incident_api.Incidents.Repository.{
  TriageIncidentRow, find_by_id_scoped, find_triage_row_scoped, exists_by_id,
}
use incident_api.Incidents.Mapper.{IncidentDetail, to_incident_detail}

-- The second query, which only chooses between 403 and 404.
abbrev pub deny : {T : Type 0} → (id : ℕ) → Actor → Bool → Exec T
deny id actor exists =
    if exists
    then (do
      record_denial id actor.id actor.clearance_level
      throw (insufficient_clearance_error id))
    else throw (not_found_error incident_resource id)

abbrev found_or_deny : {T : Type 0} → (id : ℕ) → Actor → Option T → Exec T
found_or_deny id actor (some row) = pure row
found_or_deny id actor none = do exists ← exists_by_id id; deny id actor exists

unfoldable pub load_for_actor_or_throw :
    {T : Type 0} → (id : ℕ) → Actor → ((id : ℕ) → Actor → Exec (Option T)) → Exec T
unfolding exists_by_id record_denial
load_for_actor_or_throw id actor finder = do row ← finder id actor; found_or_deny id actor row

unfoldable pub get_by_id : Actor → (id : ℕ) → Exec IncidentDetail
unfolding load_for_actor_or_throw find_by_id_scoped
get_by_id actor id = do
  incident ← load_for_actor_or_throw id actor find_by_id_scoped
  users ← gets (λ w. w.db.users)
  pure (to_incident_detail users incident actor)

unfoldable pub get_by_id_for_actor : Actor → (id : ℕ) → Exec TriageIncidentRow
unfolding load_for_actor_or_throw find_triage_row_scoped
get_by_id_for_actor actor id = load_for_actor_or_throw id actor find_triage_row_scoped
