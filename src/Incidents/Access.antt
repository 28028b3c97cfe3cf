-- ===== src/Incidents/Access.antt =====
-- The clearance gate in front of the reads by id, `loadForActorOrThrow` of
-- src/modules/incidents/incident.service.ts.
use incident_api.Base.{
  ℕ, ◌≡◌, refl, Bool, Option, none, some, find_where, is_some, Option-cases, Bool-cases, inl, inr,
  ◌==◌, if◌then◌else◌,
}
use incident_api.Model.Errors.{
  AppError, app, insufficient_clearance_error, not_found_error, incident_resource,
}
use incident_api.Model.Rows.{Actor, Incident}
use incident_api.Model.World.{World}
use incident_api.Model.Exec.{Result, ok, err}
use incident_api.Audit.Record.{record_denial}
use incident_api.Incidents.Repository.{TriageIncidentRow, is_scoped, with_assignee}
use incident_api.Incidents.Mapper.{to_incident_detail}
use incident_api.Incidents.Service.{deny, get_by_id, get_by_id_for_actor}

-- The row that an actor may see.
abbrev pub scoped : (id : ℕ) → Actor → World → Option Incident
scoped id actor w = find_where (is_scoped id actor) w.db.incidents

abbrev pub loaded : (id : ℕ) → Actor → World → Option TriageIncidentRow
loaded id actor w = with_assignee w.db.users (scoped id actor w)

abbrev pub exists : (id : ℕ) → World → Bool
exists id w = is_some (find_where (λ (row : Incident). row.id == id) w.db.incidents)

-- The refusal that a reader gets: 403 with a denial left to record, or 404.
abbrev pub denied : {T : Type 0} → (id : ℕ) → Actor → World → Result T × World
denied id actor w = deny id actor (exists id w) w

abbrev pub denial_error : (id : ℕ) → World → AppError
denial_error id w =
    if exists id w then insufficient_clearance_error id else not_found_error incident_resource id

-- The program's denial changes no table.
pub denied_lem :
    {T : Type 0} (id : ℕ) (actor : Actor) (w : World)
    → ((denied {T = T} id actor w).0 ≡ err (app (denial_error id w)))
      × ((denied {T = T} id actor w).1.db ≡ w.db)
unfolding record_denial
denied_lem id actor w = elim (Bool-cases (exists id w)) [
  | inl e ↦ rw e (refl, refl)
  | inr e ↦ rw e (refl, refl)
]

pub get_by_id_for_actor-some :
    (actor : Actor) (id : ℕ) (w : World) (row : TriageIncidentRow)
    → loaded id actor w ≡ some row
    → get_by_id_for_actor actor id w ≡ (ok row, w)
unfolding get_by_id_for_actor
get_by_id_for_actor-some actor id w row h = rw h

pub get_by_id_for_actor-none :
    (actor : Actor) (id : ℕ) (w : World)
    → loaded id actor w ≡ none
    → get_by_id_for_actor actor id w ≡ denied id actor w
unfolding get_by_id_for_actor
get_by_id_for_actor-none actor id w h = rw h

-- A read that returns is of a row in scope.
pub get_by_id-some :
    (actor : Actor) (id : ℕ) (w : World) (row : Incident)
    → scoped id actor w ≡ some row
    → get_by_id actor id w ≡ (ok (to_incident_detail w.db.users row actor), w)
unfolding get_by_id
get_by_id-some actor id w row h = rw h

pub get_by_id-none :
    (actor : Actor) (id : ℕ) (w : World)
    → scoped id actor w ≡ none
    → ((get_by_id actor id w).0 ≡ err (app (denial_error id w)))
      × ((get_by_id actor id w).1.db ≡ w.db)
unfolding get_by_id record_denial
get_by_id-none actor id w h = elim (Bool-cases (exists id w)) [
  | inl e ↦ rw (h, e) (refl, refl)
  | inr e ↦ rw (h, e) (refl, refl)
]

-- A read by id changes no table.
pub get_by_id-db : (actor : Actor) (id : ℕ) (w : World) → (get_by_id actor id w).1.db ≡ w.db
get_by_id-db actor id w = elim (Option-cases (scoped id actor w)) [
  | inl h ↦ (get_by_id-none actor id w h).1
  | inr (row, h) ↦ rw (get_by_id-some actor id w row h)
]
