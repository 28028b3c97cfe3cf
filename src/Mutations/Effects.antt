-- ===== src/Mutations/Effects.antt =====
-- What a mutation of src/modules/triage or src/modules/closure does to the tables.
use incident_api.Base.{
  ℕ, ◌≡◌, ◌≢◌, refl, ap, ◌∙◌, ◌⊎◌, inl, inr, true, Option, none, some, List, ◌++◌, arith, ◌==◌,
  Unique, find_and_test, find_of_count, find-update_self, find-update_other, update_where,
}
use incident_api.Model.Errors.{Thrown}
use incident_api.Model.Rows.{Actor, User, Incident}
use incident_api.Model.World.{World, Db}
use incident_api.Model.Exec.{ok, err}
use incident_api.Policy.{visibility_scope}
use incident_api.Audit.Record.{stamp}
use incident_api.Incidents.Repository.{
  TriageIncidentRow, UpdateIncidentStateInput, apply_update, has_version, incident_at, incident_id,
  with_assignee, find_user,
}
use incident_api.Incidents.Access.{scoped, get_by_id-db}
use incident_api.Incidents.Versioned.{Plan}
use incident_api.Incidents.Versioned.Laws.{committed}
use incident_api.Incidents.Versioned.Outcomes.{Written, Refused, mutate_outcome}
use incident_api.Mutations.{Mutation, run, decide, run-mutate}

with_assignee-some :
    (users : List User) (o : Option Incident) (row : TriageIncidentRow)
    → with_assignee users o ≡ some row
    → (o ≡ some row.incident)
      × (row.assignee ≡ find_user row.incident.assigned_investigator_id users)
with_assignee-some users none row h = cc
with_assignee-some users (some i) row h = ground arith

pub apply_update-id :
    (u : UpdateIncidentStateInput) (i : Incident) → incident_id (apply_update u i) ≡ incident_id i
unfolding apply_update
apply_update-id u i = refl

module _ (m : Mutation) (actor : Actor) (id expected : ℕ) (w : World) where
  abbrev pub after : Db
  after = (run m actor id expected w).1.db

  -- One row was at the expected version and is updated as decided; no other row has changed, and
  -- the events decided on were appended.
  pub record Change : Type 0 where
    pub row : TriageIncidentRow
    pub plan : Plan
    pub decides : decide m actor id w row ≡ ok plan
    pub before : incident_at id w.db.incidents ≡ some row.incident
    pub visible : visibility_scope actor row.incident ≡ true
    pub joined : row.assignee ≡ find_user row.incident.assigned_investigator_id w.db.users
    pub current : row.incident.version ≡ expected
    pub now : incident_at id after.incidents ≡ some (apply_update plan.changes row.incident)
    pub others : (j : ℕ) → j ≢ id → incident_at j after.incidents ≡ incident_at j w.db.incidents
    pub recorded : after.audit ≡ w.db.audit ++ stamp w.supply w.drawn plan.events
    pub written :
        after.incidents
        ≡ update_where (has_version id expected) (apply_update plan.changes) w.db.incidents
    pub users : after.users ≡ w.db.users

  pub record Failure : Type 0 where
    pub error : Thrown
    pub fails : (run m actor id expected w).0 ≡ err error
    pub unchanged : after ≡ w.db

  written-Change :
      Unique incident_id w.db.incidents → Written actor id expected (decide m actor id) w → Change
  written-Change u h =
      let (found, joined) = with_assignee-some w.db.users (scoped id actor w) h.row h.loads in
      let (before, visible) =
        find_and_test incident_id id (visibility_scope actor) w.db.incidents h.row.incident found
          u in
      let (x, same, current) =
        find_of_count incident_id id (λ (i : Incident). i.version == expected) w.db.incidents u
          (omega (arith, h.matched)) in
      let e : x ≡ h.row.incident = cc in
      let tables : after ≡ (committed id expected h.plan w).db =
        ap (λ f. (f w).1.db) (run-mutate m actor id expected)
        ∙ ap (λ r. r.1.db) h.result
        ∙ get_by_id-db actor id (committed id expected h.plan w) in
      let update = apply_update h.plan.changes in
      record {
        row = h.row;
        plan = h.plan;
        decides = h.decides;
        before = before;
        visible = visible;
        joined = joined;
        current = ground (arith, e, current);
        now =
            ap (λ (d : Db). incident_at id d.incidents) tables
            ∙ find-update_self incident_id id (λ (i : Incident). i.version == expected) update
                w.db.incidents h.row.incident (apply_update-id h.plan.changes) before
                (rw (← e) current);
        others = λ j n.
            ap (λ (d : Db). incident_at j d.incidents) tables
            ∙ find-update_other incident_id id j (λ (i : Incident). i.version == expected) update
                w.db.incidents (apply_update-id h.plan.changes) n;
        recorded = ap (λ (d : Db). d.audit) tables;
        written = ap (λ (d : Db). d.incidents) tables;
        users = ap (λ (d : Db). d.users) tables;
      }

  refused-Failure : Refused actor id expected (decide m actor id) w → Failure
  refused-Failure r =
      let same = run-mutate m actor id expected in
      record {
        error = r.error;
        fails = ap (λ f. (f w).0) same ∙ r.fails;
        unchanged = ap (λ f. (f w).1.db) same ∙ r.unchanged;
      }

  -- Where incident ids are unique, a mutation either changes exactly the row that it names, as its
  -- decision says, for an actor who may see it and at the version that it expects, and appends the
  -- decided audit events, or fails and leaves the database as it was.
  pub run_outcome : Unique incident_id w.db.incidents → Change ⊎ Failure
  run_outcome u = elim (mutate_outcome actor id expected (decide m actor id) w) [
    | inl h ↦ inl (written-Change u h)
    | inr r ↦ inr (refused-Failure r)
  ]
