-- ===== src/Mutations/Lifecycle.antt =====
-- The life of an incident under src/modules/triage and src/modules/closure: the optimistic lock, the
-- clearance gate, the stages.
use mathlib.Core.Path.{subst, subst₂}
use mathlib.Core.List.{append-nil}
use incident_api.Base.{
  ℕ, ◌+◌, ◌<◌, ◌≡◌, ◌≢◌, refl, ap, ◌∙◌, ◌⊎◌, inl, inr, true, none, some, List, [], ◌∷◌, ◌++◌, arith,
  if◌then◌else◌, Unique, Option-cases, find_and_test,
}
use native.Mathlib.Decide.{ℕ_discrete}
use incident_api.Model.Enums.{Stage, closed, severity_rank, same_stage, same_stage_iff}
use incident_api.Model.Errors.{app, insufficient_clearance_error}
use incident_api.Model.Rows.{Actor, Incident, AuditInput, stage_value}
use incident_api.Model.World.{World, Db}
use incident_api.Model.Exec.{err}
use incident_api.Policy.{can_transition, visibility_scope}
use incident_api.Policy.Visibility.{visibility_scope-eq}
use incident_api.Audit.Record.{stamp, record_denial}
use incident_api.Incidents.Repository.{
  incident_at, incident_id, apply_update, UpdateIncidentStateInput,
}
use incident_api.Incidents.Access.{scoped}
use incident_api.Incidents.Versioned.Outcomes.{mutate_forbidden}
use incident_api.Mutations.{Mutation, run, decide, run-mutate}
use incident_api.Mutations.Decisions.{
  decide_closed, decide_stage, decide_stage_events, stage_moves, stage_after,
}
use incident_api.Mutations.Effects.{after, Failure, run_outcome}

apply_update-version :
    (c : UpdateIncidentStateInput) (i : Incident) → (apply_update c i).version ≡ i.version + 1
unfolding apply_update
apply_update-version c i = refl

scoped_hidden :
    (id : ℕ) (actor : Actor) (w : World)
    → Unique incident_id w.db.incidents
    → (row : Incident) → incident_at id w.db.incidents ≡ some row
    → actor.clearance_level < severity_rank row.severity
    → scoped id actor w ≡ none
scoped_hidden id actor w u row here low = elim (Option-cases (scoped id actor w)) [
  | inl e ↦ e
  | inr (r, e) ↦
      let (found, visible) =
        find_and_test incident_id id (visibility_scope actor) w.db.incidents r e u in
      let same : r ≡ row = ground (arith, found, here) in
      absurd (ground (arith, same, visible, visibility_scope-eq actor row))
]

module _ (m : Mutation) (actor : Actor) (id expected : ℕ) (w : World)
    (u : Unique incident_id w.db.incidents) where
  -- Where incident ids are unique, a mutation that expects another version than the row has fails
  -- and leaves the database as it was.
  pub run_stale :
      (row : Incident)
      → incident_at id w.db.incidents ≡ some row
      → row.version ≢ expected
      → Failure m actor id expected w
  run_stale row here other = elim (run_outcome m actor id expected w u) [
    | inl c ↦ absurd (other (ground (arith, c.before, c.current)))
    | inr f ↦ f
  ]

  -- Where incident ids are unique, no mutation changes a closed incident, whichever incident it
  -- names.
  pub run_closed :
      (j : ℕ) (row : Incident)
      → incident_at j w.db.incidents ≡ some row
      → row.stage ≡ closed
      → incident_at j (after m actor id expected w).incidents ≡ some row
  run_closed j row here ends = elim (run_outcome m actor id expected w u) [
    | inr f ↦ ap (λ (d : Db). incident_at j d.incidents) f.unchanged ∙ here
    | inl c ↦ elim (ℕ_discrete j id) [
      | no n ↦ c.others j n ∙ here
      | yes e ↦
          absurd
            (decide_closed m actor id w c.row c.plan (ground (arith, c.before, here, e)) c.decides)
    ]
  ]

  -- What a mutation may do to the incident `j`, which was `row` before.
  pub record Moved (j : ℕ) (row : Incident) : Type 0 where
    pub row' : Incident
    pub there : incident_at j (after m actor id expected w).incidents ≡ some row'
    pub follows : (row'.stage ≡ row.stage) ⊎ (can_transition row.stage row'.stage ≡ true)
    pub counts : (row' ≡ row) ⊎ (row'.version ≡ row.version + 1)

  -- Where incident ids are unique, after a mutation every incident is still there, its stage is
  -- unchanged or has followed the stage map, and the row is unchanged or its version has grown by
  -- one.
  pub run_moves : (j : ℕ) (row : Incident) → incident_at j w.db.incidents ≡ some row → Moved j row
  run_moves j row here = elim (run_outcome m actor id expected w u) [
    | inr f ↦ record {
      row' = row;
      there = ap (λ (d : Db). incident_at j d.incidents) f.unchanged ∙ here;
      follows = inl refl;
      counts = inl refl;
    }
    | inl c ↦ elim (ℕ_discrete j id) [
      | no n ↦ record {
        row' = row;
        there = c.others j n ∙ here;
        follows = inl refl;
        counts = inl refl;
      }
      | yes e ↦
          let same : c.row.incident ≡ row = ground (arith, c.before, here, e) in
          record {
            row' = apply_update c.plan.changes c.row.incident;
            there = rw e c.now;
            follows =
                subst
                  (λ (r : Incident).
                    (stage_after c.plan c.row ≡ r.stage)
                    ⊎ (can_transition r.stage (stage_after c.plan c.row) ≡ true))
                  same (decide_stage m actor id w c.row c.plan c.decides);
            counts = inr (
                subst
                  (λ (r : Incident).
                    (apply_update c.plan.changes c.row.incident).version ≡ r.version + 1)
                  same (apply_update-version c.plan.changes c.row.incident));
          }
    ]
  ]

  -- The stage changes that a list of events records are the one that took place, if any did.
  abbrev pub Records : List AuditInput → Stage → Stage → Type 0
  Records events source target = stage_moves events ≡ (
      if same_stage source target
      then []
      else (some (stage_value source), some (stage_value target)) ∷ [])

  -- Where incident ids are unique, the audit events that a mutation appends record a change of the
  -- stage of the incident that it names exactly if it took place, once and with the stages before
  -- and after.
  pub run-Records :
      (row row' : Incident)
      → incident_at id w.db.incidents ≡ some row
      → incident_at id (after m actor id expected w).incidents ≡ some row'
      → (events : List AuditInput) × ((after m actor id expected w).audit
          ≡ w.db.audit ++ stamp w.supply w.drawn events)
        × Records events row.stage row'.stage
  run-Records row row' here there = elim (run_outcome m actor id expected w u) [
    | inr f ↦
        let same : row' ≡ row =
          ground (arith, ap (λ (d : Db). incident_at id d.incidents) f.unchanged, here, there) in
        (
          [],
          rw append-nil (ap (λ (d : Db). d.audit) f.unchanged),
          rw same (ground (arith, same_stage_iff row.stage row.stage)),
        )
    | inl c ↦
        let same : c.row.incident ≡ row = ground (arith, c.before, here) in
        let same' : apply_update c.plan.changes c.row.incident ≡ row' =
          ground (arith, c.now, there) in
        (
          c.plan.events,
          c.recorded,
          subst₂ (λ (r : Incident) (r' : Incident). Records c.plan.events r.stage r'.stage) same
              same' (decide_stage_events m actor id w c.row c.plan c.decides),
        )
  ]

  -- Where incident ids are unique, a mutation by an actor whose clearance is below the severity of
  -- the incident fails with INSUFFICIENT_CLEARANCE, and all that it leaves is one denial to be
  -- recorded.
  pub run_forbidden :
      (row : Incident)
      → incident_at id w.db.incidents ≡ some row
      → actor.clearance_level < severity_rank row.severity
      → run m actor id expected w ≡ (
        err (app (insufficient_clearance_error id)),
        (record_denial id actor.id actor.clearance_level w).1,
      )
  run_forbidden row here low =
      ap (λ f. f w) (run-mutate m actor id expected)
      ∙ mutate_forbidden actor id expected (decide m actor id) w
          (rw (scoped_hidden id actor w u row here low)) (rw here)
