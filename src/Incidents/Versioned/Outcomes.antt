-- ===== src/Incidents/Versioned/Outcomes.antt =====
-- The ways in which a mutation of src/modules/triage or src/modules/closure ends.
use incident_api.Base.{
  ℕ, ◌≡◌, refl, ap, ◌⊎◌, ◌≢◌, inl, inr, true, none, some, Bool-cases, Option-cases,
}
use native.Mathlib.Decide.{ℕ_discrete}
use incident_api.Audit.Record.{record_denial}
use incident_api.Model.Errors.{
  Thrown, Constraint, app, violated, stale_version_error, insufficient_clearance_error,
}
use incident_api.Model.Rows.{Actor}
use incident_api.Model.World.{World}
use incident_api.Model.Exec.{Result, ok, err, transaction_err}
use incident_api.Incidents.Repository.{TriageIncidentRow}
use incident_api.Incidents.Service.{get_by_id}
use incident_api.Incidents.Access.{loaded, exists, denial_error, get_by_id_for_actor-some}
use incident_api.Incidents.Versioned.{Plan, commit, mutate}
use incident_api.Incidents.Versioned.Laws.{
  committed, matches, refusal, commit_ok, commit_stale, commit_violated,
}

module _ (actor : Actor) (id expected : ℕ) (decide : World → TriageIncidentRow → Result Plan)
    (w : World) where
  -- The mutation was written: what was read, what was decided, and that one row was at the expected
  -- version.
  pub record Written : Type 0 where
    pub row : TriageIncidentRow
    pub plan : Plan
    pub loads : loaded id actor w ≡ some row
    pub decides : decide w row ≡ ok plan
    pub allowed : refusal id expected plan.changes w ≡ none
    pub matched : matches id expected w ≡ 1
    pub result :
        mutate actor id expected decide w ≡ get_by_id actor id (committed id expected plan w)

  -- The mutation failed and no table has changed.
  pub record Refused : Type 0 where
    pub error : Thrown
    pub fails : (mutate actor id expected decide w).0 ≡ err error
    pub unchanged : (mutate actor id expected decide w).1.db ≡ w.db

  pub mutate_denied :
      loaded id actor w ≡ none
      → ((mutate actor id expected decide w).0 ≡ err (app (denial_error id w)))
        × ((mutate actor id expected decide w).1.db ≡ w.db)
  unfolding mutate record_denial
  mutate_denied h = elim (Bool-cases (exists id w)) [
    | inl e ↦ rw (h, e) (refl, refl)
    | inr e ↦ rw (h, e) (refl, refl)
  ]

  pub mutate_forbidden :
      loaded id actor w ≡ none
      → exists id w ≡ true
      → mutate actor id expected decide w ≡ (
        err (app (insufficient_clearance_error id)),
        (record_denial id actor.id actor.clearance_level w).1,
      )
  unfolding mutate record_denial
  mutate_forbidden h e = rw (h, e)

  pub mutate_undecided :
      (row : TriageIncidentRow) (e : Thrown)
      → loaded id actor w ≡ some row
      → decide w row ≡ err e
      → mutate actor id expected decide w ≡ (err e, w)
  unfolding mutate
  mutate_undecided row e h d = rw (get_by_id_for_actor-some actor id w row h) (rw d)

  module _ (row : TriageIncidentRow) (plan : Plan) (loads : loaded id actor w ≡ some row)
      (decides : decide w row ≡ ok plan) where
    pub mutate_violated :
        (c : Constraint)
        → refusal id expected plan.changes w ≡ some c
        → mutate actor id expected decide w ≡ (err (violated c), w)
    unfolding mutate
    mutate_violated c h =
        rw (get_by_id_for_actor-some actor id w row loads)
          (rw decides (rw (commit_violated id expected plan w c h)))

    pub mutate_written :
        refusal id expected plan.changes w ≡ none
        → matches id expected w ≡ 1
        → mutate actor id expected decide w ≡ get_by_id actor id (committed id expected plan w)
    unfolding mutate
    mutate_written allowed matched =
        rw (get_by_id_for_actor-some actor id w row loads)
          (rw decides (rw (commit_ok id expected plan w allowed matched)))

    pub mutate_stale :
        refusal id expected plan.changes w ≡ none
        → matches id expected w ≢ 1
        → ((mutate actor id expected decide w).0 ≡ err (app (stale_version_error expected)))
          × ((mutate actor id expected decide w).1.db ≡ w.db)
    unfolding mutate
    mutate_stale allowed other =
        let stale = commit_stale id expected plan w allowed other in
        rw (get_by_id_for_actor-some actor id w row loads)
          (rw decides (rw (transaction_err (commit id expected plan) w _ stale) (refl, refl)))

  -- There is no other way.
  pub mutate_outcome : Written ⊎ Refused
  mutate_outcome = elim (Option-cases (loaded id actor w)) [
    | inl h ↦
        let (fails, unchanged) = mutate_denied h in
        inr (record { error = _; fails = fails; unchanged = unchanged })
    | inr (row, loads) ↦ decided row loads (decide w row) refl
  ]
    where
      written :
          (row : TriageIncidentRow) (plan : Plan)
          → loaded id actor w ≡ some row
          → decide w row ≡ ok plan
          → refusal id expected plan.changes w ≡ none
          → Written ⊎ Refused
      written row plan loads decides allowed = elim (ℕ_discrete (matches id expected w) 1) [
        | yes one ↦ inl (record {
          row = row;
          plan = plan;
          loads = loads;
          decides = decides;
          allowed = allowed;
          matched = one;
          result = mutate_written row plan loads decides allowed one;
        })
        | no other ↦
            let (fails, unchanged) = mutate_stale row plan loads decides allowed other in
            inr (record { error = _; fails = fails; unchanged = unchanged })
      ]

      decided :
          (row : TriageIncidentRow)
          → loaded id actor w ≡ some row
          → (r : Result Plan) → decide w row ≡ r
          → Written ⊎ Refused
      decided row loads (err e) d =
          let gone = mutate_undecided row e loads d in
          inr (record { error = e; fails = ap (λ r. r.0) gone; unchanged = ap (λ r. r.1.db) gone })
      decided row loads (ok plan) d = elim (Option-cases (refusal id expected plan.changes w)) [
        | inl allowed ↦ written row plan loads d allowed
        | inr (c, h) ↦
            let gone = mutate_violated row plan loads d c h in
            inr (record {
              error = violated c;
              fails = ap (λ r. r.0) gone;
              unchanged = ap (λ r. r.1.db) gone;
            })
      ]
