-- ===== src/Incidents/Versioned/Laws.antt =====
-- The transactions of src/modules/triage and src/modules/closure: what a commit writes, and what a
-- refused one leaves.
use incident_api.Base.{
  ℕ, ◌≡◌, ◌≢◌, false, Option, none, some, arith, ◌==◌, count_where, update_where,
}
use incident_api.Model.Errors.{Constraint, app, violated, stale_version_error}
use incident_api.Model.World.{World}
use incident_api.Model.Exec.{ok, err}
use incident_api.Audit.Record.{record_events_lem, with_events}
use incident_api.Incidents.Repository.{
  UpdateIncidentStateInput, apply_update, set_incidents, update_violation, has_version,
  update_versioned,
}
use incident_api.Incidents.Versioned.{Plan, commit}

-- The world after a plan is committed.
abbrev pub committed : (id expected : ℕ) → Plan → World → World
committed id expected plan w = with_events plan.events (
    set_incidents
      (update_where (has_version id expected) (apply_update plan.changes) w.db.incidents) w)

abbrev pub matches : (id expected : ℕ) → World → ℕ
matches id expected w = count_where (has_version id expected) w.db.incidents

-- `none` when the database lets the write pass.
abbrev pub refusal : (id expected : ℕ) → UpdateIncidentStateInput → World → Option Constraint
refusal id expected u w = update_violation (has_version id expected) (apply_update u) w.db.incidents

pub update_versioned-violated :
    (id expected : ℕ) (u : UpdateIncidentStateInput) (w : World) (c : Constraint)
    → refusal id expected u w ≡ some c
    → update_versioned id expected u w ≡ (err (violated c), w)
unfolding update_versioned
update_versioned-violated id expected u w c h = rw h

pub update_versioned-allowed :
    (id expected : ℕ) (u : UpdateIncidentStateInput) (w : World)
    → refusal id expected u w ≡ none
    → update_versioned id expected u w ≡ (
      ok (matches id expected w),
      set_incidents (update_where (has_version id expected) (apply_update u) w.db.incidents) w,
    )
unfolding update_versioned
update_versioned-allowed id expected u w h = rw h

-- A commit whose write is allowed and matches one row.
pub commit_ok :
    (id expected : ℕ) (plan : Plan) (w : World)
    → refusal id expected plan.changes w ≡ none
    → matches id expected w ≡ 1
    → commit id expected plan w ≡ (ok tt, committed id expected plan w)
unfolding commit
commit_ok id expected plan w allowed one =
    rw (update_versioned-allowed id expected plan.changes w allowed)
      (rw one (record_events_lem plan.events _))

-- A commit that does not match exactly one row.
pub commit_stale :
    (id expected : ℕ) (plan : Plan) (w : World)
    → refusal id expected plan.changes w ≡ none
    → matches id expected w ≢ 1
    → (commit id expected plan w).0 ≡ err (app (stale_version_error expected))
unfolding commit
commit_stale id expected plan w allowed other =
    let e : (matches id expected w == 1) ≡ false = ground arith in
    rw (update_versioned-allowed id expected plan.changes w allowed) (rw e)

pub commit_violated :
    (id expected : ℕ) (plan : Plan) (w : World) (c : Constraint)
    → refusal id expected plan.changes w ≡ some c
    → commit id expected plan w ≡ (err (violated c), w)
unfolding commit
commit_violated id expected plan w c h =
    rw (update_versioned-violated id expected plan.changes w c h)
