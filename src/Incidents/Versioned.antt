-- ===== src/Incidents/Versioned.antt =====
-- What `updateVersioned` does to the table, and the mutations built on it: load through the clearance
-- gate, decide, then one transaction that writes the row and records its events.
-- src/modules/triage/triage.service.ts and src/modules/closure/closure.service.ts share this frame.
pub mod Laws
pub mod Outcomes
pub mod Checks
use incident_api.Base.{ℕ, ◌≡◌, List, ◌==◌}
use incident_api.Model.Errors.{stale_version_error}
use incident_api.Model.Rows.{Actor, AuditInput}
use incident_api.Model.World.{World}
use incident_api.Model.Exec.{Result, Exec, gets, lift, require, transaction, ◌>>=◌, ◌>>◌}
use incident_api.Audit.Record.{record_events}
use incident_api.Incidents.Repository.{
  UpdateIncidentStateInput, TriageIncidentRow, update_versioned,
}
use incident_api.Incidents.Mapper.{IncidentDetail}
use incident_api.Incidents.Service.{get_by_id, get_by_id_for_actor}

-- What a handler has decided before its transaction begins: `data`, and the events to record.
pub record Plan : Type 0 where
  pub changes : UpdateIncidentStateInput
  pub events : List AuditInput

-- The body of each transaction.
unfoldable pub commit : (id expected : ℕ) → Plan → Exec (Unit {0})
unfolding update_versioned record_events
commit id expected plan = do
  count ← update_versioned id expected plan.changes
  require (count == 1) (stale_version_error expected)
  record_events plan.events

-- The whole handler: `getByIdForActor`, the checks, `withTransaction`, `reloadDetail`.
unfoldable pub mutate :
    Actor → (id expected : ℕ) → (World → TriageIncidentRow → Result Plan) → Exec IncidentDetail
unfolding get_by_id get_by_id_for_actor commit
mutate actor id expected decide = do
  row ← get_by_id_for_actor actor id
  w ← gets (λ w. w)
  plan ← lift (decide w row)
  transaction (commit id expected plan)
  get_by_id actor id
