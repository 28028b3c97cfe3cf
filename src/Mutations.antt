-- ===== src/Mutations.antt =====
-- The eight mutations of one incident together: those of src/modules/triage/triage.service.ts and
-- of src/modules/closure/closure.service.ts.
pub mod Decisions
pub mod Effects
pub mod Lifecycle
pub mod WellFormed
pub mod Accepts
use incident_api.Base.{ℕ, ◌≡◌, refl}
use incident_api.Model.Enums.{Severity}
use incident_api.Model.Text.{Text}
use incident_api.Model.Rows.{Actor}
use incident_api.Model.World.{World}
use incident_api.Model.Exec.{Result, Exec}
use incident_api.Incidents.Repository.{TriageIncidentRow}
use incident_api.Incidents.Mapper.{IncidentDetail}
use incident_api.Incidents.Versioned.{Plan, mutate}
use incident_api.Triage
use incident_api.Closure

-- A request on one incident, behind its router.
pub data Mutation : Type 0 where
  move_to_triage : Mutation
  set_severity : Severity → (reason : Text) → Mutation
  assign : (investigator_id : ℕ) → Mutation
  unassign : Mutation
  confirm : Mutation
  propose_closure : (root_cause corrective_action : Text) → Mutation
  approve_closure : Mutation
  reject_closure : (reason : Text) → Mutation

unfoldable pub run : Mutation → Actor → (id expected : ℕ) → Exec IncidentDetail
run move_to_triage actor id expected = Triage.triage_incident actor id expected
run (set_severity severity reason) actor id expected =
    Triage.change_severity actor id severity reason expected
run (assign investigator_id) actor id expected =
    Triage.assign_investigator actor id investigator_id expected
run unassign actor id expected = Triage.unassign_investigator actor id expected
run confirm actor id expected = Triage.acknowledge actor id expected
run (propose_closure root_cause corrective_action) actor id expected =
    Closure.propose actor id root_cause corrective_action expected
run approve_closure actor id expected = Closure.approve actor id expected
run (reject_closure reason) actor id expected = Closure.reject actor id reason expected

-- The decision inside each.
unfoldable pub decide : Mutation → Actor → (id : ℕ) → World → TriageIncidentRow → Result Plan
decide move_to_triage actor id w row = Triage.decide_triage actor id w.clock row
decide (set_severity severity reason) actor id w row =
    Triage.decide_severity actor id w.clock severity reason row
decide (assign investigator_id) actor id w row =
    Triage.decide_assignment actor id w.clock investigator_id w.db.users row
decide unassign actor id w row = Triage.decide_unassignment actor id w.clock row
decide confirm actor id w row = Triage.decide_acknowledgement actor id w.clock row
decide (propose_closure root_cause corrective_action) actor id w row =
    Closure.decide_proposal actor id w.clock root_cause corrective_action row
decide approve_closure actor id w row = Closure.decide_approval actor id w.clock row
decide (reject_closure reason) actor id w row = Closure.decide_rejection actor id w.clock reason row

pub run-mutate :
    (m : Mutation) (actor : Actor) (id expected : ℕ)
    → run m actor id expected ≡ mutate actor id expected (decide m actor id)
unfolding run decide Triage.triage_incident Triage.change_severity Triage.assign_investigator
    Triage.unassign_investigator Triage.acknowledge Closure.propose Closure.approve Closure.reject
run-mutate move_to_triage actor id expected = refl
run-mutate (set_severity severity reason) actor id expected = refl
run-mutate (assign investigator_id) actor id expected = refl
run-mutate unassign actor id expected = refl
run-mutate confirm actor id expected = refl
run-mutate (propose_closure root_cause corrective_action) actor id expected = refl
run-mutate approve_closure actor id expected = refl
run-mutate (reject_closure reason) actor id expected = refl
