-- ===== src/Mutations/Accepts/Offered.antt =====
-- The actions that src/modules/incidents/incident.mapper.ts offers, and the mutations behind them.
use incident_api.Base.{
  ℕ, ◌≤◌, ◌≡◌, ◌⊎◌, inl, inr, Bool-cases, refl, ap, ◌∙◌, Bool, true, false, ◌&&◌, none, some, arith,
  is_some,
}
use incident_api.Model.Enums.{closed, severity_rank, same_stage}
use incident_api.Model.Errors.{Thrown, violated, closed_requires_rca, error_middleware}
use incident_api.Model.Rows.{Actor, Incident}
use incident_api.Model.World.{World}
use incident_api.Model.Exec.{Result, ok, err}
use incident_api.Policy.{meets_sql_length}
use incident_api.Incidents.Repository.{is_high_band, violation, incident_at, apply_update}
use incident_api.Incidents.Mapper.{IncidentActions, compute_actions, to_incident_detail}
use incident_api.Incidents.Versioned.{Plan}
use incident_api.Incidents.Versioned.Laws.{committed}
use incident_api.Incidents.Versioned.Outcomes.{mutate_violated}
use incident_api.Mutations.{
  Mutation, move_to_triage, confirm, propose_closure, approve_closure, run, decide, run-mutate,
}
use incident_api.Triage.{decide_triage, decide_acknowledgement}
use incident_api.Closure.{decide_proposal, decide_approval}
use incident_api.Mutations.WellFormed.{WellFormed}
use incident_api.Mutations.WellFormed.Keeps.{decide-clock}
use incident_api.Mutations.Accepts.{joined, loads, refusal-violation, run_accepts}

shapes : Unit {0}
unfolding decide decide_triage decide_acknowledgement decide_proposal decide_approval apply_update
shapes = tt

-- The mutations that the detail offers by a flag of their own, whose outcome no other table decides.
abbrev pub offers : Mutation → IncidentActions → Bool
offers move_to_triage a = a.can_triage
offers confirm a = a.can_acknowledge
offers (propose_closure _ _) a = a.can_propose_closure
offers _ a = false

ok_of_not_err : {A : Type 0} (r : Result A) → ((e : Thrown) → r ≡ err e → ⊥) → (a : A) × (r ≡ ok a)
ok_of_not_err (ok a) h = (a, refl)
ok_of_not_err (err e) h = absurd (h e refl)

violation_open :
    (i : Incident)
    → same_stage i.stage closed ≡ false
    → is_some i.high_severity_since ≡ is_high_band i.severity
    → violation i ≡ none
unfolding violation
violation_open i open_stage clock = ground arith

violation_closed :
    (i : Incident)
    → (meets_sql_length i.root_cause && meets_sql_length i.corrective_action) ≡ true
    → is_some i.high_severity_since ≡ is_high_band i.severity
    → violation i ≡ none
unfolding violation
violation_closed i gates clock = ground arith

violation_rca :
    (i : Incident)
    → i.stage ≡ closed
    → (meets_sql_length i.root_cause && meets_sql_length i.corrective_action) ≡ false
    → violation i ≡ some closed_requires_rca
unfolding violation
violation_rca i ends gates = ground arith

module _ (actor : Actor) (id : ℕ) (w : World) (well : WellFormed w.db) (row : Incident)
    (here : incident_at id w.db.incidents ≡ some row)
    (visible : severity_rank row.severity ≤ actor.clearance_level) where
  -- A mutation that is carried out when it is asked for at the current version.
  abbrev pub Accepted : Mutation → Type 0
  Accepted m =
      (plan : Plan) × (decide m actor id w (joined w row) ≡ ok plan)
      × (run m actor id row.version w ≡ (
        ok (to_incident_detail w.db.users (apply_update plan.changes row) actor),
        committed id row.version plan w,
      ))

  accepted :
      (m : Mutation)
      → ((e : Thrown) → decide m actor id w (joined w row) ≡ err e → ⊥)
      → ((plan : Plan)
          → decide m actor id w (joined w row) ≡ ok plan
          → (same_stage (apply_update plan.changes row).stage closed ≡ false)
            × ((apply_update plan.changes row).severity ≡ row.severity))
      → Accepted m
  accepted m never keeps =
      let (plan, decides) = ok_of_not_err (decide m actor id w (joined w row)) never in
      let (open_stage, same) = keeps plan decides in
      let clock =
        decide-clock actor id w (joined w row) plan m decides (well.rows id row here).clock in
      (
        plan,
        decides,
        run_accepts m actor id w well row here visible plan decides
            (violation_open (apply_update plan.changes row) open_stage clock) (rw same visible),
      )

  -- In a well-formed database, a request at the current version for a triage, an acknowledgement or
  -- a closure proposal that the incident's detail offers to an actor cleared for its severity is
  -- granted: it writes the row as decided and returns the detail of the row that it wrote.
  pub actions_granted : (m : Mutation) → offers m (compute_actions actor row) ≡ true → Accepted m
  unfolding compute_actions shapes
  actions_granted move_to_triage h =
      accepted move_to_triage (λ e d. ground arith) (λ plan d. ground arith)
  actions_granted confirm h = accepted confirm (λ e d. ground arith) (λ plan d. ground arith)
  actions_granted (propose_closure root_cause corrective_action) h =
      accepted (propose_closure root_cause corrective_action) (λ e d. ground arith)
        (λ plan d. ground arith)
  actions_granted _ h = cc

  -- What an approval finds in the row: it passes the service's gate, and closes it.
  approval :
      (compute_actions actor row).can_approve_closure ≡ true
      → (plan : Plan) × (decide approve_closure actor id w (joined w row) ≡ ok plan)
        × ((apply_update plan.changes row).stage ≡ closed)
        × ((apply_update plan.changes row).severity ≡ row.severity)
        × ((apply_update plan.changes row).root_cause ≡ row.root_cause)
        × ((apply_update plan.changes row).corrective_action ≡ row.corrective_action)
  unfolding compute_actions shapes
  approval h =
      let (plan, decides) =
        ok_of_not_err (decide approve_closure actor id w (joined w row)) (λ e d. ground arith) in
      (plan, decides, ground arith, ground arith, ground arith, ground arith)

  approval_granted :
      (compute_actions actor row).can_approve_closure ≡ true
      → (meets_sql_length row.root_cause && meets_sql_length row.corrective_action) ≡ true
      → Accepted approve_closure
  approval_granted h g =
      let (plan, decides, ends, same, root, action) = approval h in
      let clock =
        decide-clock actor id w (joined w row) plan approve_closure decides
          (well.rows id row here).clock in
      (
        plan,
        decides,
        run_accepts approve_closure actor id w well row here visible plan decides
            (violation_closed (apply_update plan.changes row) (rw (root, action) g) clock)
            (rw same visible),
      )

  approval_violated :
      (compute_actions actor row).can_approve_closure ≡ true
      → (meets_sql_length row.root_cause && meets_sql_length row.corrective_action) ≡ false
      → run approve_closure actor id row.version w ≡ (err (violated closed_requires_rca), w)
  approval_violated h g =
      let (plan, decides, ends, same, root, action) = approval h in
      ap (λ f. f w) (run-mutate approve_closure actor id row.version)
      ∙ mutate_violated actor id row.version (decide approve_closure actor id) w (joined w row) plan
          (loads approve_closure actor id w well row here visible) decides closed_requires_rca
          (refusal-violation approve_closure actor id w well row here visible plan decides
            ∙ violation_rca (apply_update plan.changes row) ends (rw (root, action) g))

  -- In a well-formed database, an approval at the current version that the incident's detail offers
  -- to an actor cleared for its severity is granted if root cause and corrective action also pass
  -- the database's constraint, and is otherwise answered with 500, the world unchanged.
  pub approval_outcome :
      (compute_actions actor row).can_approve_closure ≡ true
      → (((meets_sql_length row.root_cause && meets_sql_length row.corrective_action) ≡ true)
          × Accepted approve_closure)
        ⊎ (((meets_sql_length row.root_cause && meets_sql_length row.corrective_action) ≡ false)
            × (run approve_closure actor id row.version w ≡ (err (violated closed_requires_rca), w))
            × ((error_middleware (violated closed_requires_rca)).status ≡ 500))
  unfolding error_middleware
  approval_outcome h =
      elim (Bool-cases
        (meets_sql_length row.root_cause && meets_sql_length row.corrective_action)) [
          | inl g ↦ inl (g, approval_granted h g)
          | inr g ↦ inr (g, approval_violated h g, refl)
        ]
