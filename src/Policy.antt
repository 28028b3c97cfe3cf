-- ===== src/Policy.antt =====
-- src/policy: the pure rules of access, assignment, stages, notes and closure. Their laws stand in
-- the modules below.
pub mod Visibility
pub mod Graph
pub mod Gates
use incident_api.Base.{
  ℕ, Bool, true, false, ◌&&◌, ◌||◌, Option, none, some, List, [], ◌∷◌, leb, ltb, if◌then◌else◌,
  filter, any, same_option, length,
}
use incident_api.Model.Enums.{
  Severity, Stage, reported, triage, investigation, pending_closure, closed, admin, severity_values,
  severity_rank, same_severity, same_stage, same_role,
}
use incident_api.Model.Errors.{TransitionReason, invalid_stage_transition_error}
use incident_api.Model.Text.{Text, is_js_space, is_sql_space, trim_by, char_length, is_pair}
use incident_api.Model.Rows.{Actor, Incident}
use incident_api.Model.Exec.{Result, ok, err}
use incident_api.Model.Errors.{app}

-- clearance.policy.ts

-- `severities.includes(s)`.
abbrev pub includes : List Severity → Severity → Bool
includes list s = any (λ t. same_severity t s) list

unfoldable pub visible_severities : ℕ → List Severity
visible_severities clearance = filter (λ s. leb (severity_rank s) clearance) severity_values

abbrev pub can_view_severity : Actor → Severity → Bool
can_view_severity actor severity = leb (severity_rank severity) actor.clearance_level

-- The test that the `where` fragment asks of a row.
unfoldable pub visibility_scope : Actor → Incident → Bool
visibility_scope actor row = includes (visible_severities actor.clearance_level) row.severity

unfoldable pub effective_severities : Actor → Option (List Severity) → List Severity
effective_severities actor none = visible_severities actor.clearance_level
effective_severities actor (some []) = visible_severities actor.clearance_level
effective_severities actor (some (s ∷ more)) =
    filter (λ t. includes (visible_severities actor.clearance_level) t) (s ∷ more)

-- assignment.policy.ts

abbrev pub can_assign_investigator : ℕ → Severity → Bool
can_assign_investigator investigator_clearance severity =
    leb (severity_rank severity) investigator_clearance

abbrev pub must_unassign_on_raise : Option ℕ → Severity → Bool
must_unassign_on_raise none new_severity = false
must_unassign_on_raise (some assignee_clearance) new_severity =
    ltb assignee_clearance (severity_rank new_severity)

-- stage.policy.ts

abbrev pub stage_transitions : Stage → List Stage
stage_transitions reported = triage ∷ []
stage_transitions triage = investigation ∷ []
stage_transitions investigation = pending_closure ∷ triage ∷ []
stage_transitions pending_closure = closed ∷ investigation ∷ []
stage_transitions closed = []

abbrev pub can_transition : Stage → Stage → Bool
can_transition source target = any (λ s. same_stage s target) (stage_transitions source)

abbrev pub assert_transition : Stage → Stage → Option TransitionReason → Result (Unit {0})
assert_transition source target reason =
    if can_transition source target
    then ok tt
    else err (app (invalid_stage_transition_error source target reason))

-- note.policy.ts

abbrev pub can_read_notes : Actor → Incident → Bool
can_read_notes actor incident =
    if can_view_severity actor incident.severity
    then if same_role actor.role admin
      then true
      else same_option incident.assigned_investigator_id (some actor.id)
    else false

abbrev pub can_write_notes : Actor → Incident → Bool
can_write_notes actor incident =
    if can_read_notes actor incident
    then same_stage incident.stage investigation || same_stage incident.stage pending_closure
    else false

-- closure.policy.ts

abbrev pub min_rca_length : ℕ
min_rca_length = 20

-- `!value` is also true of the empty string.
unfoldable pub meets_min_length : Option Text → Bool
unfolding trim_by is_js_space
meets_min_length none = false
meets_min_length (some []) = false
meets_min_length (some (c ∷ s)) = leb min_rca_length (length (trim_by is_js_space (c ∷ s)))

unfoldable pub has_closure_requirements : Incident → Bool
unfolding meets_min_length
has_closure_requirements incident =
    meets_min_length incident.root_cause && meets_min_length incident.corrective_action

-- The constraint `closed_requires_rca` of prisma/migrations, on one text.
unfoldable pub meets_sql_length : Option Text → Bool
unfolding trim_by is_sql_space char_length is_pair
meets_sql_length none = false
meets_sql_length (some s) = leb min_rca_length (char_length (trim_by is_sql_space s))
