-- ===== src/Admin.antt =====
-- src/modules/admin/admin.service.ts and admin.repository.ts: the changes of a user's role, clearance
-- and status, with the preview of a change of clearance, and the tiers.
pub mod Cascade
pub mod Frame
pub mod Keeps
pub mod Changes
pub mod LastAdmin
pub mod Preview
pub mod Answers
pub mod Listing
use incident_api.Base.{
  ℕ, ◌+◌, Bool, true, false, not, ◌&&◌, Option, none, some, List, [], ◌∷◌, ◌++◌, map, leb, ltb,
  ◌==◌, length, filter, any, is_some, find_where, update_where, if◌then◌else◌, has_key,
}
use incident_api.Model.Enums.{
  Role, Severity, Stage, triage, investigation, admin, user_role_changed, user_clearance_changed,
  investigator_unassigned, stage_changed, same_role, same_stage,
}
use incident_api.Model.Errors.{
  app, violated, clearance_range, missing_record, self_modification_forbidden_error,
  not_found_error, user_resource, last_admin_error, stale_version_error,
}
use incident_api.Model.Text.{Text}
use incident_api.Model.Rows.{
  User, Actor, Incident, AuditInput, AuditValue, role_value, number_value, user_value, stage_value,
  target_payload, admin_clearance_lowered,
}
use incident_api.Model.World.{World, Db}
use incident_api.Model.Exec.{
  Result, ok, err, Exec, pure, gets, require, or_throw, transaction, now, ◌>>=◌, ◌>>◌,
}
use incident_api.Policy.{must_unassign_on_raise}
use incident_api.Audit.Record.{record_event}
use incident_api.Incidents.Repository.{
  find_user, no_changes, UpdateIncidentStateInput, update_versioned, is_assigned_non_closed,
}
use incident_api.Escalation.Tiers.{Tier, active_tiers, replace_tier_set}

-- The row is answered whole but for its password hash.
pub record AdminUserMutation : Type 0 where
  pub user : User
  pub affected_incident_count : ℕ

abbrev pub user_id : User → ℕ
user_id u = u.id

unfoldable pub assert_not_self : Actor → (target_id : ℕ) → Exec (Unit {0})
assert_not_self actor target_id =
    require (not (actor.id == target_id)) self_modification_forbidden_error

unfoldable pub load_target_or_throw : (target_id : ℕ) → Exec User
load_target_or_throw target_id = do
  user ← gets (λ w. find_user (some target_id) w.db.users)
  or_throw user (not_found_error user_resource target_id)

abbrev pub set_users : List User → World → World
set_users users w = record w { db = record (w.db) { users = users } }

-- `user.update`: a row that is missing throws, and a clearance out of its range does.
abbrev pub written_user : (id : ℕ) → (User → User) → World → Option User → Result User × World
written_user id f w none = (err missing_record, w)
written_user id f w (some u) =
    if leb 1 (f u).clearance_level && leb (f u).clearance_level 4
    then (ok (f u), set_users (update_where (has_key user_id id) f w.db.users) w)
    else (err (violated clearance_range), w)

unfoldable pub update_user : (id : ℕ) → (User → User) → Exec User
update_user id f w = written_user id f w (find_where (has_key user_id id) w.db.users)

abbrev pub set_role : Role → User → User
set_role role u = record u { role = role }

abbrev pub set_clearance : ℕ → User → User
set_clearance level u = record u { clearance_level = level }

abbrev pub set_active : Bool → User → User
set_active active u = record u { is_active = active }

abbrev pub is_active_admin : User → Bool
is_active_admin u = same_role u.role admin && u.is_active

-- `activeAdminIdsForUpdate`.
unfoldable pub active_admin_ids : Exec (List ℕ)
active_admin_ids = gets (λ w. map user_id (filter is_active_admin w.db.users))

abbrev pub is_last : List ℕ → (target_id : ℕ) → Bool
is_last ids target_id = leb (length ids) 1 && any (λ id. id == target_id) ids

-- The locking count, when the change takes an active admin away.
abbrev pub guard_last : Bool → (target_id : ℕ) → Exec (Unit {0})
guard_last false target_id = pure tt
guard_last true target_id = do
  ids ← active_admin_ids
  require (not (is_last ids target_id)) last_admin_error

abbrev pub answer : (affected_incident_count : ℕ) → User → Exec AdminUserMutation
answer n user = pure (record { user = user; affected_incident_count = n })

-- `if (same) return …`.
abbrev pub unchanged_or : Bool → User → Exec AdminUserMutation → Exec AdminUserMutation
unchanged_or true target change = answer 0 target
unchanged_or false target change = change

-- An event about a user.
abbrev pub user_event : Actor → User → (at : ℕ) → AuditInput
user_event actor target at = record {
  incident_id = none;
  actor_id = some actor.id;
  type = user_role_changed;
  from_value = none;
  to_value = none;
  reason = none;
  payload = some (target_payload target.id target.display_name);
  occurred_at = at;
}

abbrev pub role_event : Actor → User → Role → (now : ℕ) → AuditInput
role_event actor target role at = record (user_event actor target at) {
  from_value = some (role_value target.role);
  to_value = some (role_value role);
}

unfoldable pub write_role : Actor → User → Role → (now : ℕ) → Exec User
unfolding update_user record_event active_admin_ids
write_role actor target role at = do
  guard_last (is_active_admin target && not (same_role role admin)) target.id
  result ← update_user target.id (set_role role)
  record_event (role_event actor target role at)
  pure result

unfoldable pub change_role : Actor → (target_id : ℕ) → Role → Exec AdminUserMutation
unfolding assert_not_self load_target_or_throw write_role
change_role actor target_id role = do
  assert_not_self actor target_id
  target ← load_target_or_throw target_id
  at ← now
  unchanged_or (same_role target.role role) target
      (do updated ← transaction (write_role actor target role at); answer 0 updated)

unfoldable pub write_status : User → Bool → Exec User
unfolding update_user active_admin_ids
write_status target active = do
  guard_last (is_active_admin target && not active) target.id
  update_user target.id (set_active active)

abbrev pub same_bool : Bool → Bool → Bool
same_bool true b = b
same_bool false b = not b

unfoldable pub change_status : (target_id : ℕ) → Bool → Exec AdminUserMutation
unfolding load_target_or_throw write_status
change_status target_id active = do
  target ← load_target_or_throw target_id
  unchanged_or (same_bool target.is_active active) target
      (do updated ← transaction (write_status target active); answer 0 updated)

unfoldable pub clearance_impact : (user_id clearance : ℕ) → List Incident → List Incident
clearance_impact user_id clearance incidents =
    filter (λ i. must_unassign_on_raise (some clearance) i.severity)
      (filter (is_assigned_non_closed user_id) incidents)

-- `computeClearanceImpact`.
unfoldable pub compute_clearance_impact : (user_id clearance : ℕ) → Exec (List Incident)
unfolding clearance_impact
compute_clearance_impact user_id clearance =
    gets (λ w. clearance_impact user_id clearance w.db.incidents)

-- The answer lists the incidents, and their number.
unfoldable pub preview_clearance_impact : (target_id clearance : ℕ) → Exec (List Incident × ℕ)
unfolding load_target_or_throw compute_clearance_impact
preview_clearance_impact target_id clearance = do
  target ← load_target_or_throw target_id
  affected ← compute_clearance_impact target_id clearance
  pure (affected, length affected)

abbrev pub cascade_event : Actor → Incident → (at : ℕ) → AuditInput
cascade_event actor incident at = record {
  incident_id = some incident.id;
  actor_id = some actor.id;
  type = investigator_unassigned;
  from_value = none;
  to_value = none;
  reason = some admin_clearance_lowered;
  payload = none;
  occurred_at = at;
}

abbrev pub strand_changes : Stage → UpdateIncidentStateInput
strand_changes investigation = record no_changes {
  assigned_investigator_id = some none;
  stage = some triage;
}
strand_changes _ = record no_changes { assigned_investigator_id = some none }

abbrev pub record_if : Bool → AuditInput → Exec (Unit {0})
record_if true e = record_event e
record_if false e = pure tt

-- One round of the loop over the affected incidents.
unfoldable pub strand : Actor → (target_id at : ℕ) → Incident → Exec (Unit {0})
unfolding update_versioned record_event
strand actor target_id at incident = do
  count ← update_versioned incident.id incident.version (strand_changes incident.stage)
  require (count == 1) (stale_version_error incident.version)
  record_event
      (record (cascade_event actor incident at) { from_value = some (user_value target_id) })
  record_if (same_stage incident.stage investigation) (record (cascade_event actor incident at) {
    type = stage_changed;
    from_value = some (stage_value incident.stage);
    to_value = some (stage_value triage);
  })

unfoldable pub strand_all : Actor → (target_id at : ℕ) → List Incident → Exec (Unit {0})
unfolding strand
strand_all actor target_id at [] = pure tt
strand_all actor target_id at (i ∷ is) =
    strand actor target_id at i >> strand_all actor target_id at is

abbrev pub clearance_event : Actor → User → (level now : ℕ) → AuditInput
clearance_event actor target level at = record (user_event actor target at) {
  type = user_clearance_changed;
  from_value = some (number_value target.clearance_level);
  to_value = some (number_value level);
}

unfoldable pub write_clearance : Actor → User → (level now : ℕ) → List Incident → Exec User
unfolding update_user record_event strand_all
write_clearance actor target level at affected = do
  result ← update_user target.id (set_clearance level)
  record_event (clearance_event actor target level at)
  strand_all actor target.id at affected
  pure result

-- The candidates of a change that lowers the clearance, and of one that does not.
abbrev pub impact : Bool → (target_id level : ℕ) → List Incident → List Incident
impact true target_id level incidents = clearance_impact target_id level incidents
impact false target_id level incidents = []

abbrev pub impact_if : Bool → (user_id clearance : ℕ) → Exec (List Incident)
impact_if true user_id clearance = compute_clearance_impact user_id clearance
impact_if false user_id clearance = pure []

unfoldable pub change_clearance : Actor → (target_id level : ℕ) → Exec AdminUserMutation
unfolding assert_not_self load_target_or_throw compute_clearance_impact write_clearance
change_clearance actor target_id level = do
  assert_not_self actor target_id
  target ← load_target_or_throw target_id
  at ← now
  unchanged_or (target.clearance_level == level) target (do
    affected ← impact_if (ltb level target.clearance_level) target_id level
    updated ← transaction (write_clearance actor target level at affected)
    answer (length affected) updated)

unfoldable pub put_tiers : Actor → List Tier → Exec (List Tier)
unfolding replace_tier_set active_tiers
put_tiers actor tiers = do
  transaction (replace_tier_set tiers actor.id)
  gets (λ w. active_tiers w.db.tiers)
