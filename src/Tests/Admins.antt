-- ===== src/Tests/Admins.antt =====
-- Changes of users, run on the fixtures.
use incident_api.Base.{◌≡◌, refl, arith, true, some, List, [], ◌∷◌}
use incident_api.Model.Enums.{investigator, triage_manager}
use incident_api.Model.Exec.{ok, err}
use incident_api.Model.Errors.{app, last_admin_error}
use incident_api.Incidents.Repository.{incident_at, update_violation, violation, apply_update}
use incident_api.Mutations.WellFormed.{WellFormed}
use incident_api.Admin.{preview_clearance_impact, change_clearance, change_role}
use incident_api.Admin.Preview.{clearance_preview}
use incident_api.Model.Rows.{User, Incident}
use incident_api.Admin.Frame.{to_role, to_clearance, amend}
use incident_api.Admin.Changes.{amend-WellFormed}
use incident_api.Admin.LastAdmin.{HasAdmin, amend-HasAdmin}
use incident_api.Tests.Fixtures.{
  long_text, manager, administrator, unassigned, start, start-WellFormed,
}

amend-WellFormed_example :
    WellFormed (amend (to_clearance 1) administrator 2 (start long_text)).1.db
amend-WellFormed_example =
    amend-WellFormed (to_clearance 1) administrator 2 (start long_text) (start-WellFormed long_text)

start-HasAdmin : HasAdmin (start long_text).db
start-HasAdmin = (ground arith, omega arith)

amend-HasAdmin_example : HasAdmin (amend (to_role triage_manager) manager 3 (start long_text)).1.db
amend-HasAdmin_example =
    amend-HasAdmin (to_role triage_manager) manager 3 (start long_text) start-HasAdmin

-- The only administrator is not demoted.
last_admin_run :
    (change_role manager 3 triage_manager (start long_text)).0 ≡ err (app last_admin_error)
unfolding change_role
last_admin_run = refl

-- Lowering the investigator's clearance takes the urgent incident off them.
cascade_run :
    incident_at 11 (change_clearance administrator 2 1 (start long_text)).1.db.incidents
    ≡ some unassigned
unfolding change_clearance update_violation violation apply_update
cascade_run = refl

abbrev pub lowered : User
lowered = record {
  id = 2;
  email = 109 ∷ [];
  password_hash = [];
  display_name = 77 ∷ [];
  role = investigator;
  clearance_level = 1;
  is_active = true;
  created_at = 0;
}

clearance_preview_example :
    (list : List Incident) × (preview_clearance_impact 2 1 (start long_text)
      ≡ (ok (list, 2), start long_text))
unfolding change_clearance update_violation violation apply_update
clearance_preview_example =
    clearance_preview administrator 2 1 (start long_text) (record lowered { clearance_level = 3 })
      lowered 2 (change_clearance administrator 2 1 (start long_text)).1 refl (omega arith) refl
