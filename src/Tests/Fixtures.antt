-- ===== src/Tests/Fixtures.antt =====
-- A database with four users and four incidents, one in each of four stages.
use incident_api.Base.{
  ◌+◌, refl, true, none, some, List, [], ◌∷◌, arith, Unique, All, All-find, has_key,
}
use incident_api.Model.Enums.{
  medium, high, low, reported, triage, investigation, pending_closure, closed, reporter,
  triage_manager, investigator, admin, safety,
}
use incident_api.Model.Text.{Text}
use incident_api.Model.Rows.{User, Actor, Incident}
use incident_api.Model.World.{World}
use incident_api.Policy.{has_closure_requirements}
use incident_api.Incidents.Repository.{incident_id}
use incident_api.Mutations.WellFormed.{RowOk, WellFormed}

-- Twenty letters, and twenty code units that are ten characters.
abbrev pub long_text : Text
long_text =
    97 ∷ 97 ∷ 97 ∷ 97 ∷ 97 ∷ 97 ∷ 97 ∷ 97 ∷ 97 ∷ 97 ∷ 97 ∷ 97 ∷ 97 ∷ 97 ∷ 97 ∷ 97 ∷ 97 ∷ 97 ∷ 97
    ∷ 97 ∷ []

abbrev pub pictures : Text
pictures =
    55357 ∷ 56832 ∷ 55357 ∷ 56832 ∷ 55357 ∷ 56832 ∷ 55357 ∷ 56832 ∷ 55357 ∷ 56832 ∷ 55357 ∷ 56832
    ∷ 55357 ∷ 56832 ∷ 55357 ∷ 56832 ∷ 55357 ∷ 56832 ∷ 55357 ∷ 56832 ∷ []

abbrev pub manager : Actor
manager = record { id = 1; role = triage_manager; clearance_level = 4; session_id = none }

abbrev pub low_manager : Actor
low_manager = record { id = 1; role = triage_manager; clearance_level = 1; session_id = none }

abbrev pub administrator : Actor
administrator = record { id = 3; role = admin; clearance_level = 4; session_id = none }

abbrev manager_user : User
manager_user = record {
  id = 1;
  email = 109 ∷ [];
  password_hash = [];
  display_name = 77 ∷ [];
  role = triage_manager;
  clearance_level = 4;
  is_active = true;
  created_at = 0;
}

abbrev pub users : List User
users =
    manager_user
    ∷ record manager_user { id = 2; role = investigator; clearance_level = 3 }
    ∷ record manager_user { id = 3; role = admin }
    ∷ record manager_user { id = 4; role = reporter; clearance_level = 1 }
    ∷ []

-- Reported and of low severity.
abbrev pub fresh : Incident
fresh = record {
  id = 10;
  reference = 73 ∷ [];
  type = safety;
  severity = low;
  stage = reported;
  title = [];
  description = [];
  image_path = none;
  no_image_reason = some long_text;
  reporter_id = 4;
  assigned_investigator_id = none;
  acknowledged_by_id = none;
  acknowledged_at = none;
  high_severity_since = none;
  escalation_cycle = 0;
  current_escalation_level = 0;
  last_escalated_at = none;
  root_cause = none;
  corrective_action = none;
  closure_proposed_by_id = none;
  closure_proposed_at = none;
  closed_by_id = none;
  closed_at = none;
  version = 1;
  created_at = 0;
}

-- Under investigation, with its clock running for an hour.
abbrev pub urgent : Incident
urgent = record fresh {
  id = 11;
  severity = high;
  stage = investigation;
  assigned_investigator_id = some 2;
  high_severity_since = some 1000;
  escalation_cycle = 1;
  version = 3;
}

-- The same after its investigator was taken off it.
abbrev pub unassigned : Incident
unassigned = record urgent { stage = triage; assigned_investigator_id = none; version = 4 }

abbrev pub awaiting : Text → Incident
awaiting t = record fresh {
  id = 12;
  severity = medium;
  stage = pending_closure;
  assigned_investigator_id = some 2;
  root_cause = some t;
  corrective_action = some t;
  version = 5;
}

abbrev pub finished : Incident
finished = record (awaiting long_text) {
  id = 13;
  stage = closed;
  closed_by_id = some 1;
  version = 6;
}

abbrev pub start : Text → World
start t = record {
  db = record {
    users = users;
    incidents = fresh ∷ urgent ∷ awaiting t ∷ finished ∷ [];
    notes = [];
    audit = [];
    tiers = [];
    events = [];
    notifications = [];
    tokens = [];
    job_runs = [];
    lease = record { owner_run_id = none; held_until = none };
  };
  clock = 3601000;
  sequence = 4;
  supply = λ n. n + 100;
  drawn = 0;
  pending = [];
  place = λ id. id;
}

pub start-Unique : (t : Text) → Unique incident_id (start t).db.incidents
start-Unique t = ground arith

start-RowOk : (t : Text) → All (RowOk users) (start t).db.incidents
unfolding has_closure_requirements
start-RowOk t = (
  record { clock = refl; documented = refl; covered = refl },
  (
    record { clock = refl; documented = refl; covered = refl },
    (
      record { clock = refl; documented = refl; covered = refl },
      (record { clock = refl; documented = refl; covered = refl }, tt),
    ),
  ),
)

pub start-WellFormed : (t : Text) → WellFormed (start t).db
start-WellFormed t = record {
  unique = start-Unique t;
  rows = λ id row h.
      All-find (RowOk users) (has_key incident_id id) (start t).db.incidents row (start-RowOk t) h;
}
