-- ===== src/Incidents/Create.antt =====
-- `create` of src/modules/incidents/incident.service.ts, with `createIncident` and
-- `nextReferenceSequence` of incident.repository.ts and `formatIncidentReference` of src/core/ids.ts.
pub mod Keeps
pub mod Outcomes
use incident_api.Base.{
  ℕ, zero, suc, ◌+◌, ◌-◌, ◌*◌, ◌/◌, ◌%◌, Bool, true, false, not, ◌&&◌, ◌||◌, Option, none, some,
  List, [], ◌∷◌, ◌++◌, leb, ltb, ◌==◌, length, any, is_some, if◌then◌else◌,
}
use incident_api.Model.Enums.{Severity, IncidentType, reported, incident_created}
use incident_api.Model.Errors.{
  Constraint, app, violated, unique_key, image_or_reason_required_error, image_upload_failed_error,
}
use incident_api.Model.Text.{Text, same_text}
use incident_api.Model.Rows.{
  Actor, Incident, AuditInput, AuditValue, severity_value, AuditPayload, created_payload,
}
use incident_api.Model.World.{World, Db}
use incident_api.Model.Exec.{
  Result, ok, err, Exec, pure, require, or_throw, transaction, now, new_id, ◌>>=◌, ◌>>◌,
}
use incident_api.Policy.{can_view_severity}
use incident_api.Audit.Record.{record_event}
use incident_api.Incidents.Repository.{is_high_band, violation, set_incidents}

abbrev pub is_leap : ℕ → Bool
is_leap y = y % 4 == 0 && (not (y % 100 == 0) || y % 400 == 0)

abbrev pub year_days : ℕ → ℕ
year_days y = if is_leap y then 366 else 365

-- The year of a day counted from the first of January of `year`; a year has a day at least, so that
-- fuel above the number of days is enough.
unfoldable pub year_from : (fuel year days : ℕ) → ℕ
year_from zero year days = year
year_from (suc n) year days =
    let later = year_from n (year + 1) (days - year_days year) in
    if ltb days (year_days year) then year else later

-- `getUTCFullYear`.
unfoldable pub utc_year : (ms : ℕ) → ℕ
unfolding year_from
utc_year ms = let days = ms / 86400000 in year_from (days + 1) 1970 days

-- `String(n)`: the decimal digits; fuel above the number is enough.
unfoldable pub digits_from : (fuel n : ℕ) → Text
digits_from zero n = []
digits_from (suc f) n =
    let front = digits_from f (n / 10) in
    if ltb n 10 then (48 + n) ∷ [] else front ++ (48 + n % 10) ∷ []

unfoldable pub digits : ℕ → Text
unfolding digits_from
digits n = digits_from (n + 1) n

-- `padStart(width, '0')`.
abbrev pub zeros : ℕ → Text
zeros zero = []
zeros (suc n) = 48 ∷ zeros n

unfoldable pub pad_start : (width : ℕ) → Text → Text
pad_start width s = zeros (width - length s) ++ s

unfoldable pub format_incident_reference : (year sequence : ℕ) → Text
unfolding digits pad_start
format_incident_reference year sequence =
    73 ∷ 78 ∷ 67 ∷ 45 ∷ (digits year ++ 45 ∷ pad_start 6 (digits sequence))

-- `CreateIncidentRequest`, as its contract has checked it.
pub record CreateRequest : Type 0 where
  pub type : IncidentType
  pub severity : Severity
  pub title : Text
  pub description : Text
  pub no_image_reason : Option Text

-- `UploadedImage`: its bytes, media type and name.
pub record Image : Type 0 where
  pub buffer : List ℕ
  pub mimetype : Text
  pub original_name : Text

pub record Receipt : Type 0 where
  pub id : ℕ
  pub reference : Text
  pub created_at : ℕ
  pub severity : Severity
  pub visible_to_you : Bool

-- A reason that is absent and an empty one both fail the test.
abbrev pub has_reason : Option Text → Bool
has_reason none = false
has_reason (some []) = false
has_reason (some (c ∷ s)) = true

abbrev pub reason_kept : Option Text → Option Text → Option Text
reason_kept none reason = reason
reason_kept (some path) reason = none

-- The row with the defaults of prisma/schema.prisma.
abbrev pub new_incident :
    Actor
    → CreateRequest
    → (image_path : Option Text) → (id now : ℕ) → (reference : Text) → Incident
new_incident actor input image_path id at reference = record {
  id = id;
  reference = reference;
  type = input.type;
  severity = input.severity;
  stage = reported;
  title = input.title;
  description = input.description;
  image_path = image_path;
  no_image_reason = reason_kept image_path input.no_image_reason;
  reporter_id = actor.id;
  assigned_investigator_id = none;
  acknowledged_by_id = none;
  acknowledged_at = none;
  high_severity_since = if is_high_band input.severity then some at else none;
  escalation_cycle = if is_high_band input.severity then 1 else 0;
  current_escalation_level = 0;
  last_escalated_at = none;
  root_cause = none;
  corrective_action = none;
  closure_proposed_by_id = none;
  closure_proposed_at = none;
  closed_by_id = none;
  closed_at = none;
  version = 0;
  created_at = at;
}

-- `nextval`.
unfoldable pub next_reference_sequence : Exec ℕ
next_reference_sequence w = (ok (w.sequence + 1), record w { sequence = w.sequence + 1 })

abbrev pub clashes_with : Incident → Incident → Bool
clashes_with new row = row.id == new.id || same_text row.reference new.reference

abbrev pub insert_checked : Option Constraint → Incident → World → Result Incident × World
insert_checked (some c) new w = (err (violated c), w)
insert_checked none new w =
    if any (clashes_with new) w.db.incidents
    then (err (violated unique_key), w)
    else (ok new, set_incidents (w.db.incidents ++ new ∷ []) w)

unfoldable pub create_incident : Incident → Exec Incident
create_incident new w = insert_checked (violation new) new w

abbrev pub created_event : Actor → Incident → AuditInput
created_event actor i = record {
  incident_id = some i.id;
  actor_id = some actor.id;
  type = incident_created;
  from_value = none;
  to_value = some (severity_value i.severity);
  reason = none;
  payload = some (created_payload i.type i.stage);
  occurred_at = i.created_at;
}

unfoldable pub write_incident :
    Actor → CreateRequest → (image_path : Option Text) → (id now : ℕ) → Exec Incident
unfolding next_reference_sequence format_incident_reference utc_year create_incident record_event
write_incident actor input image_path id at = do
  sequence ← next_reference_sequence
  created ←
      create_incident (
        new_incident actor input image_path id at
          (format_incident_reference (utc_year at) sequence))
  record_event (created_event actor created)
  pure created

-- The storage service: the path of an upload, or none when it fails.
abbrev pub Upload : Type 0
Upload = (incident_id : ℕ) → Image → Option Text

abbrev pub upload_image : Upload → (id : ℕ) → Option Image → Exec (Option Text)
upload_image upload id none = pure none
upload_image upload id (some image) = do
  path ← or_throw (upload id image) image_upload_failed_error
  pure (some path)

abbrev pub receipt_of : Actor → Incident → Receipt
receipt_of actor i = record {
  id = i.id;
  reference = i.reference;
  created_at = i.created_at;
  severity = i.severity;
  visible_to_you = can_view_severity actor i.severity;
}

unfoldable pub create : Upload → Actor → CreateRequest → Option Image → Exec Receipt
unfolding new_id write_incident
create upload actor input image = do
  require (is_some image || has_reason input.no_image_reason) image_or_reason_required_error
  at ← now
  id ← new_id
  image_path ← upload_image upload id image
  incident ← transaction (write_incident actor input image_path id at)
  pure (receipt_of actor incident)
