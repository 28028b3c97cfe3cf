-- ===== src/Tests/Creations.antt =====
-- Creations, run on the fixtures.
use incident_api.Base.{◌≡◌, refl, some, none, [], ◌∷◌, ◌++◌}
use incident_api.Model.Enums.{high, safety}
use incident_api.Model.Errors.{violated, unique_key}
use incident_api.Model.World.{World}
use incident_api.Model.Exec.{ok, err}
use incident_api.Mutations.WellFormed.{WellFormed}
use incident_api.Incidents.Create.{
  CreateRequest, Upload, receipt_of, created_event, create, format_incident_reference,
}
use incident_api.Incidents.Create.Keeps.{create-WellFormed}
use incident_api.Incidents.Create.Outcomes.{created, create_written, create_burns}
use incident_api.Tests.Fixtures.{long_text, low_manager, start, start-WellFormed}

abbrev upload : Upload
upload id image = some (105 ∷ [])

abbrev request : CreateRequest
request = record {
  type = safety;
  severity = high;
  title = long_text;
  description = long_text;
  no_image_reason = some long_text;
}

create-WellFormed_example :
    WellFormed (create upload low_manager request none (start long_text)).1.db
create-WellFormed_example =
    create-WellFormed upload low_manager request none (start long_text) (start-WellFormed long_text)

create_written_example :
    ((create upload low_manager request none (start long_text)).0
      ≡ ok (receipt_of low_manager (created upload low_manager request (start long_text))))
    × ((create upload low_manager request none (start long_text)).1.db
        ≡ record ((start long_text).db) {
          incidents =
              (start long_text).db.incidents
              ++ created upload low_manager request (start long_text) ∷ [];
          audit =
              record {
                id = 101;
                event =
                    created_event low_manager
                      (created upload low_manager request (start long_text));
              }
              ∷ [];
        })
    × ((create upload low_manager request none (start long_text)).1.sequence ≡ 5)
unfolding format_incident_reference
create_written_example = create_written upload low_manager request (start long_text) refl refl

-- A world whose next id is taken.
abbrev crowded : World
crowded = record (start long_text) { supply = λ n. 10 }

create_burns_example :
    ((create upload low_manager request none crowded).0 ≡ err (violated unique_key))
    × ((create upload low_manager request none crowded).1.db ≡ crowded.db)
    × ((create upload low_manager request none crowded).1.sequence ≡ 5)
unfolding format_incident_reference
create_burns_example = create_burns upload low_manager request crowded refl refl

-- INC-2026-000005
reference_run :
    format_incident_reference 2026 5
    ≡ 73 ∷ 78 ∷ 67 ∷ 45 ∷ 50 ∷ 48 ∷ 50 ∷ 54 ∷ 45 ∷ 48 ∷ 48 ∷ 48 ∷ 48 ∷ 48 ∷ 53 ∷ []
unfolding format_incident_reference
reference_run = refl
