-- ===== src/Incidents/Create/Outcomes.antt =====
-- The outcomes of `create` (src/modules/incidents/incident.service.ts) without an image.
use incident_api.Base.{
  ℕ, ◌+◌, ◌≡◌, refl, inl, inr, true, false, Option, none, [], ◌∷◌, ◌++◌, any, Bool-cases,
}
use incident_api.Model.Errors.{violated, unique_key}
use incident_api.Model.Text.{Text}
use incident_api.Model.Rows.{Actor, Incident}
use incident_api.Model.World.{World}
use incident_api.Model.Exec.{ok, err}
use incident_api.Incidents.Repository.{is_high_band, violation, set_incidents}
use incident_api.Incidents.Create.{
  CreateRequest, Upload, new_incident, clashes_with, create_incident, write_incident, created_event,
  receipt_of, create, next_reference_sequence, format_incident_reference, utc_year, has_reason,
}

new-violation :
    (actor : Actor) (input : CreateRequest) (path : Option Text) (id at : ℕ) (reference : Text)
    → violation (new_incident actor input path id at reference) ≡ none
unfolding violation
new-violation actor input path id at reference = elim (Bool-cases (is_high_band input.severity)) [
  | inl e ↦ rw e refl
  | inr e ↦ rw e refl
]

create_incident-lem :
    (new : Incident) (w : World)
    → violation new ≡ none
    → any (clashes_with new) w.db.incidents ≡ false
    → create_incident new w ≡ (ok new, set_incidents (w.db.incidents ++ new ∷ []) w)
unfolding create_incident
create_incident-lem new w clean free = rw (clean, free) refl

create_incident-clash :
    (new : Incident) (w : World)
    → violation new ≡ none
    → any (clashes_with new) w.db.incidents ≡ true
    → create_incident new w ≡ (err (violated unique_key), w)
unfolding create_incident
create_incident-clash new w clean taken = rw (clean, taken) refl

module _ (upload : Upload) (actor : Actor) (input : CreateRequest) (w : World) where
  -- The row of a creation without an image.
  abbrev pub created : Incident
  created =
      new_incident actor input none (w.supply w.drawn) w.clock
        (format_incident_reference (utc_year w.clock) (w.sequence + 1))

  -- A creation without an image that gives a reason, and whose id and reference are not taken,
  -- returns its receipt, appends the new row and one audit row and changes no other table, and draws
  -- one number of the sequence.
  pub create_written :
      has_reason input.no_image_reason ≡ true
      → any (clashes_with created) w.db.incidents ≡ false
      → ((create upload actor input none w).0 ≡ ok (receipt_of actor created))
        × ((create upload actor input none w).1.db ≡ record (w.db) {
          incidents = w.db.incidents ++ created ∷ [];
          audit =
              w.db.audit
              ++ record { id = w.supply (w.drawn + 1); event = created_event actor created } ∷ [];
        })
        × ((create upload actor input none w).1.sequence ≡ w.sequence + 1)
  unfolding create write_incident next_reference_sequence
  create_written reason free =
      let v : World = record w { drawn = w.drawn + 1; sequence = w.sequence + 1 } in
      let done =
        create_incident-lem created v
          (new-violation actor input none (w.supply w.drawn) w.clock
            (format_incident_reference (utc_year w.clock) (w.sequence + 1)))
          free in
      rw reason (rw done (refl, refl, refl))

  -- A creation without an image whose id or reference is taken fails, leaves the database as it was,
  -- and has nevertheless used up a number of the sequence.
  pub create_burns :
      has_reason input.no_image_reason ≡ true
      → any (clashes_with created) w.db.incidents ≡ true
      → ((create upload actor input none w).0 ≡ err (violated unique_key))
        × ((create upload actor input none w).1.db ≡ w.db)
        × ((create upload actor input none w).1.sequence ≡ w.sequence + 1)
  unfolding create write_incident next_reference_sequence
  create_burns reason taken =
      let v : World = record w { drawn = w.drawn + 1; sequence = w.sequence + 1 } in
      let refused =
        create_incident-clash created v
          (new-violation actor input none (w.supply w.drawn) w.clock
            (format_incident_reference (utc_year w.clock) (w.sequence + 1)))
          taken in
      rw reason (rw refused (refl, refl, refl))
