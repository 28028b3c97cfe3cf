-- ===== src/Investigation/Gates.antt =====
-- The gates of src/modules/investigation/investigation.service.ts and of its query for notes.
use incident_api.Base.{
  ℕ, ◌+◌, ◌≡◌, refl, ap, Bool, true, false, ◌||◌, Option, none, some, [], ◌∷◌, ◌++◌, arith,
  if◌then◌else◌, Bool-cases, Option-cases, inl, inr,
}
use incident_api.Model.Enums.{investigation, pending_closure, same_stage}
use incident_api.Model.Errors.{AppError, app, not_assigned_investigator_error, notes_closed_error}
use incident_api.Model.Text.{Text}
use incident_api.Model.Rows.{Actor, Incident, InvestigationNote}
use incident_api.Model.World.{World, Db}
use incident_api.Model.Exec.{Result, ok, err, require}
use incident_api.Policy.{can_read_notes, can_write_notes}
use incident_api.Policy.Visibility.{visibility_scope-eq}
use incident_api.Incidents.Repository.{TriageIncidentRow}
use incident_api.Incidents.Access.{loaded, denial_error, exists}
use incident_api.Audit.Record.{record_denial}
use incident_api.Investigation.{
  assert_open, is_note_incident, assert_read_access, add_note, note_event,
}

-- The scope of the query for notes admits an incident exactly if the policy lets the actor read its
-- notes.
pub note_gates :
    (actor : Actor) (incident : Incident)
    → is_note_incident actor incident ≡ can_read_notes actor incident
unfolding is_note_incident
note_gates actor incident = rw visibility_scope-eq (ground arith)

-- The error of a request to add a note, if it is refused.
abbrev pub note_refusal : Actor → (id : ℕ) → World → Option TriageIncidentRow → Option AppError
note_refusal actor id w none = some (denial_error id w)
note_refusal actor id w (some row) =
    if can_read_notes actor row.incident
    then if same_stage row.incident.stage investigation
        || same_stage row.incident.stage pending_closure
      then none
      else some (notes_closed_error row.incident.stage)
    else some (not_assigned_investigator_error id)

abbrev pub new_note : Actor → (id : ℕ) → Text → World → InvestigationNote
new_note actor id body w = record {
  id = w.supply w.drawn;
  incident_id = id;
  author_id = actor.id;
  body = body;
  created_at = w.clock;
}

module _ (actor : Actor) (id : ℕ) (body : Text) (w : World) where
  -- The database with the note and its audit row.
  abbrev pub noted : Db
  noted = record (w.db) {
    notes = w.db.notes ++ new_note actor id body w ∷ [];
    audit =
        w.db.audit
        ++ record {
          id = w.supply (w.drawn + 1);
          event = note_event actor (new_note actor id body w);
        }
          ∷ [];
  }

  add_note_hidden :
      (e : AppError)
      → some (denial_error id w) ≡ some e
      → loaded id actor w ≡ none
      → ((add_note actor id body w).0 ≡ err (app e)) × ((add_note actor id body w).1.db ≡ w.db)
  unfolding add_note record_denial
  add_note_hidden e h hidden =
      let same : denial_error id w ≡ e = cc in
      elim (Bool-cases (exists id w)) [
        | inl there ↦ rw (hidden, there) (rw (← same) (rw there refl), refl)
        | inr none_there ↦ rw (hidden, none_there) (rw (← same) (rw none_there refl), refl)
      ]

  module _ (row : TriageIncidentRow) (there : loaded id actor w ≡ some row) where
    abbrev read_result : Bool → Result TriageIncidentRow × World
    read_result true = (ok row, w)
    read_result false = (err (app (not_assigned_investigator_error id)), w)

    abbrev open_result : Bool → Result (Unit {0}) × World
    open_result true = (ok tt, w)
    open_result false = (err (app (notes_closed_error row.incident.stage)), w)

    reads :
        (b : Bool)
        → can_read_notes actor row.incident ≡ b
        → assert_read_access actor id w ≡ read_result b
    unfolding assert_read_access
    reads true read = rw (there, read) refl
    reads false unread = rw (there, unread) refl

    opens :
        (b : Bool)
        → can_write_notes actor row.incident ≡ b
        → assert_open actor row.incident w ≡ open_result b
    unfolding assert_open
    opens true writes =
        ap (λ (b : Bool). require b (notes_closed_error row.incident.stage) w) writes
    opens false shut = ap (λ (b : Bool). require b (notes_closed_error row.incident.stage) w) shut

    add_note_gated :
        (e : AppError)
        → note_refusal actor id w (some row) ≡ some e
        → ((add_note actor id body w).0 ≡ err (app e)) × ((add_note actor id body w).1.db ≡ w.db)
    unfolding add_note
    add_note_gated e h = elim (Bool-cases (can_read_notes actor row.incident)) [
      | inr unread ↦ rw (reads false unread) (ground (arith, h), refl)
      | inl read ↦ elim (Bool-cases (can_write_notes actor row.incident)) [
        | inl writes ↦ absurd (ground (arith, h, read, writes))
        | inr shut ↦ rw (reads true read, opens false shut) (ground (arith, h, read, shut), refl)
      ]
    ]

    add_note_open :
        note_refusal actor id w (some row) ≡ none
        → ((add_note actor id body w).0 ≡ ok (new_note actor id body w))
          × ((add_note actor id body w).1.db ≡ noted)
    unfolding add_note
    add_note_open h = elim (Bool-cases (can_read_notes actor row.incident)) [
      | inr unread ↦ absurd (ground (arith, h, unread))
      | inl read ↦ elim (Bool-cases (can_write_notes actor row.incident)) [
        | inl writes ↦ rw (reads true read, opens true writes) (refl, refl)
        | inr shut ↦ absurd (ground (arith, h, read, shut))
      ]
    ]

  -- Where the incident is not visible, its notes are not readable for the actor, or its stage is
  -- closed for notes, adding a note fails with the error of the first of these gates and leaves the
  -- database as it was.
  pub add_note_refused :
      (e : AppError)
      → note_refusal actor id w (loaded id actor w) ≡ some e
      → ((add_note actor id body w).0 ≡ err (app e)) × ((add_note actor id body w).1.db ≡ w.db)
  unfolding add_note
  add_note_refused e h = elim (Option-cases (loaded id actor w)) [
    | inl hidden ↦ add_note_hidden e (rw hidden at h) hidden
    | inr (row, there) ↦ add_note_gated row there e (rw there at h)
  ]

  -- Where the incident is visible, readable for the actor and open for notes, adding a note returns
  -- it and writes the note and one audit row, which holds its id and its length.
  pub add_note_granted :
      note_refusal actor id w (loaded id actor w) ≡ none
      → ((add_note actor id body w).0 ≡ ok (new_note actor id body w))
        × ((add_note actor id body w).1.db ≡ noted)
  unfolding add_note
  add_note_granted h = elim (Option-cases (loaded id actor w)) [
    | inl hidden ↦ absurd (ground (arith, hidden))
    | inr (row, there) ↦ add_note_open row there (rw there at h)
  ]
