-- ===== src/Incidents/Versioned/Checks.antt =====
-- `updateVersioned` of src/modules/incidents/incident.repository.ts and the CHECK constraints.
use mathlib.Core.Path.{subst}
use incident_api.Base.{
  ℕ, ◌≡◌, ◌≢◌, refl, none, some, List, [], ◌∷◌, arith, ◌==◌, Unique, All, Bool-cases, inl, inr,
}
use incident_api.Model.Rows.{Incident}
use incident_api.Incidents.Repository.{
  violation, update_violation, has_version, incident_at, incident_id,
}

update_violation_absent :
    (id expected : ℕ) (f : Incident → Incident) (rows : List Incident)
    → All (λ y. incident_id y ≢ id) rows
    → update_violation (has_version id expected) f rows ≡ none
unfolding update_violation
update_violation_absent id expected f [] h = refl
update_violation_absent id expected f (row ∷ rows) (n, h) =
    ground (arith, update_violation_absent id expected f rows h)

-- Where ids are unique the database checks the one row that is written.
pub update_violation_at :
    (id expected : ℕ) (f : Incident → Incident) (rows : List Incident) (row : Incident)
    → Unique incident_id rows
    → incident_at id rows ≡ some row
    → row.version ≡ expected
    → update_violation (has_version id expected) f rows ≡ violation (f row)
unfolding update_violation
update_violation_at id expected f [] row u h v = cc
update_violation_at id expected f (r ∷ rows) row (n, u) h v = elim (Bool-cases (r.id == id)) [
  | inl e ↦
      let absent =
        update_violation_absent id expected f rows
          (subst (λ (j : ℕ). All (λ y. incident_id y ≢ j) rows) (ground arith) n) in
      ground (arith, absent)
  | inr e ↦ ground (arith, update_violation_at id expected f rows row u)
]
