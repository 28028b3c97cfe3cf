-- ===== src/Incidents/Create/Keeps.antt =====
-- `create` of src/modules/incidents/incident.service.ts and the invariants of the incidents.
use incident_api.Base.{
  ℕ, ◌+◌, ◌≡◌, ◌≢◌, refl, sym, ap, ◌⊎◌, inl, inr, false, Option, none, some, List, [], ◌∷◌, ◌++◌,
  arith, ◌==◌, any, All, All-append, Unique, Bool-cases, Option-cases,
}
use incident_api.Model.Text.{Text}
use incident_api.Model.Rows.{Actor, User, Incident}
use incident_api.Model.World.{World}
use incident_api.Model.Exec.{
  Result, ok, err, >>=-eq-ok, transaction, end_transaction, ◌>>=◌, ◌>>◌, pure, lift,
}
use incident_api.Audit.Record.{record_event}
use incident_api.Incidents.Repository.{incident_id, incident_at, is_high_band, violation}
use incident_api.Incidents.Create.{
  CreateRequest, Image, Upload, new_incident, clashes_with, create_incident, write_incident,
  created_event, receipt_of, create, next_reference_sequence, format_incident_reference, utc_year,
  has_reason,
}
use incident_api.Mutations.WellFormed.{RowOk, WellFormed}

find-append :
    (id : ℕ) (rows : List Incident) (new row : Incident)
    → incident_at id (rows ++ new ∷ []) ≡ some row
    → (incident_at id rows ≡ some row) ⊎ (row ≡ new)
find-append id [] new row h = inr (ground (arith, h))
find-append id (r ∷ rows) new row h = elim (Bool-cases (incident_id r == id)) [
  | inl e ↦ inl (ground (arith, h, e))
  | inr e ↦ elim (find-append id rows new row (ground (arith, h, e))) [
    | inl f ↦ inl (ground (arith, e, f))
    | inr f ↦ inr f
  ]
]

fresh_id :
    (new : Incident) (rows : List Incident)
    → any (clashes_with new) rows ≡ false
    → All (λ y. incident_id new ≢ incident_id y) rows
fresh_id new [] h = tt
fresh_id new (r ∷ rows) h = (ground arith, fresh_id new rows (ground arith))

append-Unique :
    (rows : List Incident) (new : Incident)
    → Unique incident_id rows
    → All (λ y. incident_id new ≢ incident_id y) rows
    → Unique incident_id (rows ++ new ∷ [])
append-Unique [] new u f = (tt, tt)
append-Unique (r ∷ rows) new (n, u) (d, f) = (
  All-append (λ y. incident_id y ≢ incident_id r) rows (new ∷ []) n (d, tt),
  append-Unique rows new u f,
)

new-RowOk :
    (users : List User) (actor : Actor) (input : CreateRequest) (path : Option Text) (id at : ℕ)
    (reference : Text)
    → RowOk users (new_incident actor input path id at reference)
new-RowOk users actor input path id at reference = elim (Bool-cases (is_high_band input.severity)) [
  | inl e ↦ record { clock = rw e refl; documented = refl; covered = refl }
  | inr e ↦ record { clock = rw e refl; documented = refl; covered = refl }
]

create_incident-WellFormed :
    (new : Incident) (w : World) (i : Incident) (w' : World)
    → create_incident new w ≡ (ok i, w')
    → RowOk w.db.users new
    → WellFormed w.db
    → WellFormed w'.db
unfolding create_incident
create_incident-WellFormed new w i w' h row_ok well = elim (Option-cases (violation new)) [
  | inr (c, e) ↦ absurd (ground (arith, e))
  | inl e ↦ elim (Bool-cases (any (clashes_with new) w.db.incidents)) [
    | inl clash ↦ absurd (ground (arith, e, clash))
    | inr free ↦
        let users : w'.db.users ≡ w.db.users = ground (arith, e, free) in
        let rows : w'.db.incidents ≡ w.db.incidents ++ new ∷ [] = ground (arith, e, free) in
        record {
          unique =
              rw rows
                (append-Unique w.db.incidents new well.unique (fresh_id new w.db.incidents free));
          rows = λ id row there. elim (find-append id w.db.incidents new row (rw rows at there)) [
            | inl old ↦ rw users (well.rows id row old)
            | inr same ↦ rw (users, same) row_ok
          ];
        }
  ]
]

-- Only ids, the sequence and the clock apart, a change that leaves incidents and users alone.
same_tables :
    (w w' : World)
    → w'.db.incidents ≡ w.db.incidents
    → w'.db.users ≡ w.db.users
    → WellFormed w.db
    → WellFormed w'.db
same_tables w w' rows users well = record {
  unique = rw rows well.unique;
  rows = λ id row there. rw users (well.rows id row (rw rows at there));
}

write_incident-WellFormed :
    (actor : Actor) (input : CreateRequest) (path : Option Text) (id at : ℕ) (w : World)
    (i : Incident) (w' : World)
    → write_incident actor input path id at w ≡ (ok i, w')
    → WellFormed w.db
    → WellFormed w'.db
unfolding write_incident next_reference_sequence record_event
write_incident-WellFormed actor input path id at w i w' h well =
    let v : World = record w { sequence = w.sequence + 1 } in
    let new =
      new_incident actor input path id at
        (format_incident_reference (utc_year at) (w.sequence + 1)) in
    let (j, u, e, f) =
      >>=-eq-ok (create_incident new)
        (λ (c : Incident). record_event (created_event actor c) >> pure c) v i w' h in
    let (done, t, g, k) = >>=-eq-ok (record_event (created_event actor j)) (λ _. pure j) u i w' f in
    let last : w' ≡ t = sym (ap (λ r. r.1) k) in
    let stored =
      create_incident-WellFormed new v j u e
        (new-RowOk w.db.users actor input path id at
          (format_incident_reference (utc_year at) (w.sequence + 1)))
        (same_tables w v refl refl well) in
    rw last
      (same_tables u t (ap (λ r. r.1.db.incidents) (sym g)) (ap (λ r. r.1.db.users) (sym g)) stored)

receipt_keeps :
    (actor : Actor) (w : World) (r : Result Incident × World)
    → WellFormed w.db
    → ((i : Incident) (w' : World) → r ≡ (ok i, w') → WellFormed w'.db)
    → WellFormed
        ((lift (end_transaction w r).0 >>= λ (i : Incident). pure (receipt_of actor i))
          (end_transaction w r).1).1.db
receipt_keeps actor w (ok i, w') well keeps = keeps i w' refl
receipt_keeps actor w (err e, w') well keeps = well

stored :
    (actor : Actor) (input : CreateRequest) (path : Option Text) (w : World)
    → WellFormed w.db
    → WellFormed
        ((transaction (write_incident actor input path (w.supply w.drawn) w.clock)
            >>= λ (i : Incident). pure (receipt_of actor i))
          (record w { drawn = w.drawn + 1 })).1.db
stored actor input path w well =
    let v : World = record w { drawn = w.drawn + 1 } in
    let before = same_tables w v refl refl well in
    receipt_keeps actor v (write_incident actor input path (w.supply w.drawn) w.clock v) before
      (λ i w' h.
        write_incident-WellFormed actor input path (w.supply w.drawn) w.clock v i w' h before)

-- Every creation, whatever its outcome, keeps the incidents well formed.
pub create-WellFormed :
    (upload : Upload) (actor : Actor) (input : CreateRequest) (image : Option Image) (w : World)
    → WellFormed w.db
    → WellFormed (create upload actor input image w).1.db
unfolding create
create-WellFormed upload actor input (some image) w well =
    elim (Option-cases (upload (w.supply w.drawn) image)) [
      | inl lost ↦ rw lost well
      | inr (path, e) ↦ rw e (stored actor input (some path) w well)
    ]
create-WellFormed upload actor input none w well =
    elim (Bool-cases (has_reason input.no_image_reason)) [
      | inl e ↦ rw e (stored actor input none w well)
      | inr e ↦ rw e well
    ]
