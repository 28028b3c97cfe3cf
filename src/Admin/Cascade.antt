-- ===== src/Admin/Cascade.antt =====
-- The cascade of `changeClearance` (src/modules/admin/admin.service.ts) on the user's incidents.
use mathlib.Core.Path.{subst}
use incident_api.Base.{
  ℕ, ◌≡◌, refl, sym, ap, ◌∙◌, ◌⊎◌, inl, inr, true, false, not, ◌||◌, List, [], ◌∷◌, arith, All, Any,
  is_some, Unique, update_where, update-Unique, All-update_to,
}
use incident_api.Model.Enums.{Stage, closed, investigation, same_stage}
use incident_api.Model.Rows.{User, Actor, Incident}
use incident_api.Model.World.{World}
use incident_api.Model.Exec.{ok, >>=-eq-ok}
use incident_api.Policy.{has_closure_requirements}
use incident_api.Incidents.Repository.{
  incident_id, apply_update, has_version, is_high_band, update_many,
}
use incident_api.Mutations.WellFormed.{assignee_cleared}
use incident_api.Mutations.Effects.{apply_update-id}
use incident_api.Admin.{strand_changes, strand, strand_all}

-- A row that is well formed, or whose assignee is still to be taken off it.
pub record Pending (users : List User) (rest : List Incident) (row : Incident) : Type 0 where
  pub clock : is_some row.high_severity_since ≡ is_high_band row.severity
  pub documented : (not (same_stage row.stage closed) || has_closure_requirements row) ≡ true
  pub waits :
      ((same_stage row.stage closed
          || assignee_cleared users row.assigned_investigator_id row.severity)
        ≡ true)
      ⊎ Any (λ a. a ≡ row) rest

abbrev pub stranded_row : Incident → List Incident → List Incident
stranded_row a rows =
    update_where (has_version a.id a.version) (apply_update (strand_changes a.stage)) rows

pub strand-writes :
    (actor : Actor) (target_id at : ℕ) (a : Incident) (w w' : World)
    → strand actor target_id at a w ≡ (ok tt, w')
    → (w'.db.incidents ≡ stranded_row a w.db.incidents) × (w'.db.users ≡ w.db.users)
unfolding strand update_many
strand-writes actor target_id at a w w' h = ground arith

strand-hit :
    (users : List User) (stage : Stage) (a : Incident) (rest : List Incident) (row : Incident)
    → Pending users (a ∷ rest) row
    → Pending users rest (apply_update (strand_changes stage) row)
unfolding apply_update has_closure_requirements
strand-hit users investigation a rest row h = record {
  clock = h.clock;
  documented = refl;
  waits = inl refl;
}
strand-hit users _ a rest row h = record {
  clock = h.clock;
  documented = h.documented;
  waits = inl (ground arith);
}

strand-miss :
    (users : List User) (a : Incident) (rest : List Incident) (row : Incident)
    → has_version a.id a.version row ≡ false
    → Pending users (a ∷ rest) row
    → Pending users rest row
strand-miss users a rest row other h = record {
  clock = h.clock;
  documented = h.documented;
  waits = elim (h.waits) [
    | inl c ↦ inl c
    | inr (inl e) ↦ absurd (ground (arith, e))
    | inr (inr m) ↦ inr m
  ];
}

pub strand_all-Pending :
    (actor : Actor) (target_id at : ℕ) (rest : List Incident) (w w' : World)
    → strand_all actor target_id at rest w ≡ (ok tt, w')
    → Unique incident_id w.db.incidents
    → All (Pending w.db.users rest) w.db.incidents
    → (w'.db.users ≡ w.db.users)
      × Unique incident_id w'.db.incidents
      × All (Pending w.db.users []) w'.db.incidents
unfolding strand_all
strand_all-Pending actor target_id at [] w w' h u p =
    let e : w' ≡ w = sym (ap (λ r. r.1) h) in rw e (refl, u, p)
strand_all-Pending actor target_id at (a ∷ rest) w w' h u p =
    let (done, v, e, f) =
      >>=-eq-ok (strand actor target_id at a) (λ _. strand_all actor target_id at rest) w tt w' h in
    let (rows, users) = strand-writes actor target_id at a w v e in
    let unique : Unique incident_id v.db.incidents = rw rows (
      update-Unique incident_id (has_version a.id a.version) (apply_update (strand_changes a.stage))
        w.db.incidents (apply_update-id (strand_changes a.stage)) u) in
    let pending : All (Pending v.db.users rest) v.db.incidents =
      rw (rows, users)
        (All-update_to (Pending w.db.users (a ∷ rest)) (Pending w.db.users rest)
          (has_version a.id a.version) (apply_update (strand_changes a.stage)) w.db.incidents
          (λ row _ k. strand-hit w.db.users a.stage a rest row k)
          (λ row other k. strand-miss w.db.users a rest row other k) p) in
    let (same, unique', all) = strand_all-Pending actor target_id at rest v w' f unique pending in
    (
      same ∙ users,
      unique',
      subst (λ (us : List User). All (Pending us []) w'.db.incidents) users all,
    )
