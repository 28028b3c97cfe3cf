-- ===== src/Admin/Frame.antt =====
-- `changeRole`, `changeStatus` and `changeClearance` of src/modules/admin/admin.service.ts in one frame:
-- checks, then a transaction.
use incident_api.Base.{
  ℕ, ◌≡◌, refl, inl, inr, Bool, true, false, some, List, [], length, ◌==◌, ltb, Bool-cases,
  Option-cases,
}
use incident_api.Model.Enums.{Role, same_role}
use incident_api.Model.Rows.{User, Actor, Incident}
use incident_api.Model.World.{World, Db}
use incident_api.Model.Exec.{Result, ok, err, Exec, transaction, end_transaction, ◌>>=◌, lift}
use incident_api.Incidents.Repository.{find_user}
use incident_api.Admin.{
  write_role, write_status, write_clearance, change_role, change_status, change_clearance,
  AdminUserMutation, unchanged_or, same_bool, compute_clearance_impact, answer, impact_if,
  clearance_impact, impact,
}

-- PATCH /admin/users/:id/role, /clearance and /status.
pub data Amendment : Type 0 where
  to_role : Role → Amendment
  to_clearance : ℕ → Amendment
  to_status : Bool → Amendment

unfoldable pub amend : Amendment → Actor → (target_id : ℕ) → Exec AdminUserMutation
amend (to_role role) actor target_id = change_role actor target_id role
amend (to_clearance level) actor target_id = change_clearance actor target_id level
amend (to_status active) actor target_id = change_status target_id active

transaction_keeps :
    (P : Db → Type 0) {A : Type 0} (m : Exec A) (w : World)
    → ((a : A) (w' : World) → m w ≡ (ok a, w') → P w'.db)
    → P w.db
    → P (transaction m w).1.db
transaction_keeps P {A} m w keeps well = go (m w) refl
  where
    go : (r : Result A × World) → m w ≡ r → P (end_transaction w r).1.db
    go (ok a, w') e = keeps a w' e
    go (err x, w') e = well

unchanged_or_keeps :
    (P : Db → Type 0) (b : Bool) (target : User) (m : Exec User) (n : ℕ) (w : World)
    → ((u : User) (w' : World) → m w ≡ (ok u, w') → P w'.db)
    → P w.db
    → P (unchanged_or b target (transaction m >>= answer n) w).1.db
unchanged_or_keeps P true target m n w keeps well = well
unchanged_or_keeps P false target m n w keeps well =
    go (transaction m w) (transaction_keeps P m w keeps well)
  where
    go : (r : Result User × World) → P r.1.db → P ((lift r.0 >>= answer n) r.1).1.db
    go (ok u, w') h = h
    go (err x, w') h = h

module _ (P : Db → Type 0) (actor : Actor) (target_id : ℕ) (w : World) (before : P w.db) where
  -- Every run of the transaction of a change that returns keeps the property.
  abbrev pub Writes : Amendment → User → Type 0
  Writes (to_role role) target =
      (u : User) (w' : World) → write_role actor target role w.clock w ≡ (ok u, w') → P w'.db
  Writes (to_status active) target =
      (u : User) (w' : World) → write_status target active w ≡ (ok u, w') → P w'.db
  Writes (to_clearance level) target =
      (u : User) (w' : World)
      → write_clearance actor target level w.clock
          (impact (ltb level target.clearance_level) target_id level w.db.incidents) w
        ≡ (ok u, w')
      → P w'.db

  clearance_keeps :
      (target : User) (level : ℕ) (b : Bool)
      → ((u : User) (w' : World)
          → write_clearance actor target level w.clock (impact b target_id level w.db.incidents) w
            ≡ (ok u, w')
          → P w'.db)
      → P
          ((impact_if b target_id level >>= λ (list : List Incident).
              transaction (write_clearance actor target level w.clock list)
              >>= answer (length list))
            w).1.db
  unfolding compute_clearance_impact
  clearance_keeps target level true keeps =
      unchanged_or_keeps P false target
        (write_clearance actor target level w.clock
          (clearance_impact target_id level w.db.incidents))
        _ w keeps before
  clearance_keeps target level false keeps =
      unchanged_or_keeps P false target (write_clearance actor target level w.clock []) _ w keeps
        before

  -- What each transaction keeps, the changes keep.
  pub amend_keeps :
      (change : Amendment)
      → ((target : User)
          → find_user (some target_id) w.db.users ≡ some target
          → Writes change target)
      → P (amend change actor target_id w).1.db
  unfolding amend change_role change_status change_clearance
  amend_keeps (to_role role) keeps = elim (Bool-cases (actor.id == target_id)) [
    | inl self ↦ rw self before
    | inr other ↦ elim (Option-cases (find_user (some target_id) w.db.users)) [
      | inl e ↦ rw (other, e) before
      | inr (target, e) ↦
          rw (other, e)
            (unchanged_or_keeps P (same_role target.role role) target
              (write_role actor target role w.clock) 0 w (keeps target e) before)
    ]
  ]
  amend_keeps (to_status active) keeps =
      elim (Option-cases (find_user (some target_id) w.db.users)) [
        | inl e ↦ rw e before
        | inr (target, e) ↦ rw e (
            unchanged_or_keeps P (same_bool target.is_active active) target
              (write_status target active) 0 w (keeps target e) before)
      ]
  amend_keeps (to_clearance level) keeps = elim (Bool-cases (actor.id == target_id)) [
    | inl self ↦ rw self before
    | inr other ↦ elim (Option-cases (find_user (some target_id) w.db.users)) [
      | inl e ↦ rw (other, e) before
      | inr (target, e) ↦ elim (Bool-cases (target.clearance_level == level)) [
        | inl same ↦ rw (other, e, same) before
        | inr differs ↦
            rw (other, e, differs)
              (clearance_keeps target level (ltb level target.clearance_level) (keeps target e))
      ]
    ]
  ]
