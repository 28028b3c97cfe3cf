-- ===== src/Admin/Changes.antt =====
-- What the transactions of `changeRole`, `changeStatus` and `changeClearance` write
-- (src/modules/admin/admin.service.ts), and the invariants of the incidents.
use mathlib.Core.Option
use incident_api.Base.{
  ℕ, ◌≡◌, refl, sym, ap, ◌∙◌, Bool, true, false, not, ◌&&◌, ◌||◌, Option, none, some, List, arith,
  if◌then◌else◌, has_key, find_where_test, update_where, find-update,
}
use incident_api.Model.Enums.{Role, admin, same_role, closed, same_stage}
use incident_api.Model.Rows.{User, Actor, Incident}
use incident_api.Model.World.{World}
use incident_api.Model.Exec.{ok, >>=-eq-ok, ◌>>=◌, ◌>>◌, pure}
use incident_api.Audit.Record.{record_event}
use incident_api.Incidents.Repository.{find_user}
use incident_api.Mutations.WellFormed.{WellFormed, assignee_cleared, cleared}
use incident_api.Admin.{
  user_id, set_role, set_active, update_user, write_role, write_status, guard_last, is_active_admin,
  role_event, active_admin_ids,
}
use incident_api.Admin.Frame.{
  Amendment, to_role, to_status, to_clearance, amend, amend_keeps, Writes,
}
use incident_api.Admin.Keeps.{
  update_user-writes, record_event-keeps, write_clearance-WellFormed, affected,
}

cleared-map :
    (f : User → User) (p : User → Bool) (o : Option User) (row : Incident)
    → ((u : User) → (f u).clearance_level ≡ u.clearance_level)
    → cleared (Option.map (λ u. if p u then f u else u) o) row.severity ≡ cleared o row.severity
cleared-map f p none row keep = refl
cleared-map f p (some u) row keep = ground (arith, keep u)

assignee_cleared-map :
    (id : ℕ) (f : User → User) (users : List User) (o : Option ℕ) (row : Incident)
    → ((u : User) → (f u).clearance_level ≡ u.clearance_level)
    → ((u : User) → user_id (f u) ≡ user_id u)
    → assignee_cleared (update_where (has_key user_id id) f users) o row.severity
      ≡ assignee_cleared users o row.severity
assignee_cleared-map id f users none row keep same = refl
assignee_cleared-map id f users (some j) row keep same =
    rw (find-update user_id (has_key user_id id) f users j same)
      (cleared-map f (has_key user_id id) (find_user (some j) users) row keep)

-- A write to a user that leaves the clearances alone.
users_keep :
    (id : ℕ) (f : User → User) (w w' : World)
    → ((u : User) → (f u).clearance_level ≡ u.clearance_level)
    → ((u : User) → user_id (f u) ≡ user_id u)
    → w'.db.users ≡ update_where (has_key user_id id) f w.db.users
    → w'.db.incidents ≡ w.db.incidents
    → WellFormed w.db
    → WellFormed w'.db
users_keep id f w w' keep same users incidents well = record {
  unique = rw incidents well.unique;
  rows = λ j row there.
      let before = well.rows j row (rw incidents at there) in
      record {
        clock = before.clock;
        documented = before.documented;
        covered = rw users (
            ap (λ (b : Bool). same_stage row.stage closed || b)
              (assignee_cleared-map id f w.db.users row.assigned_investigator_id row keep same)
            ∙ before.covered);
      };
}

guard_last-same : (b : Bool) (id : ℕ) (w w' : World) → guard_last b id w ≡ (ok tt, w') → w' ≡ w
unfolding active_admin_ids
guard_last-same true id w w' h = ground arith
guard_last-same false id w w' h = ground arith

abbrev pub demotes : User → Role → Bool
demotes target role = is_active_admin target && not (same_role role admin)

-- What the transaction of a role change has done when it returns.
pub write_role-writes :
    (actor : Actor) (target : User) (role : Role) (at : ℕ) (w : World) (u : User) (w' : World)
    → write_role actor target role at w ≡ (ok u, w')
    → ((v : World) × (guard_last (demotes target role) target.id w ≡ (ok tt, v)))
      × (w'.db.users ≡ update_where (has_key user_id target.id) (set_role role) w.db.users)
      × (w'.db.incidents ≡ w.db.incidents)
unfolding write_role
write_role-writes actor target role at w u w' h =
    let (u₁, w₁, e₁, h₁) =
      >>=-eq-ok (guard_last (demotes target role) target.id)
        (λ _. update_user target.id (set_role role) >>= λ (r : User).
          record_event (role_event actor target role at) >> pure r)
        w u w' h in
    let (u₂, w₂, e₂, h₂) =
      >>=-eq-ok (update_user target.id (set_role role))
        (λ (r : User). record_event (role_event actor target role at) >> pure r) w₁ u w' h₁ in
    let (u₃, w₃, e₃, h₃) =
      >>=-eq-ok (record_event (role_event actor target role at)) (λ _. pure u₂) w₂ u w' h₂ in
    let start = guard_last-same (demotes target role) target.id w w₁ e₁ in
    let (users₂, incidents₂) = update_user-writes target.id (set_role role) w₁ u₂ w₂ e₂ in
    let (users₃, incidents₃) = record_event-keeps (role_event actor target role at) w₂ w₃ e₃ in
    let last : w' ≡ w₃ = sym (ap (λ r. r.1) h₃) in
    (
      (w₁, e₁),
      ap (λ (v : World). v.db.users) last
          ∙ users₃
          ∙ users₂
          ∙ ap (λ (v : World). update_where (has_key user_id target.id) (set_role role) v.db.users)
              start,
      ap (λ (v : World). v.db.incidents) last
          ∙ incidents₃
          ∙ incidents₂
          ∙ ap (λ (v : World). v.db.incidents) start,
    )

pub write_status-writes :
    (target : User) (active : Bool) (w : World) (u : User) (w' : World)
    → write_status target active w ≡ (ok u, w')
    → ((v : World) × (guard_last (is_active_admin target && not active) target.id w ≡ (ok tt, v)))
      × (w'.db.users ≡ update_where (has_key user_id target.id) (set_active active) w.db.users)
      × (w'.db.incidents ≡ w.db.incidents)
unfolding write_status
write_status-writes target active w u w' h =
    let leaves = is_active_admin target && not active in
    let (u₁, w₁, e₁, h₁) =
      >>=-eq-ok (guard_last leaves target.id) (λ _. update_user target.id (set_active active)) w u
        w' h in
    let start = guard_last-same leaves target.id w w₁ e₁ in
    let (users, incidents) = update_user-writes target.id (set_active active) w₁ u w' h₁ in
    (
      (w₁, e₁),
      users
          ∙ ap
              (λ (v : World).
                update_where (has_key user_id target.id) (set_active active) v.db.users)
              start,
      incidents ∙ ap (λ (v : World). v.db.incidents) start,
    )

-- Every change of a user's role, clearance or status, whatever its outcome, keeps the incidents well
-- formed.
pub amend-WellFormed :
    (change : Amendment) (actor : Actor) (target_id : ℕ) (w : World)
    → WellFormed w.db
    → WellFormed (amend change actor target_id w).1.db
unfolding affected
amend-WellFormed change actor target_id w well =
    amend_keeps WellFormed actor target_id w well change (λ target e. writes change target e)
  where
    writes :
        (change : Amendment) (target : User)
        → find_user (some target_id) w.db.users ≡ some target
        → Writes WellFormed actor target_id w well change target
    writes (to_role role) target e = λ u w' h.
        let (_, users, incidents) = write_role-writes actor target role w.clock w u w' h in
        users_keep target.id (set_role role) w w' (λ _. refl) (λ _. refl) users incidents well
    writes (to_status active) target e = λ u w' h.
        let (_, users, incidents) = write_status-writes target active w u w' h in
        users_keep target.id (set_active active) w w' (λ _. refl) (λ _. refl) users incidents well
    writes (to_clearance level) target e = λ u w' h.
        let same : target.id ≡ target_id =
          ground (arith, find_where_test (has_key user_id target_id) w.db.users target e) in
        write_clearance-WellFormed actor target target_id level w.clock w well e same u w' h
