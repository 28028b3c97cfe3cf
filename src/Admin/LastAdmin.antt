-- ===== src/Admin/LastAdmin.antt =====
-- The active administrators under the changes of src/modules/admin/admin.service.ts.
use incident_api.Base.{
  ℕ, ◌+◌, ◌≤◌, ◌≡◌, ◌≢◌, refl, sym, ap, ◌∙◌, inl, inr, Bool, true, false, not, ◌&&◌, some, List, [],
  ◌∷◌, map, arith, ◌==◌, ltb, length, any, All, filter, if◌then◌else◌, Unique, has_key, find_where,
  find_where_test, update_where, count_where, count-eq-length-filter, update-Unique, Bool-cases,
}
use mathlib.Core.Path.{subst}
use incident_api.Model.Rows.{User, Actor, Incident}
use incident_api.Model.World.{World, Db}
use incident_api.Model.Exec.{ok, >>=-eq-ok, ◌>>◌, pure}
use incident_api.Audit.Record.{record_event}
use incident_api.Incidents.Repository.{find_user}
use incident_api.Admin.{
  user_id, set_role, set_active, set_clearance, update_user, write_clearance, is_active_admin,
  guard_last, active_admin_ids, strand, strand_all, clearance_event, impact,
}
use incident_api.Admin.Frame.{
  Amendment, to_role, to_status, to_clearance, amend, amend_keeps, Writes,
}
use incident_api.Admin.Changes.{demotes, write_role-writes, write_status-writes}
use incident_api.Admin.Cascade.{strand-writes}
use incident_api.Admin.Keeps.{update_user-writes, record_event-keeps}

module _ {A : Type 0} (key : A → ℕ) (p : A → Bool) (f : A → A) (k : ℕ) where
  update_absent :
      (xs : List A)
      → All (λ y. key y ≢ k) xs
      → count_where p (update_where (has_key key k) f xs) ≡ count_where p xs
  update_absent [] h = refl
  update_absent (x ∷ xs) (n, h) = ground (arith, update_absent xs h)

  -- A write to one row changes a count by that row alone.
  count_update :
      (xs : List A) (x : A)
      → Unique key xs
      → find_where (has_key key k) xs ≡ some x
      → count_where p (update_where (has_key key k) f xs) + (if p x then 1 else 0)
        ≡ count_where p xs + (if p (f x) then 1 else 0)
  count_update [] x u h = cc
  count_update (y ∷ xs) x (n, u) h = elim (Bool-cases (key y == k)) [
    | inl e ↦
        let absent =
          update_absent xs (subst (λ (j : ℕ). All (λ z. key z ≢ j) xs) (ground arith) n) in
        ground (arith, absent)
    | inr e ↦ ground (arith, count_update xs x u)
  ]

length-map : {A B : Type 0} (f : A → B) (xs : List A) → length (map f xs) ≡ length xs
length-map f [] = refl
length-map f (x ∷ xs) = omega (arith, length-map f xs)

includes_found :
    (p : User → Bool) (k : ℕ) (users : List User) (u : User)
    → find_where (has_key user_id k) users ≡ some u
    → p u ≡ true
    → any (λ id. id == k) (map user_id (filter p users)) ≡ true
includes_found p k [] u h t = cc
includes_found p k (v ∷ users) u h t = elim (Bool-cases (user_id v == k)) [
  | inl e ↦ ground arith
  | inr e ↦ ground (arith, includes_found p k users u)
]

abbrev pub HasAdmin : Db → Type 0
HasAdmin db = Unique user_id db.users × (1 ≤ count_where is_active_admin db.users)

module _ (w : World) (k : ℕ) (target : User) (unique : Unique user_id w.db.users)
    (found : find_user (some k) w.db.users ≡ some target) where
  -- A guard that passes leaves another active administrator.
  guard_last-more :
      (b : Bool) (w' : World)
      → guard_last b k w ≡ (ok tt, w')
      → (w' ≡ w)
        × (b ≡ true → is_active_admin target ≡ true → 2 ≤ count_where is_active_admin w.db.users)
  unfolding active_admin_ids
  guard_last-more false w' h = (ground arith, λ t. absurd (ground arith))
  guard_last-more true w' h = (
    ground arith,
    λ _ t.
        let one = includes_found is_active_admin k w.db.users target found t in
        let many = length-map user_id (filter is_active_admin w.db.users) in
        ground (arith, one, many, count-eq-length-filter is_active_admin w.db.users, h),
  )

  written-HasAdmin :
      (f : User → User) (w' : World)
      → ((u : User) → user_id (f u) ≡ user_id u)
      → w'.db.users ≡ update_where (has_key user_id k) f w.db.users
      → 1 ≤ count_where is_active_admin w.db.users
      → (is_active_admin target ≡ true
          → is_active_admin (f target) ≡ false
          → 2 ≤ count_where is_active_admin w.db.users)
      → HasAdmin w'.db
  written-HasAdmin f w' keep users some_admin more =
      let counted = count_update user_id is_active_admin f k w.db.users target unique found in
      rw users (
        update-Unique user_id (has_key user_id k) f w.db.users keep unique,
        ground (arith, counted, some_admin, more),
      )

strand-users :
    (actor : Actor) (target_id at : ℕ) (a : Incident) (w w' : World)
    → strand actor target_id at a w ≡ (ok tt, w')
    → w'.db.users ≡ w.db.users
strand-users actor target_id at a w w' h = (strand-writes actor target_id at a w w' h).1

pub strand_all-users :
    (actor : Actor) (target_id at : ℕ) (list : List Incident) (w w' : World)
    → strand_all actor target_id at list w ≡ (ok tt, w')
    → w'.db.users ≡ w.db.users
unfolding strand_all
strand_all-users actor target_id at [] w w' h = ap (λ r. r.1.db.users) (sym h)
strand_all-users actor target_id at (a ∷ list) w w' h =
    let (done, v, e, f) =
      >>=-eq-ok (strand actor target_id at a) (λ _. strand_all actor target_id at list) w tt w' h in
    strand_all-users actor target_id at list v w' f ∙ strand-users actor target_id at a w v e

write_clearance-users :
    (actor : Actor) (target : User) (level at : ℕ) (list : List Incident) (w : World) (u : User)
    (w' : World)
    → write_clearance actor target level at list w ≡ (ok u, w')
    → w'.db.users ≡ update_where (has_key user_id target.id) (set_clearance level) w.db.users
unfolding write_clearance
write_clearance-users actor target level at list w u w' h =
    let (u₁, w₁, e₁, h₁) =
      >>=-eq-ok (update_user target.id (set_clearance level))
        (λ (r : User).
          record_event (clearance_event actor target level at)
          >> (strand_all actor target.id at list >> pure r))
        w u w' h in
    let (u₂, w₂, e₂, h₂) =
      >>=-eq-ok (record_event (clearance_event actor target level at))
        (λ _. strand_all actor target.id at list >> pure u₁) w₁ u w' h₁ in
    let (u₃, w₃, e₃, h₃) =
      >>=-eq-ok (strand_all actor target.id at list) (λ _. pure u₁) w₂ u w' h₂ in
    ap (λ r. r.1.db.users) (sym h₃)
    ∙ strand_all-users actor target.id at list w₂ w₃ e₃
    ∙ (record_event-keeps (clearance_event actor target level at) w₁ w₂ e₂).0
    ∙ (update_user-writes target.id (set_clearance level) w u₁ w₁ e₁).0

-- If user ids are unique and there is an active administrator, this stays so under every change of a
-- user's role, clearance or status.
pub amend-HasAdmin :
    (change : Amendment) (actor : Actor) (target_id : ℕ) (w : World)
    → HasAdmin w.db
    → HasAdmin (amend change actor target_id w).1.db
amend-HasAdmin change actor target_id w (unique, some_admin) =
    amend_keeps HasAdmin actor target_id w (unique, some_admin) change
      (λ target e.
        let same : target.id ≡ target_id =
          ground (arith, find_where_test (has_key user_id target_id) w.db.users target e) in
        writes change target (rw (← same) at e))
  where
    writes :
        (change : Amendment) (target : User)
        → find_user (some target.id) w.db.users ≡ some target
        → Writes HasAdmin actor target_id w (unique, some_admin) change target
    writes (to_role role) target e = λ u w' h.
        let ((v, passes), users, _) = write_role-writes actor target role w.clock w u w' h in
        let more = guard_last-more w target.id target unique e (demotes target role) v passes in
        written-HasAdmin w target.id target unique e (set_role role) w' (λ _. refl) users some_admin
          (λ was not_now. more.1 (ground arith) was)
    writes (to_status active) target e = λ u w' h.
        let ((v, passes), users, _) = write_status-writes target active w u w' h in
        let more =
          guard_last-more w target.id target unique e (is_active_admin target && not active) v
            passes in
        written-HasAdmin w target.id target unique e (set_active active) w' (λ _. refl) users
          some_admin (λ was not_now. more.1 (ground arith) was)
    writes (to_clearance level) target e = λ u w' h.
        written-HasAdmin w target.id target unique e (set_clearance level) w' (λ _. refl)
          (write_clearance-users actor target level w.clock
            (impact (ltb level target.clearance_level) target_id level w.db.incidents) w u w' h)
          some_admin (λ was not_now. absurd (ground arith))
