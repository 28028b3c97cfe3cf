-- ===== src/Admin/Answers.antt =====
-- The user that a change of src/modules/admin/admin.service.ts answers with is the stored one.
use mathlib.Core.Option
use incident_api.Base.{
  ℕ, ◌≡◌, refl, ap, ◌∙◌, inl, inr, Bool, true, false, not, ◌&&◌, Option, none, some, List, [],
  arith, ◌==◌, ltb, leb, length, if◌then◌else◌, has_key, find_where, find_where_test, update_where,
  find-update, Bool-cases, Option-cases,
}
use mathlib.Core.Path.{subst}
use incident_api.Model.Enums.{Role, same_role}
use incident_api.Model.Rows.{User, Actor, Incident, AuditInput}
use incident_api.Model.World.{World}
use incident_api.Model.Exec.{
  Result, ok, err, Exec, transaction, end_transaction, continue, >>=-eq-ok, ◌>>=◌, ◌>>◌, pure,
}
use incident_api.Audit.Record.{record_event}
use incident_api.Incidents.Repository.{find_user}
use incident_api.Admin.{
  user_id, set_role, set_active, set_clearance, update_user, written_user, write_role, write_status,
  write_clearance, change_role, change_status, change_clearance, AdminUserMutation, unchanged_or,
  same_bool, answer, guard_last, is_active_admin, role_event, clearance_event, strand_all,
  compute_clearance_impact, impact_if, clearance_impact,
}
use incident_api.Admin.Frame.{Amendment, to_role, to_status, to_clearance, amend}
use incident_api.Admin.Changes.{demotes}
use incident_api.Admin.Keeps.{record_event-keeps}
use incident_api.Admin.LastAdmin.{strand_all-users}

module _ (id : ℕ) where
  abbrev Stored : User → World → Type 0
  Stored u w = find_user (some id) w.db.users ≡ some u

  -- What a change answers, if it does.
  abbrev pub Answered : Result AdminUserMutation × World → Type 0
  Answered (ok a, w) = Stored a.user w
  Answered (err e, w) = Unit {0}

  unchanged_or-Answered :
      (b : Bool) (target : User) (m : Exec User) (n : ℕ) (w : World)
      → Stored target w
      → ((u : User) (w' : World) → m w ≡ (ok u, w') → Stored u w')
      → Answered (unchanged_or b target (transaction m >>= answer n) w)
  unchanged_or-Answered true target m n w before writes = before
  unchanged_or-Answered false target m n w before writes = go (m w) refl
    where
      go :
          (r : Result User × World) → m w ≡ r → Answered (continue (answer n) (end_transaction w r))
      go (ok u, w') e = writes u w' e
      go (err x, w') e = tt

  abbrev StoredIn : Result User × World → Type 0
  StoredIn (ok u, w) = Stored u w
  StoredIn (err e, w) = Unit {0}

  updated_row :
      (f : User → User) (users : List User) (v : User)
      → ((u : User) → user_id (f u) ≡ user_id u)
      → find_where (has_key user_id id) users ≡ some v
      → find_where (has_key user_id id) (update_where (has_key user_id id) f users) ≡ some (f v)
  updated_row f users v keep e =
      let test = find_where_test (has_key user_id id) users v e in
      find-update user_id (has_key user_id id) f users id keep
      ∙ ap (Option.map (λ x. if has_key user_id id x then f x else x)) e
      ∙ rw test refl

  update_user-Stored :
      (f : User → User) (w : World) (u : User) (w' : World)
      → ((v : User) → user_id (f v) ≡ user_id v)
      → update_user id f w ≡ (ok u, w')
      → Stored u w'
  unfolding update_user
  update_user-Stored f w u w' keep h =
      subst StoredIn h (go (find_where (has_key user_id id) w.db.users) refl)
    where
      go :
          (found : Option User)
          → find_where (has_key user_id id) w.db.users ≡ found
          → StoredIn (written_user id f w found)
      go none e = tt
      go (some v) e =
          elim (Bool-cases (leb 1 (f v).clearance_level && leb (f v).clearance_level 4)) [
            | inl fits ↦ rw fits (updated_row f w.db.users v keep e)
            | inr apart ↦ rw apart tt
          ]

module _ (actor : Actor) (target : User) (w : World) (u : User) (w' : World) where
  write_role-Stored :
      (role : Role) (at : ℕ)
      → write_role actor target role at w ≡ (ok u, w')
      → find_user (some target.id) w'.db.users ≡ some u
  unfolding write_role
  write_role-Stored role at h =
      let (u₁, w₁, e₁, h₁) =
        >>=-eq-ok (guard_last (demotes target role) target.id)
          (λ _. update_user target.id (set_role role) >>= λ (r : User).
            record_event (role_event actor target role at) >> pure r)
          w u w' h in
      let (u₂, w₂, e₂, h₂) =
        >>=-eq-ok (update_user target.id (set_role role))
          (λ (r : User). record_event (role_event actor target role at) >> pure r) w₁ u w' h₁ in
      after_event (role_event actor target role at) u₂ w₂ h₂
        (update_user-Stored target.id (set_role role) w₁ u₂ w₂ (λ v. refl) e₂)
    where
      after_event :
          (e : AuditInput) (r : User) (v : World)
          → (record_event e >> pure r) v ≡ (ok u, w')
          → find_user (some target.id) v.db.users ≡ some r
          → find_user (some target.id) w'.db.users ≡ some u
      after_event e r v h stored =
          let (done, v', written, h') = >>=-eq-ok (record_event e) (λ _. pure r) v u w' h in
          subst (StoredIn target.id) h'
            (ap (find_user (some target.id)) (record_event-keeps e v v' written).0 ∙ stored)

  write_status-Stored :
      (active : Bool)
      → write_status target active w ≡ (ok u, w')
      → find_user (some target.id) w'.db.users ≡ some u
  unfolding write_status
  write_status-Stored active h =
      let (u₁, w₁, e₁, h₁) =
        >>=-eq-ok (guard_last (is_active_admin target && not active) target.id)
          (λ _. update_user target.id (set_active active)) w u w' h in
      update_user-Stored target.id (set_active active) w₁ u w' (λ v. refl) h₁

  write_clearance-Stored :
      (level at : ℕ) (list : List Incident)
      → write_clearance actor target level at list w ≡ (ok u, w')
      → find_user (some target.id) w'.db.users ≡ some u
  unfolding write_clearance
  write_clearance-Stored level at list h =
      let (u₁, w₁, e₁, h₁) =
        >>=-eq-ok (update_user target.id (set_clearance level))
          (λ (r : User).
            record_event (clearance_event actor target level at)
            >> (strand_all actor target.id at list >> pure r))
          w u w' h in
      let (u₂, w₂, e₂, h₂) =
        >>=-eq-ok (record_event (clearance_event actor target level at))
          (λ _. strand_all actor target.id at list >> pure u₁) w₁ u w' h₁ in
      let (u₃, w₃, e₃, h₃) =
        >>=-eq-ok (strand_all actor target.id at list) (λ _. pure u₁) w₂ u w' h₂ in
      let stored = update_user-Stored target.id (set_clearance level) w u₁ w₁ (λ v. refl) e₁ in
      let same : w₃.db.users ≡ w₁.db.users =
        strand_all-users actor target.id at list w₂ w₃ e₃
        ∙ (record_event-keeps (clearance_event actor target level at) w₁ w₂ e₂).0 in
      subst (StoredIn target.id) h₃ (ap (find_user (some target.id)) same ∙ stored)

module _ (actor : Actor) (target_id : ℕ) (w : World) where
  found_id :
      (target : User) → find_user (some target_id) w.db.users ≡ some target → target.id ≡ target_id
  found_id target e =
      ground (arith, find_where_test (has_key user_id target_id) w.db.users target e)

  to_clearance-Answered :
      (target : User) (level : ℕ) (b : Bool)
      → find_user (some target_id) w.db.users ≡ some target
      → Answered target_id (
          (impact_if b target_id level >>= λ (list : List Incident).
          transaction (write_clearance actor target level w.clock list) >>= answer (length list))
            w)
  unfolding compute_clearance_impact
  to_clearance-Answered target level b e = by_impact b
    where
      written :
          (list : List Incident)
          → Answered target_id (
              (transaction (write_clearance actor target level w.clock list)
                  >>= answer (length list))
                w)
      written list =
          unchanged_or-Answered target_id false target
            (write_clearance actor target level w.clock list) (length list) w e
            (λ u w' h.
              subst (λ k. find_user (some k) w'.db.users ≡ some u) (found_id target e)
                (write_clearance-Stored actor target w u w' level w.clock list h))

      by_impact :
          (b : Bool)
          → Answered target_id (
              (impact_if b target_id level >>= λ (list : List Incident).
              transaction (write_clearance actor target level w.clock list)
              >>= answer (length list))
                w)
      by_impact true = written (clearance_impact target_id level w.db.incidents)
      by_impact false = written []

  pub amend-Answered : (change : Amendment) → Answered target_id (amend change actor target_id w)
  unfolding amend change_role change_status change_clearance
  amend-Answered (to_role role) = elim (Bool-cases (actor.id == target_id)) [
    | inl self ↦ rw self tt
    | inr other ↦ elim (Option-cases (find_user (some target_id) w.db.users)) [
      | inl e ↦ rw (other, e) tt
      | inr (target, e) ↦
          rw (other, e)
            (unchanged_or-Answered target_id (same_role target.role role) target
              (write_role actor target role w.clock) 0 w e
              (λ u w' h.
                subst (λ k. find_user (some k) w'.db.users ≡ some u) (found_id target e)
                  (write_role-Stored actor target w u w' role w.clock h)))
    ]
  ]
  amend-Answered (to_status active) = elim (Option-cases (find_user (some target_id) w.db.users)) [
    | inl e ↦ rw e tt
    | inr (target, e) ↦ rw e (
        unchanged_or-Answered target_id (same_bool target.is_active active) target
          (write_status target active) 0 w e
          (λ u w' h.
            subst (λ k. find_user (some k) w'.db.users ≡ some u) (found_id target e)
              (write_status-Stored actor target w u w' active h)))
  ]
  amend-Answered (to_clearance level) = elim (Bool-cases (actor.id == target_id)) [
    | inl self ↦ rw self tt
    | inr other ↦ elim (Option-cases (find_user (some target_id) w.db.users)) [
      | inl e ↦ rw (other, e) tt
      | inr (target, e) ↦ elim (Bool-cases (target.clearance_level == level)) [
        | inl same ↦ rw (other, e, same) e
        | inr differs ↦
            rw (other, e, differs)
              (to_clearance-Answered target level (ltb level target.clearance_level) e)
      ]
    ]
  ]
