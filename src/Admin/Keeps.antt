-- ===== src/Admin/Keeps.antt =====
-- The transaction of `changeClearance` (src/modules/admin/admin.service.ts) and the invariants of the
-- incidents.
use mathlib.Core.Option
use mathlib.Core.Path.{subst}
use incident_api.Base.{
  ℕ, ◌≡◌, refl, sym, ap, ◌∙◌, ◌⊎◌, inl, inr, Bool, true, false, ◌||◌, Option, none, some, List, [],
  ◌∷◌, arith, ◌==◌, leb, ltb, All, Any, if◌then◌else◌, has_key, update_where, ==_iff, find-update,
  find_where_test, Any-filter, Any-mono, All-find, All-member, All-lookups, Bool-cases,
  Option-cases,
}
use incident_api.Model.Enums.{closed, severity_rank, same_stage}
use incident_api.Model.Rows.{User, Actor, Incident, AuditInput}
use incident_api.Model.World.{World}
use incident_api.Model.Exec.{ok, >>=-eq-ok, ◌>>◌, pure}
use incident_api.Policy.{must_unassign_on_raise}
use incident_api.Audit.Record.{record_event}
use incident_api.Incidents.Repository.{find_user, incident_id, is_assigned_non_closed}
use incident_api.Mutations.WellFormed.{RowOk, WellFormed, assignee_cleared, cleared}
use incident_api.Admin.{
  user_id, set_clearance, strand_all, clearance_impact, update_user, write_clearance,
  clearance_event, impact,
}
use incident_api.Admin.Cascade.{Pending, strand_all-Pending}

-- The users after one user's clearance has changed.
abbrev cleared_users : (target_id level : ℕ) → List User → List User
cleared_users target_id level users =
    update_where (has_key user_id target_id) (set_clearance level) users

find-cleared :
    (target_id level j : ℕ) (users : List User)
    → find_user (some j) (cleared_users target_id level users)
      ≡ Option.map
          (λ u. if has_key user_id target_id u then set_clearance level u else u)
          (find_user (some j) users)
find-cleared target_id level j users =
    find-update user_id (has_key user_id target_id) (set_clearance level) users j (λ _. refl)

module _ (users : List User) (target : User) (target_id level : ℕ)
    (found : find_user (some target_id) users ≡ some target) (incidents : List Incident)
    (row : Incident) (member : Any (λ a. a ≡ row) incidents) where
  impact_member :
      is_assigned_non_closed target_id row ≡ true
      → must_unassign_on_raise (some level) row.severity ≡ true
      → Any (λ a. a ≡ row) (clearance_impact target_id level incidents)
  unfolding clearance_impact
  impact_member assigned stranded = Any-filter _ _ _ (
      Any-filter _ _ incidents
        (Any-mono _ _ incidents (λ a e. ((e, rw e stranded), rw e assigned)) member))

  assigned_cases :
      (j : ℕ)
      → row.assigned_investigator_id ≡ some j
      → same_stage row.stage closed ≡ false
      → cleared (find_user (some j) users) row.severity ≡ true
      → (cleared (find_user (some j) (cleared_users target_id level users)) row.severity ≡ true)
        ⊎ Any (λ a. a ≡ row) (impact (ltb level target.clearance_level) target_id level incidents)
  assigned_cases j assigned open_stage was = elim (Bool-cases (j == target_id)) [
    | inr other ↦ elim (Option-cases (find_user (some j) users)) [
      | inl e ↦ absurd (ground (arith, was, e))
      | inr (u, e) ↦ inl (
          rw find-cleared
            (rw e (ground (arith, find_where_test (has_key user_id j) users u e, e, was))))
    ]
    | inl same ↦
        let here : find_user (some j) users ≡ some target =
          subst (λ (k : ℕ). find_user (some k) users ≡ some target)
            (sym ((==_iff j target_id).0 same)) found in
        elim (Bool-cases (leb (severity_rank row.severity) level)) [
          | inl enough ↦ inl (
              rw find-cleared (
                rw here
                  (ground (arith, find_where_test (has_key user_id j) users target here, enough))))
          | inr short ↦
              let lowers : ltb level target.clearance_level ≡ true = ground (
                arith,
                subst (λ (o : Option User). cleared o row.severity ≡ true) here was,
                short,
              ) in
              inr (
                rw lowers (
                  impact_member (ground (arith, assigned, open_stage, same))
                    (ground (arith, short))))
        ]
  ]

  start-Pending :
      RowOk users row
      → Pending
          (cleared_users target_id level users)
          (impact (ltb level target.clearance_level) target_id level incidents)
          row
  start-Pending h = record {
    clock = h.clock;
    documented = h.documented;
    waits = waits (row.assigned_investigator_id) refl (same_stage row.stage closed) refl;
  }
    where
      waits :
          (o : Option ℕ)
          → row.assigned_investigator_id ≡ o
          → (b : Bool) → same_stage row.stage closed ≡ b
          → ((b || assignee_cleared (cleared_users target_id level users) o row.severity) ≡ true)
            ⊎ Any
                (λ a. a ≡ row)
                (impact (ltb level target.clearance_level) target_id level incidents)
      waits o e true f = inl refl
      waits none e false f = inl refl
      waits (some j) e false f = assigned_cases j e f (rw (e, f) at h.covered)

All-zip :
    {A : Type 0} (P Q : A → Type 0) {R : A → Type 0} (xs : List A)
    → ((x : A) → P x → Q x → R x)
    → All P xs
    → All Q xs
    → All R xs
All-zip P Q [] f h k = tt
All-zip P Q (x ∷ xs) f (p, h) (q, k) = (f x p q, All-zip P Q xs f h k)

pub update_user-writes :
    (id : ℕ) (f : User → User) (w : World) (u : User) (w' : World)
    → update_user id f w ≡ (ok u, w')
    → (w'.db.users ≡ update_where (has_key user_id id) f w.db.users)
      × (w'.db.incidents ≡ w.db.incidents)
unfolding update_user
update_user-writes id f w u w' h = elim (Option-cases (find_user (some id) w.db.users)) [
  | inl e ↦ absurd (ground (arith, e))
  | inr (old, e) ↦ (ground (arith, e), ground (arith, e))
]

pub record_event-keeps :
    (input : AuditInput) (w w' : World)
    → record_event input w ≡ (ok tt, w')
    → (w'.db.users ≡ w.db.users) × (w'.db.incidents ≡ w.db.incidents)
unfolding record_event
record_event-keeps input w w' h =
    (ap (λ r. r.1.db.users) (sym h), ap (λ r. r.1.db.incidents) (sym h))

settled :
    {users users' : List User} {row : Incident}
    → users' ≡ users
    → Pending users [] row
    → RowOk users' row
settled e h = rw e (record {
  clock = h.clock;
  documented = h.documented;
  covered = elim (h.waits) [ inl c ↦ c | inr m ↦ elim m [ ] ];
})

module _ (actor : Actor) (target : User) (target_id level at : ℕ) (w : World)
    (well : WellFormed w.db) (found : find_user (some target_id) w.db.users ≡ some target)
    (same : target.id ≡ target_id) where
  unfoldable pub affected : List Incident
  affected = impact (ltb level target.clearance_level) target_id level w.db.incidents

  start-All : All (Pending (cleared_users target_id level w.db.users) affected) w.db.incidents
  unfolding affected
  start-All =
      All-zip _ _ w.db.incidents
        (λ row m h. start-Pending w.db.users target target_id level found w.db.incidents row m h)
        (All-member w.db.incidents)
        (All-lookups incident_id (RowOk w.db.users) w.db.incidents well.unique well.rows)

  pub write_clearance-WellFormed :
      (u : User) (w' : World)
      → write_clearance actor target level at affected w ≡ (ok u, w')
      → WellFormed w'.db
  unfolding write_clearance
  write_clearance-WellFormed u w' h =
      let (u₁, w₁, e₁, h₁) = >>=-eq-ok (update_user target.id (set_clearance level)) _ w u w' h in
      let (u₂, w₂, e₂, h₂) =
        >>=-eq-ok (record_event (clearance_event actor target level at))
          (λ _. strand_all actor target.id at affected >> pure u₁) w₁ u w' h₁ in
      let (u₃, w₃, e₃, h₃) =
        >>=-eq-ok (strand_all actor target.id at affected) (λ _. pure u₁) w₂ u w' h₂ in
      let (users₁, incidents₁) = update_user-writes target.id (set_clearance level) w u₁ w₁ e₁ in
      let (users₂, incidents₂) =
        record_event-keeps (clearance_event actor target level at) w₁ w₂ e₂ in
      let users : w₂.db.users ≡ cleared_users target_id level w.db.users =
        users₂ ∙ users₁ ∙ ap (λ (k : ℕ). cleared_users k level w.db.users) same in
      let incidents : w₂.db.incidents ≡ w.db.incidents = incidents₂ ∙ incidents₁ in
      let (users₃, unique, all) =
        strand_all-Pending actor target.id at affected w₂ w₃ e₃ (rw incidents well.unique)
          (rw (incidents, users) start-All) in
      let last : w' ≡ w₃ = sym (ap (λ r. r.1) h₃) in
      rw last (record {
        unique = unique;
        rows = λ j row there. settled users₃ (
            All-find (Pending w₂.db.users []) (has_key incident_id j) w₃.db.incidents row all
              there);
      })
