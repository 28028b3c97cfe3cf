-- ===== src/Admin/Preview.antt =====
-- `previewClearanceImpact` and `changeClearance` of src/modules/admin/admin.service.ts compared.
use incident_api.Base.{
  ℕ, ◌<◌, ◌≡◌, ap, inl, inr, true, false, some, List, arith, ◌==◌, ltb, lt→ltb, length, Bool-cases,
}
use incident_api.Model.Rows.{User, Actor, Incident}
use incident_api.Model.World.{World}
use incident_api.Model.Exec.{Result, ok, err, continue, transaction}
use incident_api.Incidents.Repository.{find_user}
use incident_api.Admin.{
  preview_clearance_impact, change_clearance, clearance_impact, write_clearance, answer,
}

answered_count :
    (n count : ℕ) (answered : User) (r : Result User × World) (w' : World)
    → continue (answer n) r ≡ (ok (record { user = answered; affected_incident_count = count }), w')
    → n ≡ count
answered_count n count answered (ok u, v) w' h = cc
answered_count n count answered (err e, v) w' h = cc

module _ (actor : Actor) (target_id level : ℕ) (w : World) (target answered : User) (count : ℕ)
    (w' : World) (found : find_user (some target_id) w.db.users ≡ some target)
    (lowers : level < target.clearance_level) where
  -- When a change that lowers a clearance succeeds, the number of affected incidents that it answers
  -- is the number that the preview announces in the same world.
  pub clearance_preview :
      change_clearance actor target_id level w
        ≡ (ok (record { user = answered; affected_incident_count = count }), w')
      → (list : List Incident) × (preview_clearance_impact target_id level w
          ≡ (ok (list, count), w))
  unfolding change_clearance preview_clearance_impact
  clearance_preview h = elim (Bool-cases (actor.id == target_id)) [
    | inl self ↦ absurd (ground (arith, rw self at h))
    | inr other ↦
        let list = clearance_impact target_id level w.db.incidents in
        let differs : (target.clearance_level == level) ≡ false = ground arith in
        let below : ltb level target.clearance_level ≡ true = lt→ltb _ _ lowers in
        let counted : length list ≡ count =
          answered_count (length list) count answered
            (transaction (write_clearance actor target level w.clock list) w) w'
            (rw (other, found, differs, below) at h) in
        (list, rw found (ap (λ (n : ℕ). (ok (list, n), w)) counted))
  ]
