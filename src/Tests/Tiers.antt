-- ===== src/Tests/Tiers.antt =====
-- The tiers of the job's tests as a request of an administrator.
use incident_api.Base.{◌≡◌, refl, true, false, [], ◌∷◌}
use incident_api.Model.Enums.{high}
use incident_api.Escalation.Tiers.{tiers_due_for, active_tiers}
use incident_api.Escalation.TierSet.{accepts_tier_set}
use incident_api.Escalation.TierSet.Ladder.{IsLadder, tiers_of, accepted-IsLadder}
use incident_api.Escalation.TierSet.NoSkip.{IsConsecutive, put_tiers-IsConsecutive}
use incident_api.Admin.{put_tiers}
use incident_api.Tests.Fixtures.{long_text, administrator, start}
use incident_api.Tests.Escalations.{candidate, tiers}

tiers_accepted : accepts_tier_set tiers ≡ true
unfolding accepts_tier_set
tiers_accepted = refl

-- A set that begins at level 2, and one whose thresholds fall.
gap_refused :
    accepts_tier_set (record { severity = high; level = 2; threshold_minutes = 60 } ∷ []) ≡ false
unfolding accepts_tier_set
gap_refused = refl

fall_refused :
    accepts_tier_set (
      record { severity = high; level = 1; threshold_minutes = 60 }
      ∷ record { severity = high; level = 2; threshold_minutes = 30 }
      ∷ [])
    ≡ false
unfolding accepts_tier_set
fall_refused = refl

accepted-IsLadder_example : IsLadder 0 0 (tiers_of high tiers)
accepted-IsLadder_example = accepted-IsLadder high tiers tiers_accepted

put_tiers-IsConsecutive_example : IsConsecutive 0 (
    tiers_due_for candidate
      (active_tiers (put_tiers administrator tiers (start long_text)).1.db.tiers)
      3601000)
put_tiers-IsConsecutive_example =
    put_tiers-IsConsecutive administrator tiers candidate 3601000 (start long_text) tiers_accepted
