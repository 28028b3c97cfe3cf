-- ===== src/Escalation/Tiers/Due.antt =====
-- What `tiersDueFor` of src/jobs/escalation.job.ts returns.
use incident_api.Base.{
  ℕ, ◌+◌, ◌*◌, ◌≤◌, ◌<◌, ◌≡◌, refl, ap, Bool, List, [], ◌∷◌, map, ltb, All, Any, All-map, All-mono,
  All-filter, All-always, Any-filter, Any-mono, Any-map, Any-sort, All-sort, Ascends, sort-Ascends,
  filter, sort_by, ltb→lt, leb→le, lt→ltb, le→leb,
}
use incident_api.Model.Enums.{same_severity, same_severity_iff}
use incident_api.Escalation.Tiers.{
  Tier, DueTier, EscalationCandidate, lower_level, is_due, due_tier, tiers_due_for,
}

-- A tier that the candidate has reached: of its severity, above its level, and past its threshold.
pub record Reached (incident : EscalationCandidate) (now : ℕ) (t : Tier) : Type 0 where
  pub severity : t.severity ≡ incident.severity
  pub above : incident.current_escalation_level < t.level
  pub elapsed : incident.high_severity_since + t.threshold_minutes * 60000 ≤ now

Ascends-map :
    (ts : List Tier)
    → Ascends (λ (t : Tier). t.level) ts
    → Ascends (λ (d : DueTier). d.level) (map due_tier ts)
Ascends-map [] h = tt
Ascends-map (t ∷ ts) (l, h) = (All-map _ due_tier ts l, Ascends-map ts h)

module _ (incident : EscalationCandidate) (tiers : List Tier) (now : ℕ) where
  abbrev pub due : List DueTier
  due = tiers_due_for incident tiers now

  same : Tier → Bool
  same t = same_severity t.severity incident.severity

  above : Tier → Bool
  above t = ltb incident.current_escalation_level t.level

  reached : List Tier
  reached = filter (is_due incident now) (filter above (filter same tiers))

  due-reached : due ≡ map due_tier (sort_by lower_level reached)
  unfolding tiers_due_for reached above same
  due-reached = refl

  reached_sound : All (Reached incident now) reached
  unfolding reached above same
  reached_sound =
      All-mono _ (Reached incident now) _
        (λ t h. record {
          severity = (same_severity_iff t.severity incident.severity).0 h.0.0.1;
          above = ltb→lt _ _ h.0.1;
          elapsed = leb→le _ _ h.1;
        })
        (All-filter _ (is_due incident now) _ (
          All-filter _ above _
            (All-filter (λ _. Unit {0}) same tiers (All-always _ tiers (λ _. tt)))))

  reached_complete :
      (P : Tier → Type 0) → Any (λ t. P t × Reached incident now t) tiers → Any P reached
  unfolding reached above same
  reached_complete P h = Any-filter P (is_due incident now) _ (
      Any-filter _ above _ (
        Any-filter _ same tiers (
          Any-mono _ _ tiers
            (λ t r. (
              ((r.0, le→leb _ _ r.1.elapsed), lt→ltb _ _ r.1.above),
              (same_severity_iff t.severity incident.severity).1 r.1.severity,
            ))
            h)))

  -- Every tier that is found due is above the candidate's level and past its threshold, and the
  -- tiers come in ascending order of level.
  pub tiers_due_sound :
      All
        (λ (d : DueTier).
          (incident.current_escalation_level < d.level)
          × (incident.high_severity_since + d.threshold_minutes * 60000 ≤ now))
        due
      × Ascends (λ (d : DueTier). d.level) due
  tiers_due_sound = rw due-reached (
    All-map _ due_tier _ (
        All-sort lower_level _ reached
          (All-mono _ _ reached (λ t r. (r.above, r.elapsed)) reached_sound)),
    Ascends-map _ (sort-Ascends (λ (t : Tier). t.level) reached),
  )

  -- Every tier of the candidate's severity, above its level and past its threshold, is found due.
  pub tiers_due_complete :
      (t : Tier) → Any (λ s. (s ≡ t) × Reached incident now s) tiers → Any (λ d. d ≡ due_tier t) due
  tiers_due_complete t h = rw due-reached (
      Any-map _ due_tier _ (
        Any-sort lower_level _ reached
          (Any-mono _ _ reached (λ s e. ap due_tier e) (reached_complete (λ s. s ≡ t) h))))
