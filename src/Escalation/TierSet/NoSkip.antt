-- ===== src/Escalation/TierSet/NoSkip.antt =====
-- The tiers that an administrator puts (src/modules/admin/admin.service.ts) and those that the job
-- finds due (src/jobs/escalation.job.ts).
use incident_api.Base.{
  ℕ, ◌+◌, ◌≤◌, ◌≡◌, refl, sym, ap, ◌∙◌, inl, inr, Bool, true, false, List, [], ◌∷◌, map, ltb, ◌==◌,
  filter, some, if◌then◌else◌, insert_by, sort_by, sort-map, filter-sort, sort_sorted, sort-InOrder,
  IsWeakOrder, All, All-sort, All-filter, All-mono, All-always, Bool-cases, arith,
}
use mathlib.Core.Path.{subst}
use incident_api.Model.Enums.{Severity, same_severity, severity_rank}
use incident_api.Model.Rows.{Actor, EscalationTier}
use incident_api.Model.World.{World}
use incident_api.Escalation.Tiers.{
  Tier, DueTier, EscalationCandidate, lower_level, has_elapsed, is_due, due_tier, tiers_due_for,
  tier_of, tier_before, active_tiers, replace_tier_set,
}
use incident_api.Escalation.TierSet.{accepts_tier_set}
use incident_api.Escalation.TierSet.Groups.{has_severity}
use incident_api.Escalation.TierSet.Ladder.{IsLadder, tiers_of, accepted-IsLadder}
use incident_api.Admin.{put_tiers}

-- The levels count up from `level + 1`.
abbrev pub IsConsecutive : (level : ℕ) → List DueTier → Type 0
IsConsecutive level [] = Unit {0}
IsConsecutive level (d ∷ ds) = (d.level ≡ level + 1) × IsConsecutive (level + 1) ds

lower_level-IsWeakOrder : IsWeakOrder lower_level
lower_level-IsWeakOrder = record {
  asym = λ x y h. ground (arith, h);
  trans = λ x y z h k. ground (arith, h, k);
}

module _ (incident : EscalationCandidate) (now : ℕ) where
  abbrev above : Tier → Bool
  above t = ltb incident.current_escalation_level t.level

  none_due :
      (index previous : ℕ) (ts : List Tier)
      → IsLadder index previous ts
      → has_elapsed incident.high_severity_since previous now ≡ false
      → filter (is_due incident now) ts ≡ []
  none_due index previous [] h early = refl
  none_due index previous (t ∷ ts) (level, rises, h) early =
      let not_yet : is_due incident now t ≡ false = ground (arith, rises, early) in
      rw not_yet (none_due (index + 1) t.threshold_minutes ts h not_yet)

  all_above :
      (index previous : ℕ) (ts : List Tier)
      → IsLadder index previous ts
      → incident.current_escalation_level ≤ index
      → filter above ts ≡ ts
  all_above index previous [] h low = refl
  all_above index previous (t ∷ ts) (level, rises, h) low =
      let higher : above t ≡ true = ground (arith, level, low) in
      rw higher (ap (◌∷◌ t) (all_above (index + 1) t.threshold_minutes ts h (omega (arith, low))))

  due_run :
      (index previous : ℕ) (ts : List Tier)
      → IsLadder index previous ts
      → IsConsecutive index (map due_tier (filter (is_due incident now) ts))
  due_run index previous [] h = tt
  due_run index previous (t ∷ ts) (level, rises, h) = elim (Bool-cases (is_due incident now t)) [
    | inl e ↦ rw e (level, due_run (index + 1) t.threshold_minutes ts h)
    | inr e ↦ rw e (rw (none_due (index + 1) t.threshold_minutes ts h e) tt)
  ]

  due_above :
      (index previous : ℕ) (ts : List Tier)
      → IsLadder index previous ts
      → index ≤ incident.current_escalation_level
      → IsConsecutive incident.current_escalation_level
          (map due_tier (filter (is_due incident now) (filter above ts)))
  due_above index previous [] h low = tt
  due_above index previous (t ∷ ts) (level, rises, h) low = elim (Bool-cases (above t)) [
    | inl e ↦
        let here : index ≡ incident.current_escalation_level = ground (arith, e, level, low) in
        let whole = all_above index previous (t ∷ ts) (level, rises, h) (ground (arith, here)) in
        subst
          (λ k.
            IsConsecutive k (map due_tier (filter (is_due incident now) (filter above (t ∷ ts)))))
          here (rw whole (due_run index previous (t ∷ ts) (level, rises, h)))
    | inr e ↦ rw e (due_above (index + 1) t.threshold_minutes ts h (ground (arith, e, level)))
  ]

  due-IsConsecutive :
      (tiers : List Tier)
      → IsLadder 0 0 (tiers_of incident.severity tiers)
      → IsConsecutive incident.current_escalation_level (tiers_due_for incident tiers now)
  unfolding tiers_due_for
  due-IsConsecutive tiers h =
      let own : List Tier = filter (has_severity incident.severity) tiers in
      let sorted : sort_by lower_level (filter (is_due incident now) (filter above own))
          ≡ filter (is_due incident now) (filter above (sort_by lower_level own)) =
        sym
          (filter-sort lower_level lower_level-IsWeakOrder (is_due incident now) (filter above own))
        ∙ ap (filter (is_due incident now))
            (sym (filter-sort lower_level lower_level-IsWeakOrder above own)) in
      subst (λ ts. IsConsecutive incident.current_escalation_level (map due_tier ts)) (sym sorted)
        (due_above 0 0 (sort_by lower_level own) h (omega arith))

-- By two numbers, the first before the second.
abbrev by_pair : (a l b m : ℕ) → Bool
by_pair a l b m = if a == b then ltb l m else ltb a b

by_pair_asym : (a l b m : ℕ) → by_pair a l b m ≡ true → by_pair b m a l ≡ false
by_pair_asym a l b m h = ground (arith, h)

by_pair_trans :
    (a l b m c n : ℕ) → by_pair b m a l ≡ false → by_pair c n b m ≡ false → by_pair c n a l ≡ false
by_pair_trans a l b m c n h k = ground (arith, h, k)

-- The row of a tier that was put.
abbrev row_of : (updated_by_id : ℕ) → Tier → EscalationTier
row_of updated_by_id t = record {
  severity = t.severity;
  level = t.level;
  threshold_minutes = t.threshold_minutes;
  is_active = true;
  updated_by_id = some updated_by_id;
}

module _ (updated_by_id : ℕ) where
  abbrev put_before : Tier → Tier → Bool
  put_before a b = tier_before (row_of updated_by_id a) (row_of updated_by_id b)

  put_before-IsWeakOrder : IsWeakOrder put_before
  put_before-IsWeakOrder = record {
    asym = λ x y h.
        by_pair_asym (severity_rank x.severity) x.level (severity_rank y.severity) y.level h;
    trans = λ x y z h k.
        by_pair_trans (severity_rank x.severity) x.level (severity_rank y.severity) y.level
          (severity_rank z.severity) z.level h k;
  }

  all_active :
      (ts : List Tier)
      → filter (λ (r : EscalationTier). r.is_active) (map (row_of updated_by_id) ts)
        ≡ map (row_of updated_by_id) ts
  all_active [] = refl
  all_active (t ∷ ts) = ap (◌∷◌ (row_of updated_by_id t)) (all_active ts)

  read_back : (ts : List Tier) → map tier_of (map (row_of updated_by_id) ts) ≡ ts
  read_back [] = refl
  read_back (t ∷ ts) = ap (◌∷◌ t) (read_back ts)

  active-put :
      (ts : List Tier) → active_tiers (map (row_of updated_by_id) ts) ≡ sort_by put_before ts
  unfolding active_tiers
  active-put ts =
      ap (λ rows. map tier_of (sort_by tier_before rows)) (all_active ts)
      ∙ ap (map tier_of) (sort-map tier_before put_before (row_of updated_by_id) (λ x y. refl) ts)
      ∙ read_back (sort_by put_before ts)

  module _ (s : Severity) where
    abbrev Own : Tier → Type 0
    Own t = has_severity s t ≡ true

    same_order : (x y : Tier) → Own x → Own y → put_before x y ≡ lower_level x y
    same_order x y p q =
        let equal : same_severity x.severity y.severity ≡ true = ground (arith, p, q) in
        rw equal refl

    same_insert :
        (x : Tier) (ys : List Tier)
        → Own x
        → All Own ys
        → insert_by put_before x ys ≡ insert_by lower_level x ys
    same_insert x [] p h = refl
    same_insert x (y ∷ ys) p (q, h) = rw (same_order y x q p, same_insert x ys p h) refl

    same_sort : (ts : List Tier) → All Own ts → sort_by put_before ts ≡ sort_by lower_level ts
    same_sort [] h = refl
    same_sort (t ∷ ts) (p, h) =
        ap (insert_by put_before t) (same_sort ts h)
        ∙ same_insert t (sort_by lower_level ts) p (All-sort lower_level Own ts h)

    -- Storing and reading the tiers leaves those of a severity, by level, as they are.
    tiers_of-put :
        (ts : List Tier) → tiers_of s (active_tiers (map (row_of updated_by_id) ts)) ≡ tiers_of s ts
    tiers_of-put ts =
        let own : List Tier = filter (has_severity s) ts in
        let mine : All Own own =
          All-mono (λ t. Unit {0} × Own t) Own own (λ t r. r.1)
            (All-filter (λ t. Unit {0}) (has_severity s) ts
              (All-always (λ t. Unit {0}) ts (λ t. tt))) in
        ap (tiers_of s) (active-put ts)
        ∙ ap (sort_by lower_level)
            (filter-sort put_before put_before-IsWeakOrder (has_severity s) ts ∙ same_sort own mine)
        ∙ sort_sorted lower_level lower_level-IsWeakOrder (sort_by lower_level own)
            (sort-InOrder lower_level lower_level-IsWeakOrder own)

-- After an administrator has put a set of tiers that its contract accepts, the tiers that the job
-- finds due for a candidate, at any time, are the levels that follow its current one, in order and
-- without a gap.
pub put_tiers-IsConsecutive :
    (actor : Actor) (request : List Tier) (incident : EscalationCandidate) (now : ℕ) (w : World)
    → accepts_tier_set request ≡ true
    → IsConsecutive incident.current_escalation_level
        (tiers_due_for incident (active_tiers (put_tiers actor request w).1.db.tiers) now)
unfolding put_tiers replace_tier_set
put_tiers-IsConsecutive actor request incident now w accepted =
    due-IsConsecutive incident now (active_tiers (map (row_of actor.id) request)) (
      subst (IsLadder 0 0) (sym (tiers_of-put actor.id incident.severity request))
        (accepted-IsLadder incident.severity request accepted))
