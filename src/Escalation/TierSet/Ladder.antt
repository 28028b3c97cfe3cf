-- ===== src/Escalation/TierSet/Ladder.antt =====
-- The sets of tiers that `TierSetRequestSchema` accepts: one ladder for each severity.
use incident_api.Base.{
  ℕ, ◌+◌, ◌≤◌, ◌<◌, ◌≡◌, refl, sym, ap, ◌∙◌, inl, inr, true, List, [], ◌∷◌, map, ltb, leb, every,
  filter, sort_by, sort-map, All, All-mono, All-filter, All-sort, Bool-cases, arith,
}
use incident_api.Model.Enums.{Severity}
use incident_api.Escalation.Tiers.{Tier, lower_level}
use incident_api.Escalation.TierSet.{
  not_increasing, not_contiguous, is_contiguous, threshold_issues, neighbour_issues,
  contiguity_issues, level_of, new_set, group_issues, all_group_issues, by_severity, duplicates,
  tier_set_issues, is_tier_input, is_empty, accepts_tier_set,
}
use incident_api.Escalation.TierSet.Groups.{
  has_severity, append_empty, group-filter, all_groups, new_set-levels,
}

-- Levels that count up from `index + 1`, with thresholds that rise from above `previous`.
abbrev pub IsLadder : (index previous : ℕ) → List Tier → Type 0
IsLadder index previous [] = Unit {0}
IsLadder index previous (t ∷ ts) =
    (t.level ≡ index + 1)
    × (previous < t.threshold_minutes)
    × IsLadder (index + 1) t.threshold_minutes ts

abbrev pub HasThreshold : Tier → Type 0
HasThreshold t = 1 ≤ t.threshold_minutes

rising :
    (s : Severity) (index previous : ℕ) (t : Tier) (ts : List Tier)
    → is_contiguous index (map level_of (t ∷ ts)) ≡ true
    → threshold_issues s t ts ≡ []
    → previous < t.threshold_minutes
    → IsLadder index previous (t ∷ ts)
unfolding is_contiguous threshold_issues
rising s index previous t [] levels thresholds above = (ground (arith, levels), above, tt)
rising s index previous t (u ∷ ts) levels thresholds above =
    elim (Bool-cases (leb u.threshold_minutes t.threshold_minutes)) [
      | inl e ↦
          let falls : not_increasing s u.level t.level ∷ threshold_issues s u ts ≡ [] =
            sym (rw e refl) ∙ thresholds in
          absurd (ground (arith, falls))
      | inr e ↦
          let later : threshold_issues s u ts ≡ [] = sym (rw e refl) ∙ thresholds in
          let rest : is_contiguous (index + 1) (map level_of (u ∷ ts)) ≡ true =
            ground (arith, levels) in
          (
            (ground (arith, levels)),
            above,
            rising s (index + 1) t.threshold_minutes u ts rest later (ground (arith, e)),
          )
    ]

sorted-IsLadder :
    (s : Severity) (sorted : List Tier)
    → is_contiguous 0 (map level_of sorted) ≡ true
    → neighbour_issues s sorted ≡ []
    → All HasThreshold sorted
    → IsLadder 0 0 sorted
unfolding neighbour_issues
sorted-IsLadder s [] levels thresholds h = tt
sorted-IsLadder s (t ∷ ts) levels thresholds (above, h) = rising s 0 0 t ts levels thresholds above

contiguous_of :
    (s : Severity) (levels : List ℕ)
    → contiguity_issues s levels ≡ []
    → is_contiguous 0 levels ≡ true
unfolding contiguity_issues
contiguous_of s levels h = elim (Bool-cases (is_contiguous 0 levels)) [
  | inl e ↦ e
  | inr e ↦
      let gap : not_contiguous s levels ∷ [] ≡ [] = sym (rw e refl) ∙ h in
      absurd (ground (arith, gap))
]

is_empty-eq : {A : Type 0} (xs : List A) → is_empty xs ≡ true → xs ≡ []
is_empty-eq [] h = refl
is_empty-eq (x ∷ xs) h = absurd (ground (arith, h))

inputs-HasThreshold : (ts : List Tier) → every is_tier_input ts ≡ true → All HasThreshold ts
unfolding is_tier_input
inputs-HasThreshold [] h = tt
inputs-HasThreshold (t ∷ ts) h = (ground (arith, h), inputs-HasThreshold ts (ground (arith, h)))

accepted_parts :
    (tiers : List Tier)
    → accepts_tier_set tiers ≡ true
    → All HasThreshold tiers × (tier_set_issues tiers ≡ [])
unfolding accepts_tier_set
accepted_parts [] h = absurd (ground (arith, h))
accepted_parts (t ∷ ts) h = (
  inputs-HasThreshold (t ∷ ts) (ground (arith, h)),
  is_empty-eq (tier_set_issues (t ∷ ts)) (ground (arith, h)),
)

abbrev pub tiers_of : Severity → List Tier → List Tier
tiers_of s tiers = sort_by lower_level (filter (has_severity s) tiers)

-- In a set of tiers that the contract accepts, the tiers of each severity, by level, have the levels
-- 1, 2, 3 and so on, each once, with thresholds that rise strictly from one minute or more.
pub accepted-IsLadder :
    (s : Severity) (tiers : List Tier)
    → accepts_tier_set tiers ≡ true
    → IsLadder 0 0 (tiers_of s tiers)
unfolding tier_set_issues group_issues
accepted-IsLadder s tiers h =
    let (inputs, issues) = accepted_parts tiers h in
    let (once, groups) =
      append_empty (duplicates [] tiers) (all_group_issues (by_severity tiers [])) issues in
    let own : List Tier = filter (has_severity s) tiers in
    let group : group_issues s own ≡ [] =
      ap (group_issues s) (sym (group-filter s tiers []))
      ∙ all_groups s (by_severity tiers []) groups in
    let (contiguous, increasing) =
      append_empty (contiguity_issues s (sort_by ltb (new_set [] (map level_of own))))
        (neighbour_issues s (sort_by lower_level own)) group in
    let levels : sort_by ltb (new_set [] (map level_of own))
        ≡ map level_of (sort_by lower_level own) =
      ap (sort_by ltb) (new_set-levels s tiers [] once)
      ∙ sort-map ltb lower_level level_of (λ x y. refl) own in
    sorted-IsLadder s (sort_by lower_level own)
      (ap (is_contiguous 0) (sym levels)
        ∙ contiguous_of s (sort_by ltb (new_set [] (map level_of own))) contiguous)
      increasing
      (All-sort lower_level HasThreshold own (
        All-mono (λ t. HasThreshold t × (has_severity s t ≡ true)) HasThreshold own (λ t r. r.0)
          (All-filter HasThreshold (has_severity s) tiers inputs)))
