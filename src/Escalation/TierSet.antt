-- ===== src/Escalation/TierSet.antt =====
-- `TierSetRequestSchema` of src/contracts/admin.contract.ts: which sets of tiers a request may carry.
pub mod Groups
pub mod Ladder
pub mod NoSkip
use incident_api.Base.{
  ℕ, ◌+◌, Bool, true, false, ◌&&◌, List, [], ◌∷◌, ◌++◌, map, ltb, leb, ◌==◌, any, every,
  if◌then◌else◌, sort_by,
}
use incident_api.Model.Enums.{Severity, same_severity}
use incident_api.Escalation.Tiers.{Tier, lower_level}

-- What `ctx.addIssue` reports.
pub data TierIssue : Type 0 where
  duplicate_tier : Severity → (level : ℕ) → TierIssue
  not_contiguous : Severity → (levels : List ℕ) → TierIssue
  not_increasing : Severity → (level previous : ℕ) → TierIssue

-- `bySeverity`: a map in the order of insertion.
abbrev pub Groups : Type 0
Groups = List (Severity × List Tier)

abbrev pub push_tier : Tier → Groups → Groups
push_tier t [] = (t.severity, t ∷ []) ∷ []
push_tier t ((s, list) ∷ rest) =
    if same_severity s t.severity
    then (s, list ++ (t ∷ [])) ∷ rest
    else (s, list) ∷ push_tier t rest

unfoldable pub by_severity : List Tier → Groups → Groups
by_severity [] groups = groups
by_severity (t ∷ ts) groups = by_severity ts (push_tier t groups)

abbrev pub same_key : Tier → Tier → Bool
same_key t u = same_severity u.severity t.severity && u.level == t.level

-- The loop with `seenKeys`.
unfoldable pub duplicates : (seen : List Tier) → List Tier → List TierIssue
duplicates seen [] = []
duplicates seen (t ∷ ts) =
    let rest = duplicates (t ∷ seen) ts in
    if any (same_key t) seen then duplicate_tier t.severity t.level ∷ rest else rest

-- `[...new Set(levels)]`.
unfoldable pub new_set : (seen : List ℕ) → List ℕ → List ℕ
new_set seen [] = []
new_set seen (x ∷ xs) =
    let known = new_set seen xs in
    let fresh = new_set (x ∷ seen) xs in if any (λ y. y == x) seen then known else x ∷ fresh

unfoldable pub is_contiguous : (index : ℕ) → (levels : List ℕ) → Bool
is_contiguous index [] = true
is_contiguous index (level ∷ levels) = level == index + 1 && is_contiguous (index + 1) levels

-- The loop over neighbours of the tiers by level.
unfoldable pub threshold_issues : Severity → (previous : Tier) → List Tier → List TierIssue
threshold_issues severity previous [] = []
threshold_issues severity previous (current ∷ rest) =
    let later = threshold_issues severity current rest in
    if leb current.threshold_minutes previous.threshold_minutes
    then not_increasing severity current.level previous.level ∷ later
    else later

abbrev pub neighbour_issues : Severity → List Tier → List TierIssue
unfolding threshold_issues
neighbour_issues severity [] = []
neighbour_issues severity (first ∷ rest) = threshold_issues severity first rest

abbrev pub level_of : Tier → ℕ
level_of t = t.level

abbrev pub levels_of : List Tier → List ℕ
unfolding new_set
levels_of list = sort_by ltb (new_set [] (map level_of list))

abbrev pub contiguity_issues : Severity → (levels : List ℕ) → List TierIssue
unfolding is_contiguous
contiguity_issues severity levels =
    if is_contiguous 0 levels then [] else not_contiguous severity levels ∷ []

unfoldable pub group_issues : Severity → List Tier → List TierIssue
unfolding contiguity_issues neighbour_issues levels_of
group_issues severity list =
    contiguity_issues severity (levels_of list)
    ++ neighbour_issues severity (sort_by lower_level list)

unfoldable pub all_group_issues : Groups → List TierIssue
unfolding group_issues
all_group_issues [] = []
all_group_issues ((severity, list) ∷ rest) = group_issues severity list ++ all_group_issues rest

unfoldable pub tier_set_issues : List Tier → List TierIssue
unfolding duplicates all_group_issues by_severity
tier_set_issues tiers = duplicates [] tiers ++ all_group_issues (by_severity tiers [])

-- `TierInputSchema`.
unfoldable pub is_tier_input : Tier → Bool
is_tier_input t = leb 1 t.level && leb 1 t.threshold_minutes

abbrev pub is_empty : {A : Type 0} → List A → Bool
is_empty [] = true
is_empty (x ∷ xs) = false

unfoldable pub accepts_tier_set : List Tier → Bool
unfolding is_tier_input tier_set_issues
accepts_tier_set [] = false
accepts_tier_set (t ∷ ts) = every is_tier_input (t ∷ ts) && is_empty (tier_set_issues (t ∷ ts))
