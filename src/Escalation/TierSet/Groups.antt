-- ===== src/Escalation/TierSet/Groups.antt =====
-- What the loops of `TierSetRequestSchema` compute, of the tiers of one severity.
use incident_api.Base.{
  ℕ, ◌≡◌, refl, sym, ap, ◌∙◌, inl, inr, Bool, true, false, List, [], ◌∷◌, ◌++◌, map, ◌==◌, any,
  filter, if◌then◌else◌, Bool-cases, arith,
}
use incident_api.Model.Enums.{Severity, same_severity, same_severity_iff}
use incident_api.Escalation.Tiers.{Tier}
use incident_api.Escalation.TierSet.{
  duplicate_tier, Groups, push_tier, by_severity, same_key, duplicates, new_set, level_of,
  group_issues, all_group_issues,
}

abbrev pub has_severity : Severity → Tier → Bool
has_severity s t = same_severity t.severity s

abbrev pub group_at : Severity → Groups → List Tier
group_at s [] = []
group_at s ((k, list) ∷ rest) = if same_severity k s then list else group_at s rest

pub append_empty : {A : Type 0} (xs ys : List A) → xs ++ ys ≡ [] → (xs ≡ []) × (ys ≡ [])
append_empty [] ys h = (refl, h)
append_empty (x ∷ xs) ys h = absurd (ground (arith, h))

append_one :
    {A : Type 0} (xs : List A) (y : A) (ys : List A) → (xs ++ (y ∷ [])) ++ ys ≡ xs ++ (y ∷ ys)
append_one [] y ys = refl
append_one (x ∷ xs) y ys = ap (◌∷◌ x) (append_one xs y ys)

append_nil : {A : Type 0} (xs : List A) → xs ++ [] ≡ xs
append_nil [] = refl
append_nil (x ∷ xs) = ap (◌∷◌ x) (append_nil xs)

same_severity_swap :
    (a b s : Severity) → same_severity a b ≡ true → same_severity a s ≡ same_severity b s
same_severity_swap a b s h = ap (λ k. same_severity k s) ((same_severity_iff a b).0 h)

same_severity_apart :
    (a b s : Severity)
    → same_severity a b ≡ false
    → same_severity a s ≡ true
    → same_severity b s ≡ false
same_severity_apart a b s h t = ground (arith, h, t)

pushed_same :
    (b : Bool) (list other : List Tier) (t : Tier)
    → (if b then list ++ (t ∷ []) else other)
      ≡ (if b then (if b then list else other) ++ (t ∷ []) else (if b then list else other))
pushed_same true list other t = refl
pushed_same false list other t = refl

appended_if :
    (b : Bool) (xs ys : List Tier) (t : Tier)
    → (if b then xs ++ (t ∷ []) else xs) ++ ys ≡ xs ++ (if b then t ∷ ys else ys)
appended_if true xs ys t = append_one xs t ys
appended_if false xs ys t = refl

push-group :
    (s : Severity) (t : Tier) (groups : Groups)
    → group_at s (push_tier t groups)
      ≡ (if has_severity s t then group_at s groups ++ (t ∷ []) else group_at s groups)
push-group s t [] = refl
push-group s t ((k, list) ∷ rest) = elim (Bool-cases (same_severity k t.severity)) [
  | inl e ↦ rw e (
      rw (same_severity_swap k t.severity s e)
        (pushed_same (same_severity t.severity s) list (group_at s rest) t))
  | inr e ↦ elim (Bool-cases (same_severity k s)) [
    | inl own ↦ rw e (rw (own, same_severity_apart k t.severity s e own) refl)
    | inr other ↦ rw e (rw other (push-group s t rest))
  ]
]

-- The group of a severity holds its tiers in the order of the request.
pub group-filter :
    (s : Severity) (ts : List Tier) (groups : Groups)
    → group_at s (by_severity ts groups) ≡ group_at s groups ++ filter (has_severity s) ts
unfolding by_severity
group-filter s [] groups = sym (append_nil (group_at s groups))
group-filter s (t ∷ ts) groups =
    group-filter s ts (push_tier t groups)
    ∙ ap (λ list. list ++ filter (has_severity s) ts) (push-group s t groups)
    ∙ appended_if (has_severity s t) (group_at s groups) (filter (has_severity s) ts) t

-- The issues of one severity are among those of all.
pub all_groups :
    (s : Severity) (groups : Groups)
    → all_group_issues groups ≡ []
    → group_issues s (group_at s groups) ≡ []
unfolding all_group_issues
all_groups s [] h = refl
all_groups s ((k, list) ∷ rest) h =
    let (first, later) = append_empty (group_issues k list) (all_group_issues rest) h in
    elim (Bool-cases (same_severity k s)) [
      | inl e ↦ rw e (ap (λ j. group_issues j list) (sym ((same_severity_iff k s).0 e)) ∙ first)
      | inr e ↦ rw e (all_groups s rest later)
    ]

filter_in :
    (s : Severity) (t : Tier) (ts : List Tier)
    → has_severity s t ≡ true
    → filter (has_severity s) (t ∷ ts) ≡ t ∷ filter (has_severity s) ts
filter_in s t ts own = rw own refl

filter_out :
    (s : Severity) (t : Tier) (ts : List Tier)
    → has_severity s t ≡ false
    → filter (has_severity s) (t ∷ ts) ≡ filter (has_severity s) ts
filter_out s t ts other = rw other refl

abbrev pub seen_levels : Severity → List Tier → List ℕ
seen_levels s seen = map level_of (filter (has_severity s) seen)

not_seen :
    (s : Severity) (t : Tier) (seen : List Tier)
    → has_severity s t ≡ true
    → any (same_key t) seen ≡ false
    → any (λ l. l == t.level) (seen_levels s seen) ≡ false
not_seen s t [] own h = refl
not_seen s t (u ∷ seen) own h =
    let tail : any (same_key t) seen ≡ false = ground (arith, h) in
    let rest = not_seen s t seen own tail in
    elim (Bool-cases (has_severity s u)) [
      | inl e ↦
          let apart : (u.level == t.level) ≡ false = ground (arith, h, own, e) in
          rw (filter_in s u seen e) (rw (apart, rest) refl)
      | inr e ↦ rw (filter_out s u seen e) rest
    ]

-- Where no key occurs twice, the levels of a severity form a set as they are.
pub new_set-levels :
    (s : Severity) (ts seen : List Tier)
    → duplicates seen ts ≡ []
    → new_set (seen_levels s seen) (seen_levels s ts) ≡ seen_levels s ts
unfolding duplicates new_set
new_set-levels s [] seen h = refl
new_set-levels s (t ∷ ts) seen h = elim (Bool-cases (any (same_key t) seen)) [
  | inl e ↦
      let twice : duplicate_tier t.severity t.level ∷ duplicates (t ∷ seen) ts ≡ [] =
        sym (rw e refl) ∙ h in
      absurd (ground (arith, twice))
  | inr e ↦
      let rest : duplicates (t ∷ seen) ts ≡ [] = sym (rw e refl) ∙ h in
      let later = new_set-levels s ts (t ∷ seen) rest in
      elim (Bool-cases (has_severity s t)) [
        | inl own ↦
            let more =
              ap (λ known. new_set (map level_of known) (seen_levels s ts))
                (filter_in s t seen own) in
            rw (filter_in s t ts own)
              (rw (not_seen s t seen own e) (ap (◌∷◌ t.level) (sym more ∙ later)))
        | inr other ↦
            let same =
              ap (λ known. new_set (map level_of known) (seen_levels s ts))
                (filter_out s t seen other) in
            rw (filter_out s t ts other) (sym same ∙ later)
      ]
]
