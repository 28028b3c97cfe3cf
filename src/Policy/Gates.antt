-- ===== src/Policy/Gates.antt =====
-- The gates of a closure compared: src/policy/closure.policy.ts counts code units after `trim`, the
-- constraint `closed_requires_rca` of prisma/migrations counts characters after `btrim`.
use mathlib.Core.List.{reverse, reverse-append, reverse-cons}
use incident_api.Base.{
  ℕ, suc, ◌≤◌, ◌<◌, ◌≡◌, refl, ap, Bool, true, false, some, [], ◌∷◌, ◌++◌, arith, length,
  length-append, All, All-append, le→leb, leb→le, inl, inr, Bool-cases,
}
use incident_api.Model.Text.{
  Text, is_js_space, is_sql_space, drop_while, trim_by, char_length, is_pair,
}
use incident_api.Policy.{meets_min_length, meets_sql_length}

-- No code unit is one half of a surrogate pair or above.
abbrev pub IsPlain : Text → Type 0
IsPlain s = All (λ c. c < 55296) s

sql_space-js : (c : ℕ) → is_sql_space c ≡ true → is_js_space c ≡ true
unfolding is_sql_space is_js_space
sql_space-js c h = ground arith

not_pair : (c d : ℕ) → c < 55296 → is_pair c d ≡ false
unfolding is_pair
not_pair c d h = ground arith

char_length-plain : (s : Text) → IsPlain s → char_length s ≡ length s
unfolding char_length
char_length-plain [] h = refl
char_length-plain (c ∷ []) h = refl
char_length-plain (c ∷ d ∷ s) (p, h) = rw (not_pair c d p) (ap suc (char_length-plain (d ∷ s) h))

drop_while-part : (p : ℕ → Bool) (t : Text) → (pre : Text) × (t ≡ pre ++ drop_while p t)
unfolding drop_while
drop_while-part p [] = ([], refl)
drop_while-part p (d ∷ t) = elim (Bool-cases (p d)) [
  | inl e ↦ let (pre, h) = drop_while-part p t in (d ∷ pre, rw e (ap (λ (r : Text). d ∷ r) h))
  | inr e ↦ ([], rw e)
]

drop_while_shorter : (p : ℕ → Bool) (s : Text) → length (drop_while p s) ≤ length s
unfolding drop_while
drop_while_shorter p [] = omega arith
drop_while_shorter p (c ∷ s) = ground (arith, drop_while_shorter p s)

length-reverse : (s : Text) → length (reverse s) ≡ length s
length-reverse [] = refl
length-reverse (c ∷ s) = rw reverse-cons (rw length-append (omega (arith, length-reverse s)))

All-reverse : (P : ℕ → Type 0) (s : Text) → All P s → All P (reverse s)
All-reverse P [] h = tt
All-reverse P (c ∷ s) (p, h) =
    rw reverse-cons (All-append P (reverse s) (c ∷ []) (All-reverse P s h) (p, tt))

module _ (p q : ℕ → Bool) (le : (c : ℕ) → q c ≡ true → p c ≡ true) where
  drop_while-suffix : (s : Text) → (pre : Text) × (drop_while q s ≡ pre ++ drop_while p s)
  unfolding drop_while
  drop_while-suffix [] = ([], refl)
  drop_while-suffix (c ∷ s) = elim (Bool-cases (q c)) [
    | inl e ↦ let (pre, h) = drop_while-suffix s in (pre, rw (e, le c e) h)
    | inr e ↦ elim (Bool-cases (p c)) [
      | inl d ↦
          let (pre, h) = drop_while-part p s in (c ∷ pre, rw (e, d) (ap (λ (r : Text). c ∷ r) h))
      | inr d ↦ ([], rw (e, d))
    ]
  ]

  drop_while-length : (s t : Text) → length (drop_while p s) ≤ length (drop_while q (s ++ t))
  unfolding drop_while
  drop_while-length [] t = omega arith
  drop_while-length (c ∷ s) t = elim (Bool-cases (q c)) [
    | inl e ↦ rw (e, le c e) (drop_while-length s t)
    | inr e ↦ ground (arith, drop_while_shorter p s, length-append s t)
  ]

  -- What trims more leaves no more.
  trim_by-length : (s : Text) → length (trim_by p s) ≤ length (trim_by q s)
  unfolding trim_by
  trim_by-length s =
      let (pre, h) = drop_while-suffix s in
      rw (h, reverse-append, length-reverse, length-reverse)
        (drop_while-length (reverse (drop_while p s)) (reverse pre))

drop_while-All : (P : ℕ → Type 0) (p : ℕ → Bool) (s : Text) → All P s → All P (drop_while p s)
unfolding drop_while
drop_while-All P p [] h = tt
drop_while-All P p (c ∷ s) h = elim (Bool-cases (p c)) [
  | inl e ↦ rw e (drop_while-All P p s h.1)
  | inr e ↦ rw e h
]

trim_by-IsPlain : (p : ℕ → Bool) (s : Text) → IsPlain s → IsPlain (trim_by p s)
unfolding trim_by
trim_by-IsPlain p s h =
    let P : ℕ → Type 0 = λ c. c < 55296 in
    All-reverse P (drop_while p (reverse (drop_while p s)))
      (drop_while-All P p _ (All-reverse P (drop_while p s) (drop_while-All P p s h)))

-- On text without surrogate pairs, what passes the service's gate for a closure passes the
-- database's constraint.
pub gates_agree :
    (s : Text) → IsPlain s → meets_min_length (some s) ≡ true → meets_sql_length (some s) ≡ true
unfolding meets_min_length meets_sql_length
gates_agree [] h k = cc
gates_agree (c ∷ s) h k =
    let shorter = trim_by-length is_js_space is_sql_space sql_space-js (c ∷ s) in
    let counted =
      char_length-plain (trim_by is_sql_space (c ∷ s)) (trim_by-IsPlain is_sql_space (c ∷ s) h) in
    le→leb 20 _ (omega (arith, shorter, counted, leb→le 20 _ k))
