-- ===== src/Analytics/Sums.antt =====
-- Sums over lists, as the reports take them, and what a filter does to them.
use incident_api.Base.{
  ℕ, ◌+◌, ◌≡◌, refl, Bool, List, [], ◌∷◌, ◌++◌, map, arith, if◌then◌else◌, filter, find_where,
  count_where, none,
}
use incident_api.Analytics.{sum_of}

pub sum-map :
    {A B : Type 0} (f : B → ℕ) (g : A → B) (xs : List A)
    → sum_of f (map g xs) ≡ sum_of (λ x. f (g x)) xs
sum-map f g [] = refl
sum-map f g (x ∷ xs) = omega (arith, sum-map f g xs)

module _ {A : Type 0} where
  pub sum-append : (f : A → ℕ) (xs ys : List A) → sum_of f (xs ++ ys) ≡ sum_of f xs + sum_of f ys
  sum-append f [] ys = omega arith
  sum-append f (x ∷ xs) ys = omega (arith, sum-append f xs ys)

  pub sum-add : (f g : A → ℕ) (xs : List A) → sum_of (λ x. f x + g x) xs ≡ sum_of f xs + sum_of g xs
  sum-add f g [] = refl
  sum-add f g (x ∷ xs) = omega (arith, sum-add f g xs)

  pub sum-zero : (f : A → ℕ) (xs : List A) → ((x : A) → f x ≡ 0) → sum_of f xs ≡ 0
  sum-zero f [] z = refl
  sum-zero f (x ∷ xs) z = omega (arith, z x, sum-zero f xs z)

  pub sum-congr : (f g : A → ℕ) (xs : List A) → ((x : A) → f x ≡ g x) → sum_of f xs ≡ sum_of g xs
  sum-congr f g [] e = refl
  sum-congr f g (x ∷ xs) e = omega (arith, e x, sum-congr f g xs e)

  pub sum-filter :
      (f : A → ℕ) (q : A → Bool) (xs : List A)
      → sum_of f (filter q xs) ≡ sum_of (λ x. if q x then f x else 0) xs
  sum-filter f q [] = refl
  sum-filter f q (x ∷ xs) = ground (arith, sum-filter f q xs)

  pub filter-append :
      (q : A → Bool) (xs ys : List A) → filter q (xs ++ ys) ≡ filter q xs ++ filter q ys
  filter-append q [] ys = refl
  filter-append q (x ∷ xs) ys = ground (arith, filter-append q xs ys)

  pub find_absent :
      (p q : A → Bool) (xs : List A) → count_where p xs ≡ 0 → find_where p (filter q xs) ≡ none
  find_absent p q [] h = refl
  find_absent p q (x ∷ xs) h = ground (arith, find_absent p q xs)
