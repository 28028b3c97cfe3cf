-- ===== src/Base/Keys.antt =====
-- Tables with a key column: no two rows have the same key, and what a write does to a lookup.
use Prim.Native.Nat.{ℕ, ◌+◌, ◌≤◌}
use mathlib.Core.Path.{◌≡◌, refl, subst}
use mathlib.Core.Logic.{◌≢◌, inl, inr}
use mathlib.Core.Bool.{Bool, true, ◌&&◌}
use mathlib.Core.Option
use mathlib.Core.Option.{Option, none, some}
use mathlib.Core.List.{List, [], ◌∷◌}
use native.Mathlib.Omega.{arith}
use incident_api.Base.Tests.{if◌then◌else◌, ◌==◌, ==_refl, Bool-cases}
use incident_api.Base.Lists.{All}
use incident_api.Base.Tables.{find_where, find_where_test, update_where, count_where, All-find}

module _ {A : Type 0} (key : A → ℕ) where
  abbrev pub Unique : List A → Type 0
  Unique [] = Unit {0}
  Unique (x ∷ xs) = All (λ y. key y ≢ key x) xs × Unique xs

  abbrev pub has_key : ℕ → A → Bool
  has_key k x = key x == k

  -- A write that keeps the keys changes a lookup by key row by row.
  pub find-update :
      (p : A → Bool) (f : A → A) (xs : List A) (k : ℕ)
      → ((x : A) → key (f x) ≡ key x)
      → find_where (has_key k) (update_where p f xs)
        ≡ Option.map (λ x. if p x then f x else x) (find_where (has_key k) xs)
  find-update p f [] k keep = refl
  find-update p f (x ∷ xs) k keep = ground (arith, find-update p f xs k keep, keep x)

  All-key_update :
      (p : A → Bool) (f : A → A) (k : ℕ) (xs : List A)
      → ((x : A) → key (f x) ≡ key x)
      → All (λ y. key y ≢ k) xs
      → All (λ y. key y ≢ k) (update_where p f xs)
  All-key_update p f k [] keep h = tt
  All-key_update p f k (x ∷ xs) keep (n, h) =
      (ground (arith, keep x), All-key_update p f k xs keep h)

  pub update-Unique :
      (p : A → Bool) (f : A → A) (xs : List A)
      → ((x : A) → key (f x) ≡ key x)
      → Unique xs
      → Unique (update_where p f xs)
  update-Unique p f [] keep u = tt
  update-Unique p f (x ∷ xs) keep (n, u) = (
    subst (λ (k : ℕ). All (λ y. key y ≢ k) (update_where p f xs)) (ground (arith, keep x))
        (All-key_update p f (key x) xs keep n),
    update-Unique p f xs keep u,
  )

  count_absent :
      (k : ℕ) (q : A → Bool) (xs : List A)
      → All (λ y. key y ≢ k) xs
      → count_where (λ x. has_key k x && q x) xs ≡ 0
  count_absent k q [] h = refl
  count_absent k q (x ∷ xs) (n, h) = ground (arith, count_absent k q xs h)

  -- Where keys are unique, at most one row is matched by a test that fixes the key.
  pub count-le-one :
      (k : ℕ) (q : A → Bool) (xs : List A)
      → Unique xs
      → count_where (λ x. has_key k x && q x) xs ≤ 1
  count-le-one k q [] u = omega arith
  count-le-one k q (x ∷ xs) (n, u) = elim (Bool-cases (key x == k)) [
    | inl e ↦
        let absent =
          count_absent k q xs (subst (λ (j : ℕ). All (λ y. key y ≢ j) xs) (ground arith) n) in
        ground (arith, absent)
    | inr e ↦ ground (arith, count-le-one k q xs u)
  ]

  -- If a test that fixes the key matches, the row with that key passes it.
  pub find_of_count :
      (k : ℕ) (q : A → Bool) (xs : List A)
      → Unique xs
      → count_where (λ x. has_key k x && q x) xs ≢ 0
      → (x : A) × (find_where (has_key k) xs ≡ some x) × (q x ≡ true)
  find_of_count k q [] u h = absurd (h refl)
  find_of_count k q (x ∷ xs) (n, u) h = elim (Bool-cases (key x == k)) [
    | inl e ↦
        let absent =
          count_absent k q xs (subst (λ (j : ℕ). All (λ y. key y ≢ j) xs) (ground arith) n) in
        (x, ground arith, ground (arith, absent))
    | inr e ↦
        let (y, found, test) = find_of_count k q xs u (ground arith) in (y, ground arith, test)
  ]

  find_absent :
      (k : ℕ) (q : A → Bool) (xs : List A)
      → All (λ y. key y ≢ k) xs
      → find_where (λ x. has_key k x && q x) xs ≡ none
  find_absent k q [] h = refl
  find_absent k q (x ∷ xs) (n, h) = ground (arith, find_absent k q xs h)

  -- A lookup with one more test, where keys are unique.
  pub find_and_test :
      (k : ℕ) (q : A → Bool) (xs : List A) (x : A)
      → find_where (λ y. has_key k y && q y) xs ≡ some x
      → Unique xs
      → (find_where (has_key k) xs ≡ some x) × (q x ≡ true)
  find_and_test k q [] x h u = cc
  find_and_test k q (y ∷ xs) x h (n, u) = elim (Bool-cases (key y == k)) [
    | inl e ↦
        let absent =
          find_absent k q xs (subst (λ (j : ℕ). All (λ z. key z ≢ j) xs) (ground arith) n) in
        ground (arith, absent)
    | inr e ↦ let (found, test) = find_and_test k q xs x (ground arith) u in (ground arith, test)
  ]

  -- A write to one key leaves a lookup by another alone.
  pub find-update_other :
      (k j : ℕ) (q : A → Bool) (f : A → A) (xs : List A)
      → ((x : A) → key (f x) ≡ key x)
      → j ≢ k
      → find_where (has_key j) (update_where (λ x. has_key k x && q x) f xs)
        ≡ find_where (has_key j) xs
  find-update_other k j q f [] keep n = refl
  find-update_other k j q f (x ∷ xs) keep n =
      ground (arith, find-update_other k j q f xs keep n, keep x)

  -- A write to one key, at a row that passes its test.
  pub find-update_self :
      (k : ℕ) (q : A → Bool) (f : A → A) (xs : List A) (x : A)
      → ((y : A) → key (f y) ≡ key y)
      → find_where (has_key k) xs ≡ some x
      → q x ≡ true
      → find_where (has_key k) (update_where (λ y. has_key k y && q y) f xs) ≡ some (f x)
  find-update_self k q f [] x keep h t = cc
  find-update_self k q f (y ∷ xs) x keep h t =
      ground (arith, find-update_self k q f xs x keep, keep y)

  -- A test that fixes the key matches one row, if the row with that key passes it.
  pub count_of_find :
      (k : ℕ) (q : A → Bool) (xs : List A) (x : A)
      → Unique xs
      → find_where (has_key k) xs ≡ some x
      → q x ≡ true
      → count_where (λ y. has_key k y && q y) xs ≡ 1
  count_of_find k q [] x u h t = cc
  count_of_find k q (y ∷ xs) x (n, u) h t = elim (Bool-cases (key y == k)) [
    | inl e ↦
        let absent =
          count_absent k q xs (subst (λ (j : ℕ). All (λ z. key z ≢ j) xs) (ground arith) n) in
        ground (arith, absent)
    | inr e ↦ ground (arith, count_of_find k q xs x u)
  ]

  pub find_both :
      (k : ℕ) (q : A → Bool) (xs : List A) (x : A)
      → find_where (has_key k) xs ≡ some x
      → q x ≡ true
      → find_where (λ y. has_key k y && q y) xs ≡ some x
  find_both k q [] x h t = cc
  find_both k q (y ∷ xs) x h t = ground (arith, find_both k q xs x)

  -- Where keys are unique, what holds of all lookups holds of all rows.
  pub All-lookups :
      (P : A → Type 0) (xs : List A)
      → Unique xs
      → ((k : ℕ) (x : A) → find_where (has_key k) xs ≡ some x → P x)
      → All P xs
  All-lookups P [] u h = tt
  All-lookups P (x ∷ xs) (n, u) h = (
    h (key x) x (rw (==_refl (key x)) refl),
    All-lookups P xs u (λ k y e.
        let t = find_where_test (has_key k) xs y e in
        let other = All-find (λ z. key z ≢ key x) (has_key k) xs y n e in
        h k y (ground (arith, t, other, e))),
  )

  -- A row that a lookup by another test finds is the one with its key.
  pub find_by_key :
      (p : A → Bool) (xs : List A) (x : A)
      → Unique xs
      → find_where p xs ≡ some x
      → find_where (has_key (key x)) xs ≡ some x
  find_by_key p [] x u h = cc
  find_by_key p (y ∷ xs) x (n, u) h = elim (Bool-cases (p y)) [
    | inl e ↦ ground (arith, ==_refl (key x))
    | inr e ↦
        let rest : find_where p xs ≡ some x = ground arith in
        let other = All-find (λ z. key z ≢ key y) p xs x n rest in
        ground (arith, find_by_key p xs x u rest, other)
  ]

  count_update_absent :
      (p q : A → Bool) (f : A → A) (k : ℕ) (xs : List A)
      → All (λ y. key y ≢ k) xs
      → count_where p (update_where (λ y. has_key k y && q y) f xs) ≡ count_where p xs
  count_update_absent p q f k [] h = refl
  count_update_absent p q f k (x ∷ xs) (n, h) = ground (arith, count_update_absent p q f k xs h)

  -- A write to the row with a key changes a count by that row alone.
  pub count-update :
      (p q : A → Bool) (f : A → A) (k : ℕ) (xs : List A) (x : A)
      → Unique xs
      → find_where (has_key k) xs ≡ some x
      → q x ≡ true
      → count_where p (update_where (λ y. has_key k y && q y) f xs) + (if p x then 1 else 0)
        ≡ count_where p xs + (if p (f x) then 1 else 0)
  count-update p q f k [] x u h t = cc
  count-update p q f k (y ∷ xs) x (n, u) h t = elim (Bool-cases (key y == k)) [
    | inl e ↦
        let absent =
          count_update_absent p q f k xs
            (subst (λ (j : ℕ). All (λ z. key z ≢ j) xs) (ground arith) n) in
        ground (arith, absent)
    | inr e ↦ ground (arith, count-update p q f k xs x u)
  ]
