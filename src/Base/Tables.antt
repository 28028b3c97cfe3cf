-- ===== src/Base/Tables.antt =====
-- Database tables as lists of rows: the reads and writes that the repositories ask for.
use Prim.Native.Nat.{ℕ, suc, ◌+◌, ◌≤◌, ◌<◌}
use mathlib.Core.Path.{◌≡◌, refl, ap, subst}
use mathlib.Core.Logic.{inl, inr}
use mathlib.Core.Bool.{Bool, true, false}
use mathlib.Core.Option.{Option, none, some}
use mathlib.Core.List.{List, [], ◌∷◌}
use native.Mathlib.Omega.{arith}
use incident_api.Base.Tests.{if◌then◌else◌, Bool-cases}
use incident_api.Base.Lists.{length, All, Any, filter}

module _ {ℓ} {A : Type ℓ} where
  -- `findFirst({ where })`, `findUnique({ where })`.
  abbrev pub find_where : (A → Bool) → List A → Option A
  find_where p [] = none
  find_where p (x ∷ xs) = if p x then some x else find_where p xs

  -- `updateMany({ where, data })`: the table after, and the number of rows that matched.
  abbrev pub update_where : (A → Bool) → (A → A) → List A → List A
  update_where p f [] = []
  update_where p f (x ∷ xs) = (if p x then f x else x) ∷ update_where p f xs

  -- `count({ where })`.
  abbrev pub count_where : (A → Bool) → List A → ℕ
  count_where p [] = 0
  count_where p (x ∷ xs) = (if p x then 1 else 0) + count_where p xs

  pub find_where_test : (p : A → Bool) (xs : List A) (x : A) → find_where p xs ≡ some x → p x ≡ true
  find_where_test p [] x h = cc
  find_where_test p (y ∷ xs) x h = ground (arith, find_where_test p xs x)

  pub count-eq-length-filter :
      (p : A → Bool) (xs : List A) → count_where p xs ≡ length (filter p xs)
  count-eq-length-filter p [] = refl
  count-eq-length-filter p (x ∷ xs) = ground (arith, count-eq-length-filter p xs)

  pub count-le-length : (p : A → Bool) (xs : List A) → count_where p xs ≤ length xs
  count-le-length p [] = omega arith
  count-le-length p (x ∷ xs) = ground (arith, count-le-length p xs)

  pub length-update :
      (p : A → Bool) (f : A → A) (xs : List A) → length (update_where p f xs) ≡ length xs
  length-update p f [] = refl
  length-update p f (x ∷ xs) = ap suc (length-update p f xs)

  -- With no match nothing is written.
  pub update_none :
      (p : A → Bool) (f : A → A) (xs : List A) → count_where p xs ≡ 0 → update_where p f xs ≡ xs
  update_none p f [] h = refl
  update_none p f (x ∷ xs) h = ground (arith, update_none p f xs)

  pub All-update {κ} :
      (P : A → Type κ) (p : A → Bool) (f : A → A) (xs : List A)
      → ((x : A) → p x ≡ true → P x → P (f x))
      → All P xs
      → All P (update_where p f xs)
  All-update P p f [] k h = tt
  All-update P p f (x ∷ xs) k (q, h) = (step (p x) refl, All-update P p f xs k h)
    where
      step : (b : Bool) → p x ≡ b → P (if b then f x else x)
      step true e = k x e q
      step false e = q

  -- A write that turns one property of the rows into another.
  pub All-update_to {κ μ} :
      (P : A → Type κ) (Q : A → Type μ) (p : A → Bool) (f : A → A) (xs : List A)
      → ((x : A) → p x ≡ true → P x → Q (f x))
      → ((x : A) → p x ≡ false → P x → Q x)
      → All P xs
      → All Q (update_where p f xs)
  All-update_to P Q p f [] hit miss h = tt
  All-update_to P Q p f (x ∷ xs) hit miss (q, h) =
      (step (p x) refl, All-update_to P Q p f xs hit miss h)
    where
      step : (b : Bool) → p x ≡ b → Q (if b then f x else x)
      step true e = hit x e q
      step false e = miss x e q

  pub All-find {κ} :
      (P : A → Type κ) (p : A → Bool) (xs : List A) (x : A)
      → All P xs
      → find_where p xs ≡ some x
      → P x
  All-find P p [] x h e = cc
  All-find P p (y ∷ xs) x (q, h) e = elim (Bool-cases (p y)) [
    | inl t ↦ subst P (ground arith) q
    | inr t ↦ All-find P p xs x h (ground arith)
  ]

module _ {A : Type 0} where
  -- A test that implies another, and fails at one row that passes it, has fewer matches.
  pub count_where_le :
      (p q : A → Bool) (xs : List A)
      → ((x : A) → q x ≡ true → p x ≡ true)
      → count_where q xs ≤ count_where p xs
  count_where_le p q [] le = omega arith
  count_where_le p q (x ∷ xs) le = ground (arith, count_where_le p q xs le, le x)

  pub count_where_lt :
      (p q : A → Bool) (xs : List A) (y : A)
      → ((x : A) → q x ≡ true → p x ≡ true)
      → Any (λ a. a ≡ y) xs
      → p y ≡ true
      → q y ≡ false
      → count_where q xs < count_where p xs
  count_where_lt p q [] y le m t f = elim m [ ]
  count_where_lt p q (x ∷ xs) y le (inl e) t f =
      let rest = count_where_le p q xs le in rw e (rw (t, f) (omega (arith, rest)))
  count_where_lt p q (x ∷ xs) y le (inr m) t f =
      ground (arith, count_where_lt p q xs y le m t f, le x)
