-- ===== src/Base/Sorting.antt =====
-- Sorting by a strict order, and what filtering, mapping and sorting keep.
use Prim.Native.Nat.{ℕ, ◌≤◌}
use mathlib.Core.Path.{◌≡◌}
use mathlib.Core.Logic.{inl, inr}
use mathlib.Core.Bool.{Bool, true}
use mathlib.Core.List.{List, [], ◌∷◌, map}
use native.Mathlib.Omega.{arith}
use incident_api.Base.Tests.{if◌then◌else◌, Bool-cases, ltb}
use incident_api.Base.Lists.{All, All-mono, Any, filter}

-- `sort((a, b) => …)` and `ORDER BY`: `before a b` says that `a` comes strictly first. The sort is
-- stable.
module _ {A : Type 0} (before : A → A → Bool) where
  abbrev pub insert_by : A → List A → List A
  insert_by x [] = x ∷ []
  insert_by x (y ∷ ys) = if before y x then y ∷ insert_by x ys else x ∷ y ∷ ys

  abbrev pub sort_by : List A → List A
  sort_by [] = []
  sort_by (x ∷ xs) = insert_by x (sort_by xs)

  pub All-insert : (P : A → Type 0) (x : A) (ys : List A) → P x → All P ys → All P (insert_by x ys)
  All-insert P x [] p h = (p, tt)
  All-insert P x (y ∷ ys) p (q, h) = elim (Bool-cases (before y x)) [
    | inl e ↦ rw e (q, All-insert P x ys p h)
    | inr e ↦ rw e (p, (q, h))
  ]

  pub All-sort : (P : A → Type 0) (xs : List A) → All P xs → All P (sort_by xs)
  All-sort P [] h = tt
  All-sort P (x ∷ xs) (p, h) = All-insert P x (sort_by xs) p (All-sort P xs h)

  Any-insert_head : (P : A → Type 0) (x : A) (ys : List A) → P x → Any P (insert_by x ys)
  Any-insert_head P x [] p = inl p
  Any-insert_head P x (y ∷ ys) p = elim (Bool-cases (before y x)) [
    | inl e ↦ rw e (inr (Any-insert_head P x ys p))
    | inr e ↦ rw e (inl p)
  ]

  Any-insert_tail : (P : A → Type 0) (x : A) (ys : List A) → Any P ys → Any P (insert_by x ys)
  Any-insert_tail P x [] h = elim h [ ]
  Any-insert_tail P x (y ∷ ys) h = elim (Bool-cases (before y x)) [
    | inl e ↦ rw e (elim h [ inl p ↦ inl p | inr r ↦ inr (Any-insert_tail P x ys r) ])
    | inr e ↦ rw e (inr h)
  ]

  pub Any-sort : (P : A → Type 0) (xs : List A) → Any P xs → Any P (sort_by xs)
  Any-sort P [] h = elim h [ ]
  Any-sort P (x ∷ xs) (inl p) = Any-insert_head P x (sort_by xs) p
  Any-sort P (x ∷ xs) (inr h) = Any-insert_tail P x (sort_by xs) (Any-sort P xs h)

pub Any-filter :
    {A : Type 0} (P : A → Type 0) (p : A → Bool) (xs : List A)
    → Any (λ x. P x × (p x ≡ true)) xs
    → Any P (filter p xs)
Any-filter P p [] h = elim h [ ]
Any-filter P p (x ∷ xs) (inl (q, e)) = rw e (inl q)
Any-filter P p (x ∷ xs) (inr h) = elim (Bool-cases (p x)) [
  | inl e ↦ rw e (inr (Any-filter P p xs h))
  | inr e ↦ rw e (Any-filter P p xs h)
]

pub Any-mono :
    {A : Type 0} (P Q : A → Type 0) (xs : List A) → ((x : A) → P x → Q x) → Any P xs → Any Q xs
Any-mono P Q [] f h = elim h [ ]
Any-mono P Q (x ∷ xs) f (inl p) = inl (f x p)
Any-mono P Q (x ∷ xs) f (inr h) = inr (Any-mono P Q xs f h)

pub Any-map :
    {A B : Type 0} (P : B → Type 0) (f : A → B) (xs : List A)
    → Any (λ x. P (f x)) xs
    → Any P (map f xs)
Any-map P f [] h = elim h [ ]
Any-map P f (x ∷ xs) (inl p) = inl p
Any-map P f (x ∷ xs) (inr h) = inr (Any-map P f xs h)

-- Ascending by a number.
module _ {A : Type 0} (key : A → ℕ) where
  abbrev pub Ascends : List A → Type 0
  Ascends [] = Unit {0}
  Ascends (x ∷ xs) = All (λ y. key x ≤ key y) xs × Ascends xs

  insert-Ascends :
      (x : A) (ys : List A) → Ascends ys → Ascends (insert_by (λ a b. ltb (key a) (key b)) x ys)
  insert-Ascends x [] h = (tt, tt)
  insert-Ascends x (y ∷ ys) (l, h) = elim (Bool-cases (ltb (key y) (key x))) [
    | inl e ↦ rw e (
      All-insert (λ a b. ltb (key a) (key b)) (λ z. key y ≤ key z) x ys (ground arith) l,
      insert-Ascends x ys h,
    )
    | inr e ↦ rw e (
      (
        (ground arith),
        All-mono (λ z. key y ≤ key z) (λ z. key x ≤ key z) ys (λ z k. ground arith) l,
      ),
      (l, h),
    )
  ]

  pub sort-Ascends : (xs : List A) → Ascends (sort_by (λ a b. ltb (key a) (key b)) xs)
  sort-Ascends [] = tt
  sort-Ascends (x ∷ xs) = insert-Ascends x _ (sort-Ascends xs)
