-- ===== src/Base/Stable.antt =====
-- The stable sort under maps and filters.
use Prim.Native.Nat.{ℕ}
use mathlib.Core.Path.{◌≡◌, refl, sym, ap, ◌∙◌}
use mathlib.Core.Logic.{◌≢◌, inl, inr}
use mathlib.Core.Bool.{Bool, true, false}
use mathlib.Core.List.{List, [], ◌∷◌, map}
use native.Mathlib.Omega.{arith}
use incident_api.Base.Tests.{if◌then◌else◌, Bool-cases, ltb}
use incident_api.Base.Lists.{All, All-mono, All-filter, filter}
use incident_api.Base.Sorting.{insert_by, sort_by, All-insert, All-sort}
use incident_api.Base.Keys.{Unique}

-- A sort by what a map keeps of the elements.
module _ {A B : Type 0} (b : B → B → Bool) (a : A → A → Bool) (f : A → B)
    (agree : (x y : A) → b (f x) (f y) ≡ a x y) where
  insert-map : (x : A) (ys : List A) → insert_by b (f x) (map f ys) ≡ map f (insert_by a x ys)
  insert-map x [] = refl
  insert-map x (y ∷ ys) = elim (Bool-cases (a y x)) [
    | inl e ↦ rw (agree y x, e) (ap (◌∷◌ (f y)) (insert-map x ys))
    | inr e ↦ rw (agree y x, e) refl
  ]

  pub sort-map : (xs : List A) → sort_by b (map f xs) ≡ map f (sort_by a xs)
  sort-map [] = refl
  sort-map (x ∷ xs) = ap (insert_by b (f x)) (sort-map xs) ∙ insert-map x (sort_by a xs)

-- A strict order whose negation is transitive.
pub record IsWeakOrder {A : Type 0} (before : A → A → Bool) : Type 0 where
  pub asym : (x y : A) → before x y ≡ true → before y x ≡ false
  pub trans : (x y z : A) → before y x ≡ false → before z y ≡ false → before z x ≡ false

-- Ascending by a number.
pub ascending-IsWeakOrder :
    {A : Type 0} (key : A → ℕ) → IsWeakOrder (λ (a b : A). ltb (key a) (key b))
ascending-IsWeakOrder key = record {
  asym = λ x y h. ground (arith, h);
  trans = λ x y z h k. ground (arith, h, k);
}

module _ {A : Type 0} (before : A → A → Bool) (order : IsWeakOrder before) where
  -- No element comes before an earlier one.
  abbrev pub InOrder : List A → Type 0
  InOrder [] = Unit {0}
  InOrder (x ∷ xs) = All (λ y. before y x ≡ false) xs × InOrder xs

  insert-InOrder : (x : A) (ys : List A) → InOrder ys → InOrder (insert_by before x ys)
  insert-InOrder x [] h = (tt, tt)
  insert-InOrder x (y ∷ ys) (l, h) = elim (Bool-cases (before y x)) [
    | inl e ↦ rw e (
      All-insert before (λ z. before z y ≡ false) x ys (order.asym y x e) l,
      insert-InOrder x ys h,
    )
    | inr e ↦ rw e (
      (
        e,
        All-mono (λ z. before z y ≡ false) (λ z. before z x ≡ false) ys
            (λ z k. order.trans x y z e k) l,
      ),
      (l, h),
    )
  ]

  pub sort-InOrder : (xs : List A) → InOrder (sort_by before xs)
  sort-InOrder [] = tt
  sort-InOrder (x ∷ xs) = insert-InOrder x _ (sort-InOrder xs)

  insert_front :
      (x : A) (ys : List A) → All (λ z. before z x ≡ false) ys → insert_by before x ys ≡ x ∷ ys
  insert_front x [] h = refl
  insert_front x (y ∷ ys) (e, h) = rw e refl

  -- A list in order is what it is sorted to.
  pub sort_sorted : (xs : List A) → InOrder xs → sort_by before xs ≡ xs
  sort_sorted [] h = refl
  sort_sorted (x ∷ xs) (l, h) = ap (insert_by before x) (sort_sorted xs h) ∙ insert_front x xs l

  module _ (p : A → Bool) where
    filter-insert_out :
        (x : A) (ys : List A) → p x ≡ false → filter p (insert_by before x ys) ≡ filter p ys
    filter-insert_out x [] e = rw e refl
    filter-insert_out x (y ∷ ys) e = elim (Bool-cases (before y x)) [
      | inl b ↦ rw b (ap (λ zs. if p y then y ∷ zs else zs) (filter-insert_out x ys e))
      | inr b ↦ rw b (rw e refl)
    ]

    All-filter_of : (P : A → Type 0) (xs : List A) → All P xs → All P (filter p xs)
    All-filter_of P xs h =
        All-mono (λ x. P x × (p x ≡ true)) P (filter p xs) (λ x r. r.0) (All-filter P p xs h)

    filter-insert_in :
        (x : A) (ys : List A)
        → InOrder ys
        → p x ≡ true
        → filter p (insert_by before x ys) ≡ insert_by before x (filter p ys)
    filter-insert_in x [] h e = rw e refl
    filter-insert_in x (y ∷ ys) (l, h) e = elim (Bool-cases (before y x)) [
      | inl b ↦ elim (Bool-cases (p y)) [
        | inl q ↦ rw b (rw q (rw b (ap (◌∷◌ y) (filter-insert_in x ys h e))))
        | inr q ↦ rw b (rw q (filter-insert_in x ys h e))
      ]
      | inr b ↦
          let later =
            All-mono (λ z. before z y ≡ false) (λ z. before z x ≡ false) ys
              (λ z k. order.trans x y z b k) l in
          let front =
            insert_front x (filter p (y ∷ ys))
              (All-filter_of (λ z. before z x ≡ false) (y ∷ ys) (b, later)) in
          rw b (rw e (sym front))
    ]

    pub filter-sort : (xs : List A) → filter p (sort_by before xs) ≡ sort_by before (filter p xs)
    filter-sort [] = refl
    filter-sort (x ∷ xs) = elim (Bool-cases (p x)) [
      | inl e ↦ rw e (
          filter-insert_in x (sort_by before xs) (sort-InOrder xs) e
          ∙ ap (insert_by before x) (filter-sort xs))
      | inr e ↦ rw e (filter-insert_out x (sort_by before xs) e ∙ filter-sort xs)
    ]

-- Rows with different keys are sorted alike, whatever order they are read in.
module _ {A : Type 0} (before : A → A → Bool) (order : IsWeakOrder before) (key : A → ℕ)
    (total : (x y : A) → key y ≢ key x → before x y ≡ false → before y x ≡ true) where
  -- What comes no later than an element before `x` comes before `x`.
  before_of : (x y z : A) → before z x ≡ true → before z y ≡ false → before y x ≡ true
  before_of x y z zx zy = elim (Bool-cases (before y x)) [
    | inl e ↦ e
    | inr e ↦ absurd (ground (arith, zx, order.trans x y z e zy))
  ]

  -- The later of two inserted elements does not matter.
  insert_comm :
      (x y : A) (zs : List A)
      → key y ≢ key x
      → insert_by before x (insert_by before y zs) ≡ insert_by before y (insert_by before x zs)
  insert_comm x y [] n = elim (Bool-cases (before x y)) [
    | inl e ↦ rw (e, order.asym x y e) refl
    | inr e ↦ rw (e, total x y n e) refl
  ]
  insert_comm x y (z ∷ zs) n = elim (Bool-cases (before z x)) [
    | inl zx ↦ elim (Bool-cases (before z y)) [
      | inl zy ↦ rw (zx, zy) (rw zx (ap (◌∷◌ z) (insert_comm x y zs n)))
      | inr zy ↦ let yx = before_of x y z zx zy in rw (zx, zy) (rw yx (rw zx refl))
    ]
    | inr zx ↦ elim (Bool-cases (before z y)) [
      | inl zy ↦ let xy = before_of y x z zy zx in rw (zx, zy) (rw (xy, zx) refl)
      | inr zy ↦ elim (Bool-cases (before x y)) [
        | inl e ↦ rw (zx, zy) (rw (e, order.asym x y e) refl)
        | inr e ↦ rw (zx, zy) (rw (e, total x y n e) (rw zx refl))
      ]
    ]
  ]

  module _ (first : A → A → Bool) where
    sort-insert :
        (x : A) (ys : List A)
        → All (λ y. key y ≢ key x) ys
        → sort_by before (insert_by first x ys) ≡ insert_by before x (sort_by before ys)
    sort-insert x [] n = refl
    sort-insert x (y ∷ ys) (m, n) = elim (Bool-cases (first y x)) [
      | inl e ↦ rw e (
          ap (insert_by before y) (sort-insert x ys n)
          ∙ sym (insert_comm x y (sort_by before ys) m))
      | inr e ↦ rw e refl
    ]

    pub sort_twice :
        (xs : List A) → Unique key xs → sort_by before (sort_by first xs) ≡ sort_by before xs
    sort_twice [] u = refl
    sort_twice (x ∷ xs) (n, u) =
        sort-insert x (sort_by first xs) (All-sort first (λ y. key y ≢ key x) xs n)
        ∙ ap (insert_by before x) (sort_twice xs u)
