-- ===== src/Pagination/Keyset.antt =====
-- Keyset pages: the rows after a row, in the order of the query, are the rest of the sorted list.
use mathlib.Core.Path.{subst}
use incident_api.Base.{
  ℕ, ◌≡◌, ◌≢◌, refl, ap, sym, ◌∙◌, Bool, true, false, ◌&&◌, List, [], ◌∷◌, ◌++◌, arith, All,
  All-mono, All-filter, if◌then◌else◌, filter, sort_by, insert_by, All-sort, All-insert, Unique,
  Bool-cases, inl, inr,
}

pub filter_and :
    {A : Type 0} (p q : A → Bool) (xs : List A)
    → filter (λ x. p x && q x) xs ≡ filter q (filter p xs)
filter_and p q [] = refl
filter_and p q (x ∷ xs) = ground (arith, filter_and p q xs)

pub filter_congr :
    {A : Type 0} (p q : A → Bool) (xs : List A) → ((x : A) → p x ≡ q x) → filter p xs ≡ filter q xs
filter_congr p q [] e = refl
filter_congr p q (x ∷ xs) e = ground (arith, filter_congr p q xs e, e x)

-- An order of the database: strict, and total on rows with different keys.
pub record IsOrder {A : Type 0} (before : A → A → Bool) (key : A → ℕ) : Type 0 where
  pub asym : (a b : A) → before a b ≡ true → before b a ≡ false
  pub trans : (a b c : A) → before a b ≡ true → before b c ≡ true → before a c ≡ true
  pub total : (a b : A) → key b ≢ key a → before b a ≡ false → before a b ≡ true

module _ {A : Type 0} (before : A → A → Bool) (key : A → ℕ) (order : IsOrder before key) where
  abbrev pub Sorted : List A → Type 0
  Sorted [] = Unit {0}
  Sorted (x ∷ xs) = All (λ y. before x y ≡ true) xs × Sorted xs

  insert_first :
      (x : A) (ys : List A) → All (λ y. before x y ≡ true) ys → insert_by before x ys ≡ x ∷ ys
  insert_first x [] h = refl
  insert_first x (y ∷ ys) h = rw (order.asym x y h.0) refl

  after_head :
      (x y : A) (ys : List A)
      → before x y ≡ true
      → All (λ z. before y z ≡ true) ys
      → All (λ z. before x z ≡ true) ys
  after_head x y ys h k = All-mono _ _ ys (λ z l. order.trans x y z h l) k

  insert-Sorted :
      (x : A) (ys : List A)
      → All (λ y. key y ≢ key x) ys
      → Sorted ys
      → Sorted (insert_by before x ys)
  insert-Sorted x [] n s = (tt, tt)
  insert-Sorted x (y ∷ ys) n s = elim (Bool-cases (before y x)) [
    | inl e ↦
        rw e (All-insert before (λ z. before y z ≡ true) x ys e s.0, insert-Sorted x ys n.1 s.1)
    | inr e ↦ let first = order.total x y n.0 e in rw e ((first, after_head x y ys first s.0), s)
  ]

  sort-Sorted : (xs : List A) → Unique key xs → Sorted (sort_by before xs)
  sort-Sorted [] u = tt
  sort-Sorted (x ∷ xs) u =
      insert-Sorted x (sort_by before xs) (All-sort before (λ y. key y ≢ key x) xs u.0)
        (sort-Sorted xs u.1)

  filter-insert :
      (q : A → Bool) (x : A) (ys : List A)
      → All (λ y. key y ≢ key x) ys
      → Sorted ys
      → filter q (insert_by before x ys)
        ≡ (if q x then insert_by before x (filter q ys) else filter q ys)
  filter-insert q x [] n s = refl
  filter-insert q x (y ∷ ys) n s = elim (Bool-cases (before y x)) [
    | inl e ↦ ground (arith, filter-insert q x ys n.1 s.1)
    | inr e ↦
        let first = order.total x y n.0 e in
        let rest = insert_first x (filter q (y ∷ ys)) (
          All-mono _ _ (filter q (y ∷ ys)) (λ z l. l.0)
            (All-filter (λ z. before x z ≡ true) q (y ∷ ys)
              (first, after_head x y ys first s.0))) in
        ground (arith, rest)
  ]

  pub filter-sort :
      (q : A → Bool) (xs : List A)
      → Unique key xs
      → filter q (sort_by before xs) ≡ sort_by before (filter q xs)
  filter-sort q [] u = refl
  filter-sort q (x ∷ xs) u =
      let inserted =
        filter-insert q x (sort_by before xs) (All-sort before (λ y. key y ≢ key x) xs u.0)
          (sort-Sorted xs u.1) in
      ground (arith, inserted, filter-sort q xs u.1)

  filter_after : (x : A) (ys : List A) → All (λ y. before x y ≡ true) ys → filter (before x) ys ≡ ys
  filter_after x [] h = refl
  filter_after x (y ∷ ys) h = rw h.0 (ap (◌∷◌ y) (filter_after x ys h.1))

  irreflexive : (x : A) → before x x ≡ false
  irreflexive x = elim (Bool-cases (before x x)) [ inl e ↦ order.asym x x e | inr e ↦ e ]

  All-middle :
      (P : A → Type 0) (pre : List A) (x : A) (post : List A) → All P (pre ++ x ∷ post) → P x
  All-middle P [] x post h = h.0
  All-middle P (y ∷ pre) x post h = All-middle P pre x post h.1

  -- What comes after a row of a sorted list is what stands behind it.
  suffix :
      (pre : List A) (x : A) (post : List A)
      → Sorted (pre ++ x ∷ post)
      → filter (before x) (pre ++ x ∷ post) ≡ post
  suffix [] x post s = rw (irreflexive x) (filter_after x post s.0)
  suffix (y ∷ pre) x post s =
      rw (order.asym y x (All-middle (λ z. before y z ≡ true) pre x post s.0))
        (suffix pre x post s.1)

  pub filter-Unique : (p : A → Bool) (xs : List A) → Unique key xs → Unique key (filter p xs)
  filter-Unique p [] u = tt
  filter-Unique p (x ∷ xs) u = elim (Bool-cases (p x)) [
    | inl e ↦ rw e (
      All-mono _ _ (filter p xs) (λ y l. l.0) (All-filter (λ y. key y ≢ key x) p xs u.0),
      filter-Unique p xs u.1,
    )
    | inr e ↦ rw e (filter-Unique p xs u.1)
  ]

  -- The query with the condition of the cursor of `x` gives the rows that the query without it gives
  -- after `x`.
  pub find_after :
      (p after : A → Bool) (rows pre : List A) (x : A) (post : List A)
      → Unique key rows
      → ((y : A) → after y ≡ before x y)
      → sort_by before (filter p rows) ≡ pre ++ x ∷ post
      → sort_by before (filter (λ y. p y && after y) rows) ≡ post
  find_after p after rows pre x post u same split =
      let matching = filter-Unique p rows u in
      ap (sort_by before)
        (filter_and p after rows ∙ filter_congr after (before x) (filter p rows) same)
      ∙ sym (filter-sort (before x) (filter p rows) matching)
      ∙ ap (filter (before x)) split
      ∙ suffix pre x post (subst Sorted split (sort-Sorted (filter p rows) matching))
