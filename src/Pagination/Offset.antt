-- ===== src/Pagination/Offset.antt =====
-- Offset pages: what the pages of a list cover between them.
use native.Mathlib.Nat.{zero-add, suc-add}
use incident_api.Base.{
  ℕ, zero, suc, ◌+◌, ◌-◌, ◌*◌, ◌≤◌, ◌≡◌, refl, sym, ap, ◌∙◌, Bool, List, [], ◌∷◌, ◌++◌, arith,
  length, take, drop, length-take, map, sort_by, insert_by, filter, count_where,
  count-eq-length-filter, filter-sort, ascending-IsWeakOrder,
}
use mathlib.Core.List.{map-append}
use incident_api.Pagination.{count_and_find, by_place, ceil_div, at_least_one}

module _ {A : Type 0} where
  take_empty : (a : ℕ) → take {A = A} a [] ≡ []
  take_empty zero = refl
  take_empty (suc a) = refl

  take_add : (a b : ℕ) (xs : List A) → take (a + b) xs ≡ take a xs ++ take b (drop a xs)
  take_add zero b xs = rw (zero-add b) refl
  take_add (suc a) b [] = take_empty (suc a + b) ∙ sym (take_empty b)
  take_add (suc a) b (x ∷ xs) = rw (suc-add a) (ap (◌∷◌ x) (take_add a b xs))

  drop_empty : (a : ℕ) → drop {A = A} a [] ≡ []
  drop_empty zero = refl
  drop_empty (suc a) = refl

  drop_add : (a b : ℕ) (xs : List A) → drop (a + b) xs ≡ drop b (drop a xs)
  drop_add zero b xs = rw (zero-add b) refl
  drop_add (suc a) b [] = drop_empty (suc a + b) ∙ sym (drop_empty b)
  drop_add (suc a) b (x ∷ xs) = rw (suc-add a) (drop_add a b xs)

  pub take_all : (n : ℕ) (xs : List A) → length xs ≤ n → take n xs ≡ xs
  take_all zero [] h = refl
  take_all zero (x ∷ xs) h = absurd (omega arith)
  take_all (suc n) [] h = refl
  take_all (suc n) (x ∷ xs) h = ap (◌∷◌ x) (take_all n xs (omega arith))

  -- The pages from one on, as many as there are to read.
  abbrev pub read_pages : (ℕ → List A) → (count page : ℕ) → List A
  read_pages f zero page = []
  read_pages f (suc count) page = f page ++ read_pages f count (page + 1)

  abbrev pub page_of : (size : ℕ) → List A → ℕ → List A
  page_of size xs p = take size (drop ((p - 1) * size) xs)

  read_pages-take :
      (size : ℕ) (xs : List A) (count page : ℕ)
      → read_pages (page_of size xs) count (page + 1) ≡ take (count * size) (drop (page * size) xs)
  read_pages-take size xs zero page =
      let none_left : 0 * size ≡ 0 = omega arith in rw none_left refl
  read_pages-take size xs (suc count) page =
      let here : (page + 1 - 1) * size ≡ page * size = ap (λ (n : ℕ). n * size) (omega arith) in
      let next : (page + 1) * size ≡ page * size + size = grind arith in
      let all : suc count * size ≡ size + count * size = grind arith in
      rw
        (
          here,
          all,
          read_pages-take size xs count (page + 1),
          next,
          drop_add (page * size) size xs,
          take_add size (count * size) (drop (page * size) xs),
        )
        refl

pub total_pages_cover :
    (total size : ℕ) → 1 ≤ size → total ≤ at_least_one (ceil_div total size) * size
total_pages_cover total size h = grind arith

module _ {A : Type 0} where
  -- The pages from the first to the last are the whole list, in order.
  pub pages_cover :
      (size : ℕ) (xs : List A)
      → 1 ≤ size
      → read_pages (page_of size xs) (at_least_one (ceil_div (length xs) size)) 1 ≡ xs
  pages_cover size xs h =
      let count : ℕ = at_least_one (ceil_div (length xs) size) in
      let start : 0 * size ≡ 0 = omega arith in
      let whole : take (count * size) (drop (0 * size) xs) ≡ xs =
        rw start (take_all (count * size) xs (total_pages_cover (length xs) size h)) in
      read_pages-take size xs count 0 ∙ whole

  pub page-le-size : (size : ℕ) (xs : List A) (p : ℕ) → length (page_of size xs p) ≤ size
  page-le-size size xs p = omega (arith, length-take size (drop ((p - 1) * size) xs))

  pub length-insert :
      (before : A → A → Bool) (x : A) (ys : List A)
      → length (insert_by before x ys) ≡ suc (length ys)
  length-insert before x [] = refl
  length-insert before x (y ∷ ys) = ground (arith, length-insert before x ys)

  pub length-sort : (before : A → A → Bool) (xs : List A) → length (sort_by before xs) ≡ length xs
  length-sort before [] = refl
  length-sort before (x ∷ xs) =
      length-insert before x (sort_by before xs) ∙ ap suc (length-sort before xs)

read_pages-map :
    {A B : Type 0} (f : A → B) (pages : ℕ → List A) (count page : ℕ)
    → read_pages (λ p. map f (pages p)) count page ≡ map f (read_pages pages count page)
read_pages-map f pages zero page = refl
read_pages-map f pages (suc count) page =
    ap (◌++◌ (map f (pages page))) (read_pages-map f pages count (page + 1))
    ∙ sym (map-append f (pages page) (read_pages pages count (page + 1)))

-- The pages of a query, each mapped, are the mapped rows of the query.
pub query_pages :
    {A B : Type 0} (f : A → B) (place : A → ℕ) (before : A → A → Bool) (p : A → Bool)
    (rows : List A) (size : ℕ)
    → 1 ≤ size
    → read_pages
        (λ page. map f ((count_and_find place before p rows page size).1))
        (at_least_one (ceil_div ((count_and_find place before p rows 1 size).0) size))
        1
      ≡ map f (sort_by before (filter p (sort_by (by_place place) rows)))
unfolding count_and_find
query_pages f place before p rows size h =
    let sorted = sort_by before (filter p (sort_by (by_place place) rows)) in
    let placed : filter p (sort_by (by_place place) rows)
        ≡ sort_by (by_place place) (filter p rows) =
      filter-sort (by_place place) (ascending-IsWeakOrder place) p rows in
    let counted : count_where p rows
        ≡ length (sort_by before (filter p (sort_by (by_place place) rows))) =
      count-eq-length-filter p rows
      ∙ sym (
          length-sort before (filter p (sort_by (by_place place) rows))
          ∙ ap length placed
          ∙ length-sort (by_place place) (filter p rows)) in
    rw
      (
        counted,
        read_pages-map f (page_of size (sort_by before (filter p (sort_by (by_place place) rows)))),
      )
      (ap (map f) (pages_cover size (sort_by before (filter p (sort_by (by_place place) rows))) h))
