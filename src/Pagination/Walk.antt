-- ===== src/Pagination/Walk.antt =====
-- A client that reads a cursor list to its end.
use native.Mathlib.Nat.{suc-add}
use incident_api.Base.{
  ℕ, zero, suc, ◌+◌, ◌≤◌, ◌<◌, ◌≡◌, refl, ap, sym, ◌∙◌, true, false, Option, none, some, List, [],
  ◌∷◌, ◌++◌, map, arith, if◌then◌else◌, Bool-cases, inl, inr, ltb, ltb→lt, length, take,
  length-append, length-map, map-map,
}
use mathlib.Core.Option
use mathlib.Core.List.{map-append, append_assoc}
use incident_api.Model.Text.{Text}
use incident_api.Model.World.{World}
use incident_api.Model.Exec.{ok, Exec, pure, ◌>>=◌}
use incident_api.Pagination.{CursorPage, cursor_page, last_of, page_rows}
use incident_api.Pagination.Offset.{take_all}

module _ {B : Type 0} where
  abbrev pub prepend : List B → Option (List B) → Option (List B)
  prepend xs none = none
  prepend xs (some ys) = some (xs ++ ys)

  -- Follows `nextCursor` while there is more; `none` if more than `fuel` pages are needed.
  unfoldable pub read_all :
      ℕ → (Option Text → Exec (CursorPage B)) → Option Text → Exec (Option (List B))
  read_all zero list cursor = pure none
  read_all (suc fuel) list cursor = do
    page ← list cursor
    let more = read_all fuel list page.next_cursor
    if page.has_more
        then (do rest ← more; pure (prepend page.items rest))
        else pure (some page.items)

-- A list that is longer than a page: the page, its last row, and what is left.
page_split :
    {A : Type 0} (size : ℕ) (xs : List A)
    → suc size < length xs
    → (init : List A) × (x : A) × (y : A) × (rest : List A) × (xs ≡ init ++ x ∷ y ∷ rest)
      × (length init ≡ size)
page_split size [] h = absurd (omega arith)
page_split size (x ∷ []) h = absurd (omega arith)
page_split zero (x ∷ y ∷ xs) h = ([], x, y, xs, refl, refl)
page_split (suc size) (x ∷ y ∷ xs) h =
    let (init, z, z', rest, e, l) = page_split size (y ∷ xs) (omega arith) in
    (x ∷ init, z, z', rest, ap (◌∷◌ x) e, ap suc l)

take_prefix :
    {A : Type 0} (pre post : List A) (n k : ℕ)
    → length pre ≡ n
    → take (n + k) (pre ++ post) ≡ pre ++ take k post
take_prefix [] post n k h = let start : n + k ≡ k = omega arith in rw start refl
take_prefix (x ∷ pre) post zero k h = absurd (omega arith)
take_prefix (x ∷ pre) post (suc n) k h =
    rw (suc-add n k) (ap (◌∷◌ x) (take_prefix pre post n k (omega arith)))

last_append : {A : Type 0} (pre : List A) (x : A) → last_of (pre ++ x ∷ []) ≡ some x
last_append [] x = refl
last_append (y ∷ []) x = refl
last_append (y ∷ z ∷ pre) x = last_append (z ∷ pre) x

module _ {A B : Type 0} (item : A → B) (cursor_of : A → Text) where
  page_end :
      (size : ℕ) (xs : List A)
      → length xs ≤ size
      → cursor_page item cursor_of size (take (suc size) xs)
        ≡ record { items = map item xs; next_cursor = none; has_more = false }
  unfolding cursor_page
  page_end size xs h =
      let short : ltb size (length xs) ≡ false = ground arith in
      rw (take_all (suc size) xs (omega arith), short) refl

  page_more :
      (size : ℕ) (init : List A) (x y : A) (rest : List A)
      → length init ≡ size
      → cursor_page item cursor_of (suc size) (take (suc (suc size)) (init ++ x ∷ y ∷ rest))
        ≡ record {
          items = map item (init ++ x ∷ []);
          next_cursor = some (cursor_of x);
          has_more = true;
        }
  unfolding cursor_page
  page_more size init x y rest h =
      let two : suc (suc size) ≡ size + 2 = omega arith in
      let one : suc size ≡ size + 1 = omega arith in
      let long : ltb (suc size) (length (init ++ x ∷ y ∷ [])) ≡ true =
        ground (arith, length-append init (x ∷ y ∷ [])) in
      let read : take (suc (suc size)) (init ++ x ∷ y ∷ rest) ≡ init ++ x ∷ y ∷ [] =
        rw two (take_prefix init (x ∷ y ∷ rest) size 2 h) in
      let kept : take (suc size) (init ++ x ∷ y ∷ []) ≡ init ++ x ∷ [] =
        rw one (take_prefix init (x ∷ y ∷ []) size 1 h) in
      rw (read, long, kept, last_append init x) refl

  module _ (size : ℕ) (list : Option Text → Exec (CursorPage B)) (w : World) (all : List A) where
    -- The list gives the rows behind the row whose cursor it is given.
    abbrev pub Follows : Type 0
    Follows =
        (pre : List A) (x : A) (post : List A)
        → all ≡ pre ++ x ∷ post
        → list (some (cursor_of x)) w
          ≡ (ok (cursor_page item cursor_of (suc size) (take (suc (suc size)) post)), w)

    walk_more :
        (fuel : ℕ) (cursor : Option Text) (rest init : List A) (x y : A) (more : List A)
        → rest ≡ init ++ x ∷ y ∷ more
        → length init ≡ size
        → list cursor w
          ≡ (ok (cursor_page item cursor_of (suc size) (take (suc (suc size)) rest)), w)
        → read_all fuel list (some (cursor_of x)) w ≡ (ok (some (map item (y ∷ more))), w)
        → read_all (suc fuel) list cursor w ≡ (ok (some (map item rest)), w)
    unfolding read_all
    walk_more fuel cursor rest init x y more split l h next =
        let here =
          h
          ∙ ap (λ r. (ok (cursor_page item cursor_of (suc size) (take (suc (suc size)) r)), w))
              split
          ∙ ap (λ p. (ok p, w)) (page_more size init x y more l) in
        let joined : init ++ x ∷ y ∷ more ≡ (init ++ x ∷ []) ++ y ∷ more = simp append_assoc refl in
        rw (here, next, split, joined)
          (ap (λ xs. (ok (some xs), w)) (sym (map-append item (init ++ x ∷ []) (y ∷ more))))

    walk_from :
        (fuel : ℕ) (cursor : Option Text) (pre rest : List A)
        → Follows
        → all ≡ pre ++ rest
        → list cursor w
          ≡ (ok (cursor_page item cursor_of (suc size) (take (suc (suc size)) rest)), w)
        → length rest < fuel
        → read_all fuel list cursor w ≡ (ok (some (map item rest)), w)
    unfolding read_all
    walk_from zero cursor pre rest follows e h enough = elim enough [ ]
    walk_from (suc fuel) cursor pre rest follows e h enough =
        elim (Bool-cases (ltb (suc size) (length rest))) [
          | inr short ↦ rw (h, page_end (suc size) rest (ground arith)) refl
          | inl long ↦
              let (init, x, y, more, split, l) =
                page_split size rest (ltb→lt (suc size) (length rest) long) in
              let cut : all ≡ (pre ++ init) ++ x ∷ y ∷ more =
                e ∙ ap (◌++◌ pre) split ∙ sym (append_assoc pre init (x ∷ y ∷ more)) in
              let cut' : all ≡ ((pre ++ init) ++ x ∷ []) ++ y ∷ more =
                cut ∙ sym (append_assoc (pre ++ init) (x ∷ []) (y ∷ more)) in
              let shorter = ap length split ∙ length-append init (x ∷ y ∷ more) in
              walk_more fuel cursor rest init x y more split l h (
                walk_from fuel (some (cursor_of x)) ((pre ++ init) ++ x ∷ []) (y ∷ more) follows
                  cut' (follows (pre ++ init) x (y ∷ more) cut) (omega (arith, shorter)))
        ]

    -- A client that follows the cursors from the first page reads every row once, in order.
    pub walk_all :
        (fuel : ℕ)
        → Follows
        → list none w ≡ (ok (cursor_page item cursor_of (suc size) (take (suc (suc size)) all)), w)
        → length all < fuel
        → read_all fuel list none w ≡ (ok (some (map item all)), w)
    walk_all fuel follows first enough = walk_from fuel none [] all follows refl first enough

pub take-map :
    {A B : Type 0} (f : A → B) (n : ℕ) (xs : List A) → take n (map f xs) ≡ map f (take n xs)
take-map f zero xs = refl
take-map f (suc n) [] = refl
take-map f (suc n) (x ∷ xs) = ap (◌∷◌ (f x)) (take-map f n xs)

last-map :
    {A B C : Type 0} (f : A → B) (g : B → C) (xs : List A)
    → Option.map g (last_of (map f xs)) ≡ Option.map (λ x. g (f x)) (last_of xs)
last-map f g [] = refl
last-map f g (x ∷ []) = refl
last-map f g (x ∷ y ∷ xs) = last-map f g (y ∷ xs)

-- The page of rows that were joined to others.
pub cursor_page-map :
    {A B C : Type 0} (item : B → C) (cursor_of : B → Text) (join : A → B) (size : ℕ) (rows : List A)
    → cursor_page item cursor_of size (map join rows)
      ≡ cursor_page (λ r. item (join r)) (λ r. cursor_of (join r)) size rows
unfolding cursor_page
cursor_page-map item cursor_of join size rows = elim (Bool-cases (ltb size (length rows))) [
  | inl e ↦
      rw
        (
          length-map join rows,
          e,
          take-map join size rows,
          last-map join cursor_of (take size rows),
          map-map item join (take size rows),
        )
        refl
  | inr e ↦ rw (length-map join rows, e, map-map item join rows) refl
]

-- The rows of a page, joined.
pub page_rows-map :
    {A B : Type 0} (join : A → B) (size : ℕ) (rows : List A)
    → page_rows size (map join rows) ≡ map join (page_rows size rows)
page_rows-map join size rows = elim (Bool-cases (ltb size (length rows))) [
  | inl e ↦ rw (length-map join rows, e) (take-map join size rows)
  | inr e ↦ rw (length-map join rows, e) refl
]
