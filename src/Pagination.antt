-- ===== src/Pagination.antt =====
-- The pages of src/core/pagination.ts, by offset and by cursor, and the date bound of
-- src/core/time.ts.
pub mod Tokens
pub mod Offset
pub mod Keyset
pub mod Cursors
pub mod Walk
use incident_api.Base.{
  ℕ, zero, suc, ◌+◌, ◌-◌, ◌*◌, ◌/◌, ◌≡◌, Bool, true, false, ◌&&◌, ◌||◌, Option, none, some, List,
  [], ◌∷◌, map, ltb, ◌==◌, if◌then◌else◌, length, take, drop, filter, sort_by, count_where,
}
use mathlib.Core.Option
use incident_api.Model.Errors.{app, cursor_sort_mismatch_error, invalid_query}
use incident_api.Model.Text.{Text, same_text}
use incident_api.Model.Exec.{Result, ok, err}

pub record OffsetPage {ℓ} (A : Type ℓ) : Type ℓ where
  pub items : List A
  pub page : ℕ
  pub page_size : ℕ
  pub total_items : ℕ
  pub total_pages : ℕ

-- `Math.ceil(a / b)`, for a positive `b`.
abbrev pub ceil_div : ℕ → ℕ → ℕ
ceil_div a b = (a + (b - 1)) / b

abbrev pub at_least_one : ℕ → ℕ
at_least_one n = if ltb n 1 then 1 else n

unfoldable pub build_offset_page {ℓ} :
    {A : Type ℓ} → List A → (total_items page page_size : ℕ) → OffsetPage A
build_offset_page items total_items page page_size = record {
  items = items;
  page = page;
  page_size = page_size;
  total_items = total_items;
  total_pages = at_least_one (ceil_div total_items page_size);
}

-- `findMany({ where, orderBy, skip: (page - 1) * pageSize, take: pageSize })` beside
-- `count({ where })`. Pages are counted from 1 (`offsetQuerySchema`). The query reads the rows in the
-- order of their places, and its stable sort leaves rows in that order that ORDER BY does not tell
-- apart.
abbrev pub by_place : {A : Type 0} → (A → ℕ) → A → A → Bool
by_place place a b = ltb (place a) (place b)

unfoldable pub count_and_find :
    {A : Type 0}
    → (place : A → ℕ) → (A → A → Bool)
    → (A → Bool)
    → List A
    → (page page_size : ℕ) → ℕ × List A
count_and_find place before p rows page page_size = (
  count_where p rows,
  take page_size
      (drop ((page - 1) * page_size) (sort_by before (filter p (sort_by (by_place place) rows)))),
)

-- `findMany({ where, orderBy, take })`.
abbrev pub find_first_rows : {A : Type 0} → (A → A → Bool) → (A → Bool) → ℕ → List A → List A
find_first_rows before p n rows = take n (sort_by before (filter p rows))

pub record CursorPage (A : Type 0) : Type 0 where
  pub items : List A
  pub next_cursor : Option Text
  pub has_more : Bool

abbrev pub last_of : {A : Type 0} → List A → Option A
last_of [] = none
last_of (x ∷ []) = some x
last_of (x ∷ y ∷ xs) = last_of (y ∷ xs)

-- The rows of a page, without the one that is read to see whether there is more.
abbrev pub page_rows : {A : Type 0} → (page_size : ℕ) → List A → List A
page_rows page_size rows = if ltb page_size (length rows) then take page_size rows else rows

-- What each cursor list does with the `pageSize + 1` rows that it has read.
unfoldable pub cursor_page :
    {A B : Type 0} → (A → B) → (A → Text) → (page_size : ℕ) → List A → CursorPage B
cursor_page item cursor_of page_size rows =
    let has_more = ltb page_size (length rows) in
    let page = if has_more then take page_size rows else rows in
    record {
      items = map item page;
      next_cursor = if has_more then Option.map cursor_of (last_of page) else none;
      has_more = has_more;
    }

-- A `to` bound: a date without a time, at its midnight, or a full timestamp.
pub data DateInput : Type 0 where
  date_only instant : ℕ → DateInput

abbrev pub day_ms : ℕ
day_ms = 86400000

abbrev pub new_date : DateInput → ℕ
new_date (date_only t) = t
new_date (instant t) = t

unfoldable pub exclusive_end_of_day : DateInput → ℕ
exclusive_end_of_day (date_only t) = t + day_ms
exclusive_end_of_day (instant t) = t
