-- ===== src/Pagination/Tokens.antt =====
-- The cursors of src/core/pagination.ts, which name the sort that they were made for, and the bounds
-- that they set. A raw cursor is text; JSON, base64url and the printing of dates are Node's, and enter
-- as a codec.
use incident_api.Base.{
  ℕ, zero, suc, ◌≡◌, Bool, true, false, ◌&&◌, ◌||◌, Option, none, some, List, [], ◌∷◌, ltb, ◌==◌,
  if◌then◌else◌,
}
use incident_api.Model.Errors.{app, cursor_sort_mismatch_error, invalid_query}
use incident_api.Model.Text.{Text, same_text}
use incident_api.Model.Exec.{Result, ok, err}

-- A member of a cursor's `v`; booleans, nested values and numbers that are not natural are `other`.
pub data CursorValue : Type 0 where
  string : Text → CursorValue
  number : ℕ → CursorValue
  null other : CursorValue

-- A JSON value, as far as `decodeCursor` looks at it: `k` where that is a string, `v` where that is
-- an array.
pub data Json : Type 0 where
  scalar : Json
  object : (k : Option Text) → (v : Option (List CursorValue)) → Json

-- What the code uses of Node and of ids. `encode` is `JSON.stringify` and base64url, `decode` reads
-- that back and is `none` where the text does not parse; what is encoded is never empty. `to_iso` prints a date, `parse_date` is
-- `new Date(text)`, with `none` for an invalid date. `id_text` prints the id at a place of the
-- database's order, `id_place` is the place of a text.
pub record Codec : Type 0 where
  pub encode : Json → Text
  pub decode : Text → Option Json
  pub to_iso : ℕ → Text
  pub parse_date : Text → Option ℕ
  pub id_text : ℕ → Text
  pub id_place : Text → ℕ
  pub encode_some : (j : Json) → (c : ℕ) × (s : Text) × (encode j ≡ c ∷ s)
  pub decode-encode : (j : Json) → decode (encode j) ≡ some j
  pub parse-to_iso : (t : ℕ) → parse_date (to_iso t) ≡ some t
  pub place-id_text : (i : ℕ) → id_place (id_text i) ≡ i

-- The three tags: `CREATED_AT_ID_KEY`, `ESCALATION_FEED_KEY` and `OCCURRED_AT_ID_KEY`.
abbrev pub created_at_id_key : Text
created_at_id_key = 99 ∷ 114 ∷ 101 ∷ 97 ∷ 116 ∷ 101 ∷ 100 ∷ 65 ∷ 116 ∷ 46 ∷ 105 ∷ 100 ∷ []

abbrev pub escalation_feed_key : Text
escalation_feed_key =
    108 ∷ 101 ∷ 118 ∷ 101 ∷ 108 ∷ 46 ∷ 104 ∷ 105 ∷ 103 ∷ 104 ∷ 83 ∷ 101 ∷ 118 ∷ 101 ∷ 114 ∷ 105
    ∷ 116 ∷ 121 ∷ 83 ∷ 105 ∷ 110 ∷ 99 ∷ 101 ∷ 46 ∷ 105 ∷ 100 ∷ []

abbrev pub occurred_at_id_key : Text
occurred_at_id_key = 111 ∷ 99 ∷ 99 ∷ 117 ∷ 114 ∷ 114 ∷ 101 ∷ 100 ∷ 65 ∷ 116 ∷ 46 ∷ 105 ∷ 100 ∷ []

-- What the casts of a decoded member may really hold: nothing where `v` is too short.
pub data IdArgument : Type 0 where
  given : ℕ → IdArgument
  undefined wrong : IdArgument

pub record TimeIdCursor : Type 0 where
  pub time : Option ℕ
  pub id : IdArgument

pub record FeedCursor : Type 0 where
  pub level : IdArgument
  pub since : Option ℕ
  pub id : IdArgument

abbrev pub member_at : ℕ → List CursorValue → Option CursorValue
member_at n [] = none
member_at zero (v ∷ vs) = some v
member_at (suc n) (v ∷ vs) = member_at n vs

abbrev pub on_result : {A B : Type 0} → (A → B) → Result A → Result B
on_result f (ok a) = ok (f a)
on_result f (err e) = err e

module _ (codec : Codec) where
  unfoldable pub encode_cursor : (k : Text) → List CursorValue → Text
  encode_cursor k v = codec.encode (object (some k) (some v))

  -- The checks of `decodeCursor` on the parsed value.
  unfoldable pub check_cursor : (expected_key : Text) → Option Json → Result (List CursorValue)
  check_cursor expected_key (some (object (some k) (some v))) =
      if same_text k expected_key then ok v else err (app cursor_sort_mismatch_error)
  check_cursor expected_key _ = err (app cursor_sort_mismatch_error)

  unfoldable pub decode_cursor : (raw expected_key : Text) → Result (List CursorValue)
  unfolding check_cursor
  decode_cursor raw expected_key = check_cursor expected_key (codec.decode raw)

  -- `new Date(value as string)`; `new Date(undefined)` is invalid, `new Date(null)` is time 0.
  abbrev date_of : Option CursorValue → Option ℕ
  date_of (some (string s)) = codec.parse_date s
  date_of (some (number n)) = some n
  date_of (some null) = some 0
  date_of _ = none

  -- `value as string`.
  abbrev id_of : Option CursorValue → IdArgument
  id_of (some (string s)) = given (codec.id_place s)
  id_of none = undefined
  id_of _ = wrong

  -- `value as number`.
  abbrev level_of : Option CursorValue → IdArgument
  level_of (some (number n)) = given n
  level_of none = undefined
  level_of _ = wrong

  abbrev time_id : List CursorValue → TimeIdCursor
  time_id v = record { time = date_of (member_at 0 v); id = id_of (member_at 1 v) }

  unfoldable pub encode_created_at_id_cursor : (created_at id : ℕ) → Text
  unfolding encode_cursor
  encode_created_at_id_cursor created_at id =
      encode_cursor created_at_id_key
        (string (codec.to_iso created_at) ∷ string (codec.id_text id) ∷ [])

  unfoldable pub decode_created_at_id_cursor : (raw : Text) → Result TimeIdCursor
  unfolding decode_cursor
  decode_created_at_id_cursor raw = on_result time_id (decode_cursor raw created_at_id_key)

  unfoldable pub encode_occurred_at_id_cursor : (occurred_at id : ℕ) → Text
  unfolding encode_cursor
  encode_occurred_at_id_cursor occurred_at id =
      encode_cursor occurred_at_id_key
        (string (codec.to_iso occurred_at) ∷ string (codec.id_text id) ∷ [])

  unfoldable pub decode_occurred_at_id_cursor : (raw : Text) → Result TimeIdCursor
  unfolding decode_cursor
  decode_occurred_at_id_cursor raw = on_result time_id (decode_cursor raw occurred_at_id_key)

  unfoldable pub encode_escalation_feed_cursor : (level since id : ℕ) → Text
  unfolding encode_cursor
  encode_escalation_feed_cursor level since id =
      encode_cursor escalation_feed_key
        (number level ∷ string (codec.to_iso since) ∷ string (codec.id_text id) ∷ [])

  unfoldable pub decode_escalation_feed_cursor : (raw : Text) → Result FeedCursor
  unfolding decode_cursor
  decode_escalation_feed_cursor raw =
      on_result
        (λ v. record {
          level = level_of (member_at 0 v);
          since = date_of (member_at 1 v);
          id = id_of (member_at 2 v);
        })
        (decode_cursor raw escalation_feed_key)

-- `cursorRaw ? decode(cursorRaw) : undefined`: an empty text is no cursor.
unfoldable pub optional_cursor : {A : Type 0} → (Text → Result A) → Option Text → Result (Option A)
optional_cursor decode none = ok none
optional_cursor decode (some []) = ok none
optional_cursor decode (some (c ∷ s)) = on_result some (decode (c ∷ s))

-- `{ field: { lt: bound } }` and `{ field: bound }`, where a bound that is `undefined` leaves the
-- condition out.
abbrev pub lt_bound : ℕ → IdArgument → Bool
lt_bound n (given b) = ltb n b
lt_bound n _ = true

abbrev pub gt_bound : ℕ → IdArgument → Bool
gt_bound n (given b) = ltb b n
gt_bound n _ = true

abbrev pub eq_bound : ℕ → IdArgument → Bool
eq_bound n (given b) = n == b
eq_bound n _ = true

-- `createdAtIdCursorWhere` and `occurredAtIdCursorWhere`, on the two columns of a row.
unfoldable pub time_id_cursor_where : (time : ℕ) → IdArgument → (row_time row_id : ℕ) → Bool
time_id_cursor_where time id row_time row_id =
    ltb row_time time || (row_time == time && lt_bound row_id id)

-- `escalationFeedCursorWhere`: a comparison with a null `highSeveritySince` does not hold.
abbrev pub holds_at : (ℕ → Bool) → Option ℕ → Bool
holds_at p none = false
holds_at p (some n) = p n

unfoldable pub escalation_feed_cursor_where :
    IdArgument
    → (since : ℕ) → IdArgument
    → (row_level : ℕ) → (row_since : Option ℕ) → (row_id : ℕ) → Bool
escalation_feed_cursor_where level since id row_level row_since row_id =
    lt_bound row_level level
    || (eq_bound row_level level && holds_at (λ s. ltb since s) row_since)
    || (eq_bound row_level level && holds_at (λ s. s == since) row_since && gt_bound row_id id)

-- Prisma refuses a query with an invalid date or an argument of another type.
abbrev pub is_argument : IdArgument → Bool
is_argument wrong = false
is_argument _ = true

-- The condition that a list adds for its cursor, if it has one.
abbrev pub TimeIdWhere : Type 0
TimeIdWhere = (row_time row_id : ℕ) → Bool

abbrev pub time_id_argument : Option ℕ → IdArgument → Result TimeIdWhere
unfolding time_id_cursor_where
time_id_argument none id = err invalid_query
time_id_argument (some t) id =
    if is_argument id then ok (time_id_cursor_where t id) else err invalid_query

unfoldable pub time_id_bound : Option TimeIdCursor → Result TimeIdWhere
unfolding time_id_cursor_where
time_id_bound none = ok (λ t i. true)
time_id_bound (some c) = time_id_argument c.time c.id

abbrev pub FeedWhere : Type 0
FeedWhere = (row_level : ℕ) → (row_since : Option ℕ) → (row_id : ℕ) → Bool

abbrev pub feed_argument : IdArgument → Option ℕ → IdArgument → Result FeedWhere
unfolding escalation_feed_cursor_where
feed_argument level none id = err invalid_query
feed_argument level (some t) id =
    if is_argument level && is_argument id
    then ok (escalation_feed_cursor_where level t id)
    else err invalid_query

unfoldable pub feed_bound : Option FeedCursor → Result FeedWhere
unfolding escalation_feed_cursor_where
feed_bound none = ok (λ l s i. true)
feed_bound (some c) = feed_argument c.level c.since c.id
