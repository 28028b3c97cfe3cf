-- ===== src/Pagination/Cursors.antt =====
-- Cursors: round trips between the encoders and decoders of the three tags, and the orders of the
-- lists that use them.
use incident_api.Base.{
  ℕ, ◌≡◌, refl, Bool, true, ◌&&◌, ◌||◌, Option, none, some, arith, ltb, ◌==◌, List, [], ◌∷◌, ◌++◌,
  ap, filter, sort_by, Unique,
}
use incident_api.Model.Errors.{app, cursor_sort_mismatch_error}
use incident_api.Model.Text.{Text}
use incident_api.Model.Exec.{Result, ok, err}
use incident_api.Pagination.Tokens.{
  Codec, given, object, string, created_at_id_key, occurred_at_id_key, optional_cursor,
  time_id_bound, TimeIdWhere, TimeIdCursor, encode_created_at_id_cursor,
  decode_created_at_id_cursor, encode_occurred_at_id_cursor, decode_occurred_at_id_cursor,
  encode_escalation_feed_cursor, decode_escalation_feed_cursor, time_id_cursor_where,
}
use incident_api.Pagination.Keyset.{IsOrder, filter_congr, find_after}

abbrev pub mismatch : {A : Type 0} → Result A
mismatch = err (app cursor_sort_mismatch_error)

module _ (codec : Codec) where
  pub created_round_trip :
      (t i : ℕ)
      → decode_created_at_id_cursor codec (encode_created_at_id_cursor codec t i)
        ≡ ok (record { time = some t; id = given i })
  unfolding encode_created_at_id_cursor decode_created_at_id_cursor
  created_round_trip t i = rw (codec.decode-encode, codec.parse-to_iso, codec.place-id_text) refl

  pub occurred_round_trip :
      (t i : ℕ)
      → decode_occurred_at_id_cursor codec (encode_occurred_at_id_cursor codec t i)
        ≡ ok (record { time = some t; id = given i })
  unfolding encode_occurred_at_id_cursor decode_occurred_at_id_cursor
  occurred_round_trip t i = rw (codec.decode-encode, codec.parse-to_iso, codec.place-id_text) refl

  pub feed_round_trip :
      (l t i : ℕ)
      → decode_escalation_feed_cursor codec (encode_escalation_feed_cursor codec l t i)
        ≡ ok (record { level = given l; since = some t; id = given i })
  unfolding encode_escalation_feed_cursor decode_escalation_feed_cursor
  feed_round_trip l t i = rw (codec.decode-encode, codec.parse-to_iso, codec.place-id_text) refl

  -- Each of the three cursors decodes to what was encoded, and every decoder refuses the cursors of
  -- the other two endpoints and texts that are no JSON with CURSOR_SORT_MISMATCH.
  pub cursor_tags :
      (l t i : ℕ) (raw : Text)
      → codec.decode raw ≡ none
      → ((decode_created_at_id_cursor codec (encode_created_at_id_cursor codec t i)
            ≡ ok (record { time = some t; id = given i }))
          × (decode_occurred_at_id_cursor codec (encode_occurred_at_id_cursor codec t i)
              ≡ ok (record { time = some t; id = given i }))
          × (decode_escalation_feed_cursor codec (encode_escalation_feed_cursor codec l t i)
              ≡ ok (record { level = given l; since = some t; id = given i })))
        × ((decode_created_at_id_cursor codec (encode_occurred_at_id_cursor codec t i) ≡ mismatch)
            × (decode_created_at_id_cursor codec (encode_escalation_feed_cursor codec l t i)
                ≡ mismatch)
            × (decode_occurred_at_id_cursor codec (encode_created_at_id_cursor codec t i)
                ≡ mismatch)
            × (decode_occurred_at_id_cursor codec (encode_escalation_feed_cursor codec l t i)
                ≡ mismatch)
            × (decode_escalation_feed_cursor codec (encode_created_at_id_cursor codec t i)
                ≡ mismatch)
            × (decode_escalation_feed_cursor codec (encode_occurred_at_id_cursor codec t i)
                ≡ mismatch))
        × ((decode_created_at_id_cursor codec raw ≡ mismatch)
            × (decode_occurred_at_id_cursor codec raw ≡ mismatch)
            × (decode_escalation_feed_cursor codec raw ≡ mismatch))
  unfolding encode_created_at_id_cursor decode_created_at_id_cursor encode_occurred_at_id_cursor
      decode_occurred_at_id_cursor encode_escalation_feed_cursor decode_escalation_feed_cursor
  cursor_tags l t i raw garbage = (
    (created_round_trip t i, occurred_round_trip t i, feed_round_trip l t i),
    (
      rw codec.decode-encode refl,
      rw codec.decode-encode refl,
      rw codec.decode-encode refl,
      rw codec.decode-encode refl,
      rw codec.decode-encode refl,
      rw codec.decode-encode refl,
    ),
    (rw garbage refl, rw garbage refl, rw garbage refl),
  )

-- `ORDER BY time DESC, id DESC`.
module _ {A : Type 0} (time key : A → ℕ) where
  abbrev pub newest_first : A → A → Bool
  newest_first a b = ltb (time b) (time a) || (time a == time b && ltb (key b) (key a))

  pub newest_first-IsOrder : IsOrder newest_first key
  newest_first-IsOrder = record {
    asym = λ a b h. ground arith;
    trans = λ a b c h k. ground arith;
    total = λ a b n h. ground arith;
  }

  -- The condition of a cursor is the order of the list.
  pub time_id-newest_first :
      (a b : A) → time_id_cursor_where (time a) (given (key a)) (time b) (key b) ≡ newest_first a b
  unfolding time_id_cursor_where
  time_id-newest_first a b = ground arith

  -- The query of a list without a cursor, and with the cursor of one of its rows.
  module _ (p : A → Bool) (rows : List A) where
    abbrev pub newest_rows : TimeIdWhere → List A
    newest_rows bound = sort_by newest_first (filter (λ y. p y && bound (time y) (key y)) rows)

    pub newest_unbounded : newest_rows (λ t i. true) ≡ sort_by newest_first (filter p rows)
    newest_unbounded =
        ap (sort_by newest_first) (filter_congr (λ y. p y && true) p rows (λ y. ground arith))

    pub newest_after :
        (pre : List A) (x : A) (post : List A)
        → Unique key rows
        → sort_by newest_first (filter p rows) ≡ pre ++ x ∷ post
        → newest_rows (time_id_cursor_where (time x) (given (key x))) ≡ post
    newest_after pre x post u split =
        find_after newest_first key newest_first-IsOrder p
          (λ y. time_id_cursor_where (time x) (given (key x)) (time y) (key y)) rows pre x post u
          (time_id-newest_first x) split

-- A cursor that an encoder made is not taken for a missing one.
pub optional_encoded :
    {A : Type 0} (decode : Text → Result A) (raw : Text) (c : ℕ) (s : Text) (a : A)
    → raw ≡ c ∷ s
    → decode raw ≡ ok a
    → optional_cursor decode (some raw) ≡ ok (some a)
unfolding optional_cursor
optional_encoded decode raw c s a e d =
    let read : decode (c ∷ s) ≡ ok a = rw e at d in rw (e, read) refl

module _ (codec : Codec) (t i : ℕ) where
  -- The bound that a list gets back from the cursor of a row.
  pub created_bound :
      (cursor : Option TimeIdCursor) × (optional_cursor
          (decode_created_at_id_cursor codec)
          (some (encode_created_at_id_cursor codec t i))
        ≡ ok cursor)
      × (time_id_bound cursor ≡ ok (time_id_cursor_where t (given i)))
  unfolding encode_created_at_id_cursor time_id_bound
  created_bound =
      let (c, s, e) = codec.encode_some (
        object (some created_at_id_key)
          (some (string (codec.to_iso t) ∷ string (codec.id_text i) ∷ []))) in
      (
        some (record { time = some t; id = given i }),
        optional_encoded (decode_created_at_id_cursor codec) _ c s _ e
            (created_round_trip codec t i),
        refl,
      )

  pub occurred_bound :
      (cursor : Option TimeIdCursor) × (optional_cursor
          (decode_occurred_at_id_cursor codec)
          (some (encode_occurred_at_id_cursor codec t i))
        ≡ ok cursor)
      × (time_id_bound cursor ≡ ok (time_id_cursor_where t (given i)))
  unfolding encode_occurred_at_id_cursor time_id_bound
  occurred_bound =
      let (c, s, e) = codec.encode_some (
        object (some occurred_at_id_key)
          (some (string (codec.to_iso t) ∷ string (codec.id_text i) ∷ []))) in
      (
        some (record { time = some t; id = given i }),
        optional_encoded (decode_occurred_at_id_cursor codec) _ c s _ e
            (occurred_round_trip codec t i),
        refl,
      )
