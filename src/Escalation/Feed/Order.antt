-- ===== src/Escalation/Feed/Order.antt =====
-- The order of the feed of src/modules/escalation/escalation.service.ts and the bound of its cursor.
use incident_api.Base.{
  ℕ, ◌≡◌, ◌≢◌, refl, sym, ap, ◌∙◌, inl, inr, Bool, true, false, ◌&&◌, ◌||◌, Option, none, some,
  List, [], ◌∷◌, ◌++◌, ltb, ◌==◌, is_some, All, All-mono, Unique, filter, sort_by, Bool-cases,
  arith,
}
use incident_api.Model.Rows.{Incident}
use incident_api.Model.Exec.{ok}
use incident_api.Pagination.Tokens.{
  Codec, FeedCursor, FeedWhere, feed_bound, optional_cursor, given, object, string, number,
  escalation_feed_key, encode_escalation_feed_cursor, decode_escalation_feed_cursor,
  escalation_feed_cursor_where,
}
use incident_api.Pagination.Keyset.{IsOrder, find_after}
use incident_api.Pagination.Cursors.{optional_encoded, feed_round_trip}
use incident_api.Incidents.Repository.{incident_id}
use incident_api.Escalation.Feed.{option_before, same_since, feed_before}

-- The order on the three columns.
abbrev columns_before : (l : ℕ) → Option ℕ → (i m : ℕ) → Option ℕ → (j : ℕ) → Bool
columns_before l s i m t j =
    ltb m l || (l == m && (option_before s t || (same_since s t && ltb i j)))

columns_asym :
    (l : ℕ) (s : Option ℕ) (i m : ℕ) (t : Option ℕ) (j : ℕ)
    → columns_before l s i m t j ≡ true
    → columns_before m t j l s i ≡ false
columns_asym l none i m none j h = ground (arith, h)
columns_asym l none i m (some b) j h = ground (arith, h)
columns_asym l (some a) i m none j h = ground (arith, h)
columns_asym l (some a) i m (some b) j h = ground (arith, h)

columns_total :
    (l : ℕ) (s : Option ℕ) (i m : ℕ) (t : Option ℕ) (j : ℕ)
    → j ≢ i
    → columns_before m t j l s i ≡ false
    → columns_before l s i m t j ≡ true
columns_total l none i m none j n h = ground (arith, h)
columns_total l none i m (some b) j n h = ground (arith, h)
columns_total l (some a) i m none j n h = ground (arith, h)
columns_total l (some a) i m (some b) j n h = ground (arith, h)

columns_trans :
    (l : ℕ) (s : Option ℕ) (i m : ℕ) (t : Option ℕ) (j n : ℕ) (u : Option ℕ) (k : ℕ)
    → columns_before l s i m t j ≡ true
    → columns_before m t j n u k ≡ true
    → columns_before l s i n u k ≡ true
columns_trans l none i m none j n none k h h' = ground (arith, h, h')
columns_trans l none i m none j n (some c) k h h' = ground (arith, h, h')
columns_trans l none i m (some b) j n none k h h' = ground (arith, h, h')
columns_trans l none i m (some b) j n (some c) k h h' = ground (arith, h, h')
columns_trans l (some a) i m none j n none k h h' = ground (arith, h, h')
columns_trans l (some a) i m none j n (some c) k h h' = ground (arith, h, h')
columns_trans l (some a) i m (some b) j n none k h h' = ground (arith, h, h')
columns_trans l (some a) i m (some b) j n (some c) k h h' = ground (arith, h, h')

pub feed_before-IsOrder : IsOrder feed_before incident_id
feed_before-IsOrder = record {
  asym = λ a b.
      columns_asym a.current_escalation_level a.high_severity_since a.id b.current_escalation_level
        b.high_severity_since b.id;
  trans = λ a b c.
      columns_trans a.current_escalation_level a.high_severity_since a.id b.current_escalation_level
        b.high_severity_since b.id c.current_escalation_level c.high_severity_since c.id;
  total = λ a b.
      columns_total a.current_escalation_level a.high_severity_since a.id b.current_escalation_level
        b.high_severity_since b.id;
}

-- The bound that a cursor sets, on a row whose clock is running.
bound-columns :
    (l a i m b j : ℕ)
    → escalation_feed_cursor_where (given l) a (given i) m (some b) j
      ≡ columns_before l (some a) i m (some b) j
unfolding escalation_feed_cursor_where
bound-columns l a i m b j = ground arith

-- The bound that the feed gets back from the cursor of a row.
pub escalation_bound :
    (codec : Codec) (l t i : ℕ)
    → (cursor : Option FeedCursor) × (optional_cursor
          (decode_escalation_feed_cursor codec)
          (some (encode_escalation_feed_cursor codec l t i))
        ≡ ok cursor)
      × (feed_bound cursor ≡ ok (escalation_feed_cursor_where (given l) t (given i)))
unfolding encode_escalation_feed_cursor feed_bound
escalation_bound codec l t i =
    let (c, s, e) = codec.encode_some (
      object (some escalation_feed_key)
        (some (number l ∷ string (codec.to_iso t) ∷ string (codec.id_text i) ∷ []))) in
    (
      some (record { level = given l; since = some t; id = given i }),
      optional_encoded (decode_escalation_feed_cursor codec) _ c s _ e
          (feed_round_trip codec l t i),
      refl,
    )

filter_congr_All :
    {A : Type 0} (p q : A → Bool) (xs : List A)
    → All (λ x. p x ≡ q x) xs
    → filter p xs ≡ filter q xs
filter_congr_All p q [] h = refl
filter_congr_All p q (x ∷ xs) (e, h) = ground (arith, filter_congr_All p q xs h, e)

-- The clock of an escalated incident is running.
abbrev pub Clocked : Incident → Type 0
Clocked row = ltb 0 row.current_escalation_level ≡ true → is_some row.high_severity_since ≡ true

abbrev pub bounded_rows : (Incident → Bool) → FeedWhere → List Incident → List Incident
bounded_rows p bound rows = sort_by feed_before (
    filter (λ row. p row && bound row.current_escalation_level row.high_severity_since row.id) rows)

module _ (p : Incident → Bool) (rows : List Incident) (clocked : All Clocked rows)
    (escalated : (row : Incident) → p row ≡ true → ltb 0 row.current_escalation_level ≡ true) where
  pub unbounded : bounded_rows p (λ l s i. true) rows ≡ sort_by feed_before (filter p rows)
  unbounded = ap (sort_by feed_before) (
      filter_congr_All (λ row. p row && true) p rows
        (All-mono Clocked _ rows (λ row c. ground arith) clocked))

  agrees :
      (l a i : ℕ) (row : Incident) (s : Option ℕ)
      → (p row ≡ true → is_some s ≡ true)
      → (p row
          && escalation_feed_cursor_where
              (given l)
              a
              (given i)
              row.current_escalation_level
              s
              row.id)
        ≡ (p row && columns_before l (some a) i row.current_escalation_level s row.id)
  agrees l a i row none running = elim (Bool-cases (p row)) [
    | inl e ↦ absurd (ground (arith, running e))
    | inr e ↦ rw e refl
  ]
  agrees l a i row (some b) running =
      ap (λ c. p row && c) (bound-columns l a i row.current_escalation_level b row.id)

  -- The rows behind a row are those that its cursor leaves.
  pub behind :
      (pre : List Incident) (x : Incident) (post : List Incident) (a : ℕ)
      → Unique incident_id rows
      → x.high_severity_since ≡ some a
      → sort_by feed_before (filter p rows) ≡ pre ++ x ∷ post
      → bounded_rows p
          (escalation_feed_cursor_where (given x.current_escalation_level) a (given x.id))
          rows
        ≡ post
  behind pre x post a u since split =
      let same : All
          (λ (row : Incident).
            (p row
              && escalation_feed_cursor_where (given x.current_escalation_level) a (given x.id)
                  row.current_escalation_level row.high_severity_since row.id)
            ≡ (p row && feed_before x row))
          rows =
        All-mono Clocked _ rows
          (λ row c.
            agrees x.current_escalation_level a x.id row row.high_severity_since
              (λ e. c (escalated row e))
            ∙ ap
                (λ o.
                  p row
                  && columns_before x.current_escalation_level o x.id row.current_escalation_level
                      row.high_severity_since row.id)
                (sym since))
          clocked in
      ap (sort_by feed_before) (filter_congr_All _ (λ row. p row && feed_before x row) rows same)
      ∙ find_after feed_before incident_id feed_before-IsOrder p (feed_before x) rows pre x post u
          (λ y. refl) split
