-- ===== src/Escalation/Feed/Complete.antt =====
-- A viewer who reads the feed of src/modules/escalation/escalation.service.ts page by page.
use mathlib.Core.List.{map-append}
use mathlib.Core.Path.{subst}
use incident_api.Base.{
  ℕ, suc, ◌<◌, ◌≡◌, refl, sym, ap, ◌∙◌, inl, inr, Bool, true, Option, none, some, List, ◌∷◌, ◌++◌,
  map, ltb, or_else, is_some, filter, sort_by, length, take, All, All-mono, All-filter, All-sort,
  All-suffix, All-take, Unique, Option-cases, arith,
}
use incident_api.Model.Text.{Text}
use incident_api.Model.Rows.{Actor, Incident}
use incident_api.Model.World.{World}
use incident_api.Model.Exec.{Result, ok}
use incident_api.Pagination.{CursorPage, cursor_page}
use incident_api.Pagination.Tokens.{
  Codec, FeedCursor, FeedWhere, feed_bound, optional_cursor, given, encode_escalation_feed_cursor,
  decode_escalation_feed_cursor, escalation_feed_cursor_where,
}
use incident_api.Pagination.Keyset.{filter-Unique}
use incident_api.Pagination.Walk.{read_all, walk_all, take-map}
use incident_api.Incidents.Repository.{incident_id}
use incident_api.Escalation.Feed.{
  active_escalation_where, feed_before, feed_row, list_feed, find_active_escalations_page,
  EscalationFeedItem,
}
use incident_api.Escalation.Feed.Order.{
  Clocked, bounded_rows, unbounded, behind, escalation_bound, feed_before-IsOrder,
}
use incident_api.Escalation.Feed.Events.{ActiveRow, HasCurrent, shown_row}
use incident_api.Escalation.Feed.Rows.{
  incident_of, All-unmap, sort-Unique, suffix-Unique, take-Unique, with_current,
  with_current-HasCurrent, with_current-rows, Found, Running, row_cursor,
}
use incident_api.Escalation.Feed.Page.{after_rows, after-shown}

module _ (codec : Codec) (actor : Actor) (w : World) (unique : Unique incident_id w.db.incidents)
    (clocked : All Clocked w.db.incidents)
    (current : All
      (λ (r : Incident). ltb 0 r.current_escalation_level ≡ true → Found w.db.events r)
      w.db.incidents)
    (size : ℕ) where
  abbrev admitted : Incident → Bool
  admitted = active_escalation_where actor

  -- The active escalations that the actor may see, in the order of the feed.
  abbrev pub active_rows : List Incident
  active_rows = sort_by feed_before (filter admitted w.db.incidents)

  abbrev pub active_feed : List ActiveRow
  active_feed = with_current w.db.events active_rows

  escalated : (row : Incident) → admitted row ≡ true → ltb 0 row.current_escalation_level ≡ true
  unfolding active_escalation_where
  escalated row h = ground (arith, h)

  active_All :
      (P : Incident → Type 0)
      → All (λ (r : Incident). ltb 0 r.current_escalation_level ≡ true → P r) w.db.incidents
      → All P active_rows
  active_All P h = All-sort feed_before P (filter admitted w.db.incidents) (
      All-mono _ P (filter admitted w.db.incidents) (λ r c. c.0 (escalated r c.1))
        (All-filter (λ (r : Incident). ltb 0 r.current_escalation_level ≡ true → P r) admitted
          w.db.incidents h))

  feed-rows : map incident_of active_feed ≡ active_rows
  feed-rows = with_current-rows w.db.events active_rows (active_All (Found w.db.events) current)

  feed-Running : All Running active_feed
  feed-Running =
      All-unmap (λ (r : Incident). is_some r.high_severity_since ≡ true) incident_of active_feed
        (subst (All (λ (r : Incident). is_some r.high_severity_since ≡ true)) (sym feed-rows)
          (active_All (λ r. is_some r.high_severity_since ≡ true) clocked))

  feed-Unique : Unique incident_id (map incident_of active_feed)
  feed-Unique = subst (Unique incident_id) (sym feed-rows) (
      sort-Unique (filter admitted w.db.incidents)
        (filter-Unique feed_before incident_id feed_before-IsOrder admitted w.db.incidents unique))

  abbrev page_after : Option Text → Result (CursorPage EscalationFeedItem) × World
  page_after raw = list_feed codec actor raw (suc size) w

  abbrev answer : List ActiveRow → Result (CursorPage EscalationFeedItem) × World
  answer rows = (
    ok (
        cursor_page (shown_row w.db.users) (row_cursor codec) (suc size)
          (take (suc (suc size)) rows)),
    w,
  )

  -- The answer to a cursor, from the rows that its bound leaves.
  bounded :
      (raw : Option Text) (cursor : Option FeedCursor) (bound : FeedWhere) (rows : List ActiveRow)
      → optional_cursor (decode_escalation_feed_cursor codec) raw ≡ ok cursor
      → feed_bound cursor ≡ ok bound
      → bounded_rows admitted bound w.db.incidents ≡ map incident_of rows
      → Unique incident_id (map incident_of rows)
      → All Running rows
      → All (HasCurrent w.db.events) rows
      → page_after raw ≡ answer rows
  unfolding list_feed find_active_escalations_page after_rows
  bounded raw cursor bound rows d b e u running has =
      let k : ℕ = suc (suc size) in
      let read : take k (bounded_rows admitted bound w.db.incidents)
          ≡ map incident_of (take k rows) =
        ap (take k) e ∙ take-map incident_of k rows in
      let distinct =
        subst (Unique incident_id) (take-map incident_of k rows)
          (take-Unique k (map incident_of rows) u) in
      rw d (
        rw b (
          ap (λ rs. after_rows codec w (suc size) (map (feed_row w.db.users) rs)) read
          ∙ after-shown codec w (suc size) (take k rows) distinct (All-take Running k rows running)
              (All-take (HasCurrent w.db.events) k rows has)))

  first_page : page_after none ≡ answer active_feed
  unfolding optional_cursor feed_bound
  first_page =
      bounded none none (λ l s i. true) active_feed refl refl
        (unbounded admitted w.db.incidents clocked escalated ∙ sym feed-rows) feed-Unique
        feed-Running (with_current-HasCurrent w.db.events active_rows)

  follows_at :
      (pre : List ActiveRow) (x : ActiveRow) (post : List ActiveRow) (a : ℕ)
      → active_feed ≡ pre ++ x ∷ post
      → x.0.high_severity_since ≡ some a
      → page_after (some (row_cursor codec x)) ≡ answer post
  unfolding encode_escalation_feed_cursor
  follows_at pre x post a split since =
      let rows : active_rows ≡ map incident_of pre ++ x.0 ∷ map incident_of post =
        sym feed-rows ∙ ap (map incident_of) split ∙ map-append incident_of pre (x ∷ post) in
      let (cursor, d, b) = escalation_bound codec x.0.current_escalation_level a x.0.id in
      let raw : row_cursor codec x
          ≡ encode_escalation_feed_cursor codec x.0.current_escalation_level a x.0.id =
        ap
          (λ o.
            encode_escalation_feed_cursor codec x.0.current_escalation_level (or_else o 0) x.0.id)
          since in
      let tail : Unique incident_id (x.0 ∷ map incident_of post) =
        suffix-Unique (map incident_of pre) (x.0 ∷ map incident_of post)
          (subst (Unique incident_id) (feed-rows ∙ rows) feed-Unique) in
      let running = All-suffix Running pre (x ∷ post) (subst (All Running) split feed-Running) in
      let has = All-suffix (HasCurrent w.db.events) pre (x ∷ post) (
        subst (All (HasCurrent w.db.events)) split
          (with_current-HasCurrent w.db.events active_rows)) in
      ap (λ c. page_after (some c)) raw
      ∙ bounded _ cursor
          (escalation_feed_cursor_where (given x.0.current_escalation_level) a (given x.0.id)) post
          d b
          (behind admitted w.db.incidents clocked escalated (map incident_of pre) x.0
            (map incident_of post) a unique since rows)
          tail.1 running.1 has.1

  follows :
      (pre : List ActiveRow) (x : ActiveRow) (post : List ActiveRow)
      → active_feed ≡ pre ++ x ∷ post
      → page_after (some (row_cursor codec x)) ≡ answer post
  follows pre x post split =
      let running =
        (All-suffix Running pre (x ∷ post) (subst (All Running) split feed-Running)).0 in
      elim (Option-cases x.0.high_severity_since) [
        | inl e ↦ absurd (ground (arith, e, running))
        | inr (a, e) ↦ follows_at pre x post a split e
      ]

  -- Where incident ids are unique and every escalated incident has a running clock and the event of
  -- its cycle and level, following the cursors of the escalation feed from the first page, with any
  -- page size and more rounds than there are rows, returns each active escalation that the actor may
  -- see exactly once, with its current event, the highest level first, and changes nothing.
  pub feed_complete :
      (fuel : ℕ)
      → length active_feed < fuel
      → (read_all fuel (λ raw. list_feed codec actor raw (suc size)) none w
          ≡ (ok (some (map (shown_row w.db.users) active_feed)), w))
        × (map incident_of active_feed ≡ active_rows)
  feed_complete fuel enough = (
    walk_all (shown_row w.db.users) (row_cursor codec) size
        (λ raw. list_feed codec actor raw (suc size)) w active_feed fuel follows first_page enough,
    feed-rows,
  )
