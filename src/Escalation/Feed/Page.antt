-- ===== src/Escalation/Feed/Page.antt =====
-- One page of the feed of src/modules/escalation/escalation.service.ts, of rows that are read.
use mathlib.Core.Path.{subst}
use incident_api.Base.{
  ℕ, ◌≡◌, refl, ap, ◌∙◌, inl, inr, List, map, ltb, any, filter, length, length-map, map-map, All,
  Any, All-take, All-member, Unique, Bool-cases,
}
use incident_api.Model.Rows.{Incident, EscalationEvent}
use incident_api.Model.World.{World}
use incident_api.Model.Exec.{Result, ok, pure, lift, ◌>>=◌}
use incident_api.Pagination.{CursorPage, cursor_page, page_rows, last_of}
use incident_api.Pagination.Tokens.{Codec}
use incident_api.Pagination.Walk.{page_rows-map}
use incident_api.Incidents.Repository.{incident_id}
use incident_api.Escalation.Feed.{
  feed_row, FeedRow, current_key, feed_items, next_feed_cursor, find_current_events,
  EscalationFeedItem, has_event_key,
}
use incident_api.Escalation.Feed.Events.{ActiveRow, HasCurrent, shown_row, items-shown, key_of}
use incident_api.Escalation.Feed.Rows.{
  incident_of, All-unmap, take-Unique, Running, row_cursor, next-shown,
}

All-page :
    {A : Type 0} (P : A → Type 0) (size : ℕ) (rows : List A)
    → All P rows
    → All P (page_rows size rows)
All-page P size rows h = elim (Bool-cases (ltb size (length rows))) [
  | inl e ↦ rw e (All-take P size rows h)
  | inr e ↦ rw e h
]

page-Unique :
    (size : ℕ) (rows : List Incident)
    → Unique incident_id rows
    → Unique incident_id (page_rows size rows)
page-Unique size rows u = elim (Bool-cases (ltb size (length rows))) [
  | inl e ↦ rw e (take-Unique size rows u)
  | inr e ↦ rw e u
]

module _ (codec : Codec) (w : World) (size : ℕ) where
  -- What the feed does with the rows that it has read.
  unfoldable pub after_rows : List FeedRow → Result (CursorPage EscalationFeedItem) × World
  unfolding find_current_events feed_items next_feed_cursor
  after_rows rows =
      (do
        events ← find_current_events (map current_key (page_rows size rows))
        next ←
            lift (next_feed_cursor codec (ltb size (length rows)) (last_of (page_rows size rows)))
        pure (record {
          items = feed_items events (page_rows size rows);
          next_cursor = next;
          has_more = ltb size (length rows);
        }))
        w

  abbrev feed_row_of : ActiveRow → FeedRow
  feed_row_of p = feed_row w.db.users p.0

  page_events : List ActiveRow → List EscalationEvent
  page_events page =
      filter (λ e. any (has_event_key e) (map key_of (map incident_of page))) w.db.events

  -- The same, of rows with their current events.
  pub after-shown :
      (read : List ActiveRow)
      → Unique incident_id (map incident_of read)
      → All Running read
      → All (HasCurrent w.db.events) read
      → after_rows (map (feed_row w.db.users) (map incident_of read))
        ≡ (ok (cursor_page (shown_row w.db.users) (row_cursor codec) size read), w)
  unfolding cursor_page page_events after_rows find_current_events
  after-shown read u running current =
      let page : List ActiveRow = page_rows size read in
      let rows =
        page_rows-map (feed_row w.db.users) size (map incident_of read)
        ∙ ap (map (feed_row w.db.users)) (page_rows-map incident_of size read) in
      let many =
        length-map (feed_row w.db.users) (map incident_of read) ∙ length-map incident_of read in
      let distinct : Unique incident_id (map incident_of page) =
        subst (Unique incident_id) (page_rows-map incident_of size read)
          (page-Unique size (map incident_of read) u) in
      let members =
        All-unmap (λ (r : Incident). Any (λ x. x ≡ r) (map incident_of page)) incident_of page
          (All-member (map incident_of page)) in
      let items =
        items-shown w.db.users w.db.events page distinct members
          (All-page (HasCurrent w.db.events) size read current) in
      let next =
        next-shown codec w.db.users (ltb size (length read)) page
          (All-page Running size read running) in
      let keys : map current_key (map (feed_row w.db.users) (map incident_of page))
          ≡ map key_of (map incident_of page) =
        map-map current_key (feed_row w.db.users) (map incident_of page) in
      rw (rows, many) (rw next (rw keys (rw items refl)))
