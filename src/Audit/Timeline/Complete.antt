-- ===== src/Audit/Timeline/Complete.antt =====
-- A viewer who reads a timeline page by page.
use incident_api.Base.{
  ℕ, suc, ◌<◌, ◌≡◌, refl, ap, ◌∙◌, Bool, true, Option, none, some, List, ◌∷◌, ◌++◌, map, All,
  All-take, All-suffix, Unique, filter, sort_by, length, take, ltb, Bool-cases, inl, inr,
}
use mathlib.Core.Path.{subst}
use incident_api.Model.Enums.{admin, same_role}
use incident_api.Model.Text.{Text}
use incident_api.Model.Rows.{Actor, User, AuditEvent}
use incident_api.Model.World.{World}
use incident_api.Model.Exec.{Result, ok}
use incident_api.Policy.{can_read_notes}
use incident_api.Pagination.{CursorPage, cursor_page, page_rows}
use incident_api.Pagination.Tokens.{
  Codec, TimeIdCursor, optional_cursor, decode_occurred_at_id_cursor, time_id_bound,
  encode_occurred_at_id_cursor, time_id_cursor_where, given, TimeIdWhere,
}
use incident_api.Pagination.Walk.{read_all, walk_all, cursor_page-map, page_rows-map}
use incident_api.Pagination.Cursors.{
  newest_first, newest_rows, newest_unbounded, newest_after, occurred_bound,
}
use incident_api.Incidents.Repository.{TriageIncidentRow}
use incident_api.Incidents.Access.{loaded}
use incident_api.Audit.Mapper.{TimelineEvent, to_timeline_event}
use incident_api.Audit.Timeline.{
  timeline, timeline_page, timeline_where, timeline_cursor, audit_time, audit_id, with_actor,
  all_mapped, with_items, user_ids_of, find_user_refs_by_ids,
}
use incident_api.Audit.Timeline.Redaction.{timeline_of-ok, timeline-some}
use incident_api.Audit.Timeline.Refs.{
  OfIncident, in_ids, shown_event, rows-shown, All-named, All-in,
}

All-page :
    {A : Type 0} (P : A → Type 0) (size : ℕ) (rows : List A)
    → All P rows
    → All P (page_rows size rows)
All-page P size rows h = elim (Bool-cases (ltb size (length rows))) [
  | inl e ↦ rw e (All-take P size rows h)
  | inr e ↦ rw e h
]

module _ (codec : Codec) (can_read : Bool) (users : List User) (w : World) where
  abbrev event_cursor : AuditEvent → Text
  event_cursor row = encode_occurred_at_id_cursor codec row.event.occurred_at row.id

  -- What a page shows of the rows that were read.
  page-shown :
      (size : ℕ) (rows : List AuditEvent)
      → All (λ (r : AuditEvent). OfIncident r.event.type) rows
      → timeline_page codec can_read size users (map (with_actor users) rows) w
        ≡ (ok (cursor_page (shown_event can_read users) event_cursor size rows), w)
  unfolding timeline_page
  page-shown size rows h =
      let ids : List ℕ = user_ids_of (page_rows size (map (with_actor users) rows)) in
      let named = All-named can_read users ids (page_rows size rows) (
        subst (λ rs. All (λ i. in_ids ids i ≡ true) (user_ids_of rs))
          (page_rows-map (with_actor users) size rows) (All-in ids)) in
      let shown =
        rows-shown can_read users ids (page_rows size rows) named (All-page _ size rows h) in
      let item = λ (r : AuditEvent).
        to_timeline_event (with_actor users r) can_read (find_user_refs_by_ids ids users) in
      let joined =
        cursor_page-map (λ r. to_timeline_event r can_read (find_user_refs_by_ids ids users))
          (timeline_cursor codec) (with_actor users) size rows in
      ap (λ (p : CursorPage (Option TimelineEvent)). with_items p (all_mapped p.items) w) joined
      ∙ ap (λ o. with_items (cursor_page item event_cursor size rows) o w) shown

module _ (codec : Codec) (actor : Actor) (id : ℕ) (row : TriageIncidentRow) (w : World)
    (there : loaded id actor w ≡ some row) where
  abbrev admitted : AuditEvent → Bool
  admitted = timeline_where id (same_role actor.role admin)

  -- The events of the incident that the viewer may know of, the newest first.
  abbrev pub timeline_events : List AuditEvent
  timeline_events = sort_by (newest_first audit_time audit_id) (filter admitted w.db.audit)

  module _ (size : ℕ) (unique : Unique audit_id w.db.audit)
      (about : All (λ (r : AuditEvent). OfIncident r.event.type) timeline_events) where
    abbrev page_after : Option Text → Result (CursorPage TimelineEvent) × World
    page_after raw = timeline codec actor id raw (suc size) w

    abbrev answer : List AuditEvent → Result (CursorPage TimelineEvent) × World
    answer rows = (
      ok (
          cursor_page (shown_event (can_read_notes actor row.incident) w.db.users)
            (event_cursor codec (can_read_notes actor row.incident) w.db.users w) (suc size)
            (take (suc (suc size)) rows)),
      w,
    )

    -- The answer to a cursor, from the rows that its bound leaves.
    bounded :
        (raw : Option Text) (cursor : Option TimeIdCursor) (bound : TimeIdWhere)
        (rows : List AuditEvent)
        → optional_cursor (decode_occurred_at_id_cursor codec) raw ≡ ok cursor
        → time_id_bound cursor ≡ ok bound
        → newest_rows audit_time audit_id admitted w.db.audit bound ≡ rows
        → All (λ (r : AuditEvent). OfIncident r.event.type) rows
        → page_after raw ≡ answer rows
    bounded raw cursor bound rows d b e h =
        let can : Bool = can_read_notes actor row.incident in
        timeline-some codec actor id row raw (suc size) w there
        ∙ timeline_of-ok codec actor row.incident id raw (suc size) w cursor bound d b
        ∙ ap
            (λ rs.
              timeline_page codec can (suc size) w.db.users
                (map (with_actor w.db.users) (take (suc (suc size)) rs)) w)
            e
        ∙ page-shown codec can w.db.users w (suc size) (take (suc (suc size)) rows)
            (All-take _ (suc (suc size)) rows h)

    first_page : page_after none ≡ answer timeline_events
    unfolding optional_cursor time_id_bound
    first_page =
        bounded none none (λ t i. true) timeline_events refl refl
          (newest_unbounded audit_time audit_id admitted w.db.audit) about

    follows :
        (pre : List AuditEvent) (x : AuditEvent) (post : List AuditEvent)
        → timeline_events ≡ pre ++ x ∷ post
        → page_after (some (encode_occurred_at_id_cursor codec (audit_time x) x.id)) ≡ answer post
    follows pre x post split =
        let (cursor, d, b) = occurred_bound codec (audit_time x) x.id in
        let all = subst (All (λ (r : AuditEvent). OfIncident r.event.type)) split about in
        bounded _ cursor (time_id_cursor_where (audit_time x) (given x.id)) post d b
          (newest_after audit_time audit_id admitted w.db.audit pre x post unique split)
          (All-suffix _ pre (x ∷ post) all).1

    -- Where an incident is visible to the actor, ids of audit events are unique and the incident's
    -- events are of the types of a timeline, following the cursors of its timeline from the first
    -- page, with any page size and more rounds than it has events, returns each event that the actor
    -- may see exactly once, newest first, as the actor's view shows it, and changes nothing.
    pub timeline_complete :
        (fuel : ℕ)
        → length timeline_events < fuel
        → read_all fuel (λ raw. timeline codec actor id raw (suc size)) none w ≡ (
          ok (
              some
                (map (shown_event (can_read_notes actor row.incident) w.db.users) timeline_events)),
          w,
        )
    timeline_complete fuel enough =
        walk_all (shown_event (can_read_notes actor row.incident) w.db.users)
          (event_cursor codec (can_read_notes actor row.incident) w.db.users w) size
          (λ raw. timeline codec actor id raw (suc size)) w timeline_events fuel follows first_page
          enough
