-- ===== src/Audit/Timeline/Redaction.antt =====
-- What a viewer of a timeline is not shown.
use mathlib.Core.Path.{subst}
use incident_api.Base.{
  Option-cases, and_first, ℕ, suc, ◌≡◌, refl, sym, ◌∙◌, ap, Bool, true, false, Option, none, some,
  List, [], ◌∷◌, arith, All, All-map, All-mono, All-filter, All-always, All-sort, All-take,
  Bool-cases, inl, inr, ltb, length, take,
}
use incident_api.Model.Enums.{
  AuditEventType, admin, access_denied, note_added, user_clearance_changed, user_role_changed,
  same_role, same_event_type,
}
use incident_api.Model.Text.{Text}
use incident_api.Model.Rows.{Actor, User, Incident, AuditEvent}
use incident_api.Model.World.{World}
use incident_api.Model.Exec.{Result, ok, err, Result-cases}
use incident_api.Policy.{can_read_notes}
use incident_api.Pagination.{CursorPage, cursor_page, page_rows}
use incident_api.Pagination.Tokens.{
  Codec, TimeIdCursor, TimeIdWhere, optional_cursor, decode_occurred_at_id_cursor, time_id_bound,
}
use incident_api.Incidents.Repository.{TriageIncidentRow}
use incident_api.Incidents.Mapper.{UserRef}
use incident_api.Incidents.Access.{loaded, get_by_id_for_actor-some}
use incident_api.Audit.Mapper.{
  AuditEventRow, TimelineEvent, TimelineDetail, note_event, denied_event, timeline_event_by,
  to_timeline_event,
}
use incident_api.Audit.Timeline.{
  timeline, timeline_of, timeline_page, timeline_where, timeline_rows, find_timeline_page,
  all_mapped, with_actor, with_items, user_ids_of, find_user_refs_by_ids, timeline_cursor,
}

-- Nothing of a note but that it was added, and when.
abbrev pub HidesNote : Bool → TimelineEvent → TimelineDetail → Type 0
HidesNote false e (note_event redacted note_id size) =
    (redacted ≡ true) × (note_id ≡ none) × (size ≡ none) × (e.actor ≡ none)
HidesNote _ e _ = Unit {0}

abbrev pub NotDenied : TimelineDetail → Type 0
NotDenied (denied_event _ _) = ⊥
NotDenied _ = Unit {0}

-- What a viewer who is no administrator may be shown, with or without access to the notes.
abbrev pub Redacted : (can_read : Bool) → TimelineEvent → Type 0
Redacted can_read e = NotDenied e.detail × HidesNote can_read e e.detail

abbrev RedactedIf : Bool → Option TimelineEvent → Type 0
RedactedIf can_read none = Unit {0}
RedactedIf can_read (some e) = Redacted can_read e

event-Redacted :
    (t : AuditEventType) (row : AuditEventRow) (can_read : Bool) (refs : List UserRef)
    → same_event_type t access_denied ≡ false
    → RedactedIf can_read (timeline_event_by t row can_read refs)
unfolding timeline_event_by
event-Redacted access_denied row can_read refs h = cc
event-Redacted user_clearance_changed row can_read refs h = tt
event-Redacted user_role_changed row can_read refs h = tt
event-Redacted note_added row true refs h = (tt, tt)
event-Redacted note_added row false refs h = (tt, (refl, refl, refl, refl))
event-Redacted t row true refs h = (tt, tt)
event-Redacted t row false refs h = (tt, tt)

mapped-Redacted :
    (can_read : Bool) (opts : List (Option TimelineEvent)) (es : List TimelineEvent)
    → All (RedactedIf can_read) opts
    → all_mapped opts ≡ some es
    → All (Redacted can_read) es
mapped-Redacted can_read [] es h k =
    let same : [] ≡ es = cc in subst (All (Redacted can_read)) same tt
mapped-Redacted can_read (none ∷ opts) es h k = cc
mapped-Redacted can_read (some e ∷ opts) es h k = elim (Option-cases (all_mapped opts)) [
  | inl none_left ↦ let bad : none ≡ some es = rw none_left at k in cc
  | inr (more, found) ↦
      let whole : some (e ∷ more) ≡ some es = rw found at k in
      let same : e ∷ more ≡ es = cc in
      subst (All (Redacted can_read)) same (h.0, mapped-Redacted can_read opts more h.1 found)
]

page-Redacted :
    {A B : Type 0} (P : B → Type 0) (item : A → B) (cursor_of : A → Text) (size : ℕ) (rows : List A)
    → All (λ r. P (item r)) rows
    → All P (cursor_page item cursor_of size rows).items
unfolding cursor_page
page-Redacted P item cursor_of size rows h = elim (Bool-cases (ltb size (length rows))) [
  | inl e ↦ rw e (All-map P item (take size rows) (All-take (λ r. P (item r)) size rows h))
  | inr e ↦ rw e (All-map P item rows h)
]

abbrev page_items : Result (CursorPage TimelineEvent) × World → List TimelineEvent
page_items (ok page, w) = page.items
page_items (err e, w) = []

not_denied :
    (id : ℕ) (included : Bool) (r : AuditEvent)
    → included ≡ false
    → timeline_where id included r ≡ true
    → same_event_type r.event.type access_denied ≡ false
unfolding timeline_where
not_denied id included r outsider h =
    elim (Bool-cases (same_event_type r.event.type access_denied)) [
      | inl e ↦ ground arith
      | inr e ↦ e
    ]

-- A denial is not among the rows that are read for anyone but an administrator.
rows_without_denials :
    (id : ℕ) (bound : TimeIdWhere) (size : ℕ) (included : Bool) (w : World)
    → included ≡ false
    → All
        (λ (r : AuditEventRow). same_event_type r.row.event.type access_denied ≡ false)
        (timeline_rows id bound size included w)
rows_without_denials id bound size included w outsider = All-map _ (with_actor w.db.users) _ (
    All-take _ (suc size) _ (
      All-sort _ (λ (r : AuditEvent). same_event_type r.event.type access_denied ≡ false) _
        (All-mono _ _ _ (λ r h. not_denied id included r outsider (and_first _ _ h.1))
          (All-filter (λ (r : AuditEvent). Unit {0}) _ w.db.audit
            (All-always _ w.db.audit (λ _. tt))))))

module _ (codec : Codec) where
  timeline_page-Redacted :
      (can_read : Bool) (size : ℕ) (users : List User) (rows : List AuditEventRow) (w w' : World)
      (page : CursorPage TimelineEvent)
      → All (λ (r : AuditEventRow). same_event_type r.row.event.type access_denied ≡ false) rows
      → timeline_page codec can_read size users rows w ≡ (ok page, w')
      → All (Redacted can_read) page.items
  unfolding timeline_page to_timeline_event
  timeline_page-Redacted can_read size users rows w w' page h k = go (all_mapped opts.items) refl k
    where
      refs : List UserRef
      refs = find_user_refs_by_ids (user_ids_of (page_rows size rows)) users

      opts : CursorPage (Option TimelineEvent)
      opts = cursor_page (λ r. to_timeline_event r can_read refs) (timeline_cursor codec) size rows

      go :
          (o : Option (List TimelineEvent))
          → all_mapped opts.items ≡ o
          → with_items opts o w ≡ (ok page, w')
          → All (Redacted can_read) page.items
      go none e l = cc
      go (some es) e l =
          let same : es ≡ page.items = ap page_items l in
          subst (All (Redacted can_read)) same (
            mapped-Redacted can_read opts.items es
              (page-Redacted (RedactedIf can_read) (λ r. to_timeline_event r can_read refs)
                (timeline_cursor codec) size rows
                (All-mono _ _ rows (λ r t. event-Redacted r.row.event.type r can_read refs t) h))
              e)

  module _ (actor : Actor) (incident : Incident) (id : ℕ) (raw : Option Text) (size : ℕ)
      (w : World) where
    abbrev decoded : Result (Option TimeIdCursor)
    decoded = optional_cursor (decode_occurred_at_id_cursor codec) raw

    pub timeline_of-ok :
        (cursor : Option TimeIdCursor) (bound : TimeIdWhere)
        → decoded ≡ ok cursor
        → time_id_bound cursor ≡ ok bound
        → timeline_of codec actor incident id raw size w
          ≡ timeline_page codec
              (can_read_notes actor incident)
              size
              w.db.users
              (timeline_rows id bound size (same_role actor.role admin) w)
              w
    unfolding timeline_of find_timeline_page
    timeline_of-ok cursor bound d b = rw (d, b) refl

    -- An answer comes from the rows of some bound.
    timeline_of_inv :
        (w' : World) (page : CursorPage TimelineEvent)
        → timeline_of codec actor incident id raw size w ≡ (ok page, w')
        → (bound : TimeIdWhere) × (timeline_page codec
              (can_read_notes actor incident)
              size
              w.db.users
              (timeline_rows id bound size (same_role actor.role admin) w)
              w
            ≡ (ok page, w'))
    unfolding timeline_of
    timeline_of_inv w' page h = elim (Result-cases decoded) [
      | inr (e, d) ↦
          let bad : ◌≡◌ {A = Result (CursorPage TimelineEvent) × World} (err e, w) (ok page, w') =
            rw d at h in
          cc
      | inl (cursor, d) ↦ elim (Result-cases (time_id_bound cursor)) [
        | inr (e, b) ↦
            let bad : ◌≡◌ {A = Result (CursorPage TimelineEvent) × World} (err e, w) (ok page, w') =
              rw b at (rw d at h) in
            cc
        | inl (bound, b) ↦ (bound, sym (timeline_of-ok cursor bound d b) ∙ h)
      ]
    ]

  -- A visible incident opens its timeline.
  pub timeline-some :
      (actor : Actor) (id : ℕ) (row : TriageIncidentRow) (raw : Option Text) (size : ℕ) (w : World)
      → loaded id actor w ≡ some row
      → timeline codec actor id raw size w ≡ timeline_of codec actor row.incident id raw size w
  unfolding timeline
  timeline-some actor id row raw size w there =
      rw (get_by_id_for_actor-some actor id w row there) refl

  -- A timeline page of a visible incident that is answered to someone who is no administrator holds
  -- no denied access, and tells what a note was only to those who may read the notes.
  pub timeline_redacts :
      (actor : Actor) (id : ℕ) (row : TriageIncidentRow) (raw : Option Text) (size : ℕ)
      (w w' : World) (page : CursorPage TimelineEvent)
      → loaded id actor w ≡ some row
      → same_role actor.role admin ≡ false
      → timeline codec actor id raw size w ≡ (ok page, w')
      → All (Redacted (can_read_notes actor row.incident)) page.items
  timeline_redacts actor id row raw size w w' page there outsider h =
      let opened = sym (timeline-some actor id row raw size w there) ∙ h in
      let (bound, read) = timeline_of_inv actor row.incident id raw size w w' page opened in
      timeline_page-Redacted (can_read_notes actor row.incident) size w.db.users
        (timeline_rows id bound size (same_role actor.role admin) w) w w' page
        (rows_without_denials id bound size (same_role actor.role admin) w outsider) read
