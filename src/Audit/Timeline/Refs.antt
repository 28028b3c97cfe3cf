-- ===== src/Audit/Timeline/Refs.antt =====
-- The users that a page of a timeline names, found for the page, are those that the table holds.
use incident_api.Base.{
  ℕ, ◌≡◌, refl, ap, ◌∙◌, Bool, true, false, ◌||◌, Option, none, some, List, [], ◌∷◌, map, arith,
  All, All-mono, or_else, any, filter, find_where, ◌==◌, ==_refl, Bool-cases, inl, inr,
}
use incident_api.Model.Enums.{
  AuditEventType, investigator_assigned, investigator_unassigned, user_clearance_changed,
  user_role_changed,
}
use incident_api.Model.Rows.{User, AuditEvent, AuditValue, user_value}
use incident_api.Incidents.Mapper.{UserRef}
use incident_api.Audit.Mapper.{
  AuditEventRow, TimelineEvent, event_of, assigned_event, unassigned_event, timeline_event_by,
  to_timeline_event, redacted_note, ref_of,
}
use incident_api.Audit.Timeline.{
  with_actor, named_by, named_value, user_ids_of, ref, find_user_refs_by_ids, all_mapped,
}

-- A row that a timeline can hold: the changes of users are not about an incident.
abbrev pub OfIncident : AuditEventType → Type 0
OfIncident user_clearance_changed = ⊥
OfIncident user_role_changed = ⊥
OfIncident _ = Unit {0}

abbrev pub in_ids : List ℕ → ℕ → Bool
in_ids ids i = any (λ j. i == j) ids

find-in_ids :
    (ids : List ℕ) (users : List User) (i : ℕ)
    → in_ids ids i ≡ true
    → find_where
        (λ (u : UserRef). u.id == i)
        (map ref (filter (λ (u : User). in_ids ids u.id) users))
      ≡ find_where (λ (u : UserRef). u.id == i) (map ref users)
find-in_ids ids [] i h = refl
find-in_ids ids (u ∷ users) i h = elim (Bool-cases (u.id == i)) [
  | inl e ↦
      let same : u.id ≡ i = ground arith in
      let kept : in_ids ids u.id ≡ true = rw same h in rw (kept, e) refl
  | inr e ↦ elim (Bool-cases (in_ids ids u.id)) [
    | inl k ↦ rw (k, e) (find-in_ids ids users i h)
    | inr k ↦ rw (k, e) (find-in_ids ids users i h)
  ]
]

-- What `named_by` adds is in the ids.
abbrev pub Names : List ℕ → Option AuditValue → Type 0
Names ids v = All (λ i. in_ids ids i ≡ true) (named_by v [])

ref_of-found :
    (ids : List ℕ) (users : List User) (v : Option AuditValue)
    → Names ids v
    → ref_of (find_user_refs_by_ids ids users) v ≡ ref_of (map ref users) v
unfolding find_user_refs_by_ids
ref_of-found ids users none h = refl
ref_of-found ids users (some (user_value i)) h = find-in_ids ids users i h.0
ref_of-found ids users (some v) h = refl

event-found :
    (t : AuditEventType) (r : AuditEventRow) (can_read : Bool) (ids : List ℕ) (users : List User)
    → Names ids (named_value t r.row.event)
    → timeline_event_by t r can_read (find_user_refs_by_ids ids users)
      ≡ timeline_event_by t r can_read (map ref users)
unfolding timeline_event_by
event-found investigator_assigned r can_read ids users h =
    ap (λ v. some (event_of r (assigned_event v))) (ref_of-found ids users r.row.event.to_value h)
event-found investigator_unassigned r can_read ids users h =
    ap (λ v. some (event_of r (unassigned_event v r.row.event.reason)))
      (ref_of-found ids users r.row.event.from_value h)
event-found t r can_read ids users h = refl

event-some :
    (t : AuditEventType) (r : AuditEventRow) (can_read : Bool) (refs : List UserRef)
    (d : TimelineEvent)
    → OfIncident t
    → timeline_event_by t r can_read refs ≡ some (or_else (timeline_event_by t r can_read refs) d)
unfolding timeline_event_by
event-some user_clearance_changed r can_read refs d h = elim h [ ]
event-some user_role_changed r can_read refs d h = elim h [ ]
event-some t r can_read refs d h = refl

-- The event that a row of an incident becomes.
abbrev pub shown_event : (can_read : Bool) → List User → AuditEvent → TimelineEvent
unfolding to_timeline_event
shown_event can_read users row =
    or_else (to_timeline_event (with_actor users row) can_read (map ref users))
      (redacted_note (with_actor users row))

module _ (can_read : Bool) (users : List User) where
  row-shown :
      (ids : List ℕ) (row : AuditEvent)
      → Names ids (named_value row.event.type row.event)
      → OfIncident row.event.type
      → to_timeline_event (with_actor users row) can_read (find_user_refs_by_ids ids users)
        ≡ some (shown_event can_read users row)
  unfolding to_timeline_event
  row-shown ids row n h =
      event-found row.event.type (with_actor users row) can_read ids users n
      ∙ event-some row.event.type (with_actor users row) can_read (map ref users)
          (redacted_note (with_actor users row)) h

  pub rows-shown :
      (ids : List ℕ) (rows : List AuditEvent)
      → All (λ (r : AuditEvent). Names ids (named_value r.event.type r.event)) rows
      → All (λ (r : AuditEvent). OfIncident r.event.type) rows
      → all_mapped (
          map
            (λ r. to_timeline_event (with_actor users r) can_read (find_user_refs_by_ids ids users))
            rows)
        ≡ some (map (shown_event can_read users) rows)
  rows-shown ids [] n h = refl
  rows-shown ids (r ∷ rows) n h = rw (row-shown ids r n.0 h.0, rows-shown ids rows n.1 h.1) refl

  -- Every row names ids that are collected for the page.
  named_head :
      (v : Option AuditValue) (ids more : List ℕ)
      → All (λ i. in_ids ids i ≡ true) (named_by v more)
      → Names ids v × All (λ i. in_ids ids i ≡ true) more
  named_head (some (user_value i)) ids more h = ((h.0, tt), h.1)
  named_head none ids more h = (tt, h)
  named_head (some v) ids more h = (tt, h)

  pub All-named :
      (ids : List ℕ) (rows : List AuditEvent)
      → All (λ i. in_ids ids i ≡ true) (user_ids_of (map (with_actor users) rows))
      → All (λ (r : AuditEvent). Names ids (named_value r.event.type r.event)) rows
  unfolding user_ids_of
  All-named ids [] h = tt
  All-named ids (r ∷ rows) h =
      let (here, rest) = named_head (named_value r.event.type r.event) ids _ h in
      (here, All-named ids rows rest)

All-in_more :
    (ids more : List ℕ)
    → All (λ i. in_ids (ids) i ≡ true) more
    → (j : ℕ) → All (λ i. in_ids (j ∷ ids) i ≡ true) more
All-in_more ids more h j = All-mono _ _ more (λ i e. rw e (or_true (i == j))) h
  where
    or_true : (b : Bool) → (b || true) ≡ true
    or_true true = refl
    or_true false = refl

pub All-in : (ids : List ℕ) → All (λ i. in_ids ids i ≡ true) ids
All-in [] = tt
All-in (j ∷ ids) = (rw (==_refl j) refl, All-in_more ids ids (All-in ids) j)
