-- ===== src/Escalation/Feed/Rows.antt =====
-- Lists of active incidents with their current events, for the pages of the feed of
-- src/modules/escalation/escalation.service.ts.
use mathlib.Core.Option
use incident_api.Base.{
  ℕ, zero, suc, ◌≡◌, ◌≢◌, refl, sym, ap, inl, inr, Bool, true, false, Option, none, some, List, [],
  ◌∷◌, ◌++◌, map, or_else, is_some, sort_by, insert_by, take, if◌then◌else◌, All, All-sort,
  All-insert, All-take, Unique, Bool-cases, Option-cases, arith,
}
use incident_api.Model.Text.{Text}
use incident_api.Model.Rows.{User, Incident, EscalationEvent}
use incident_api.Model.Exec.{ok}
use incident_api.Pagination.{last_of}
use incident_api.Pagination.Tokens.{Codec, encode_escalation_feed_cursor}
use incident_api.Incidents.Repository.{incident_id}
use incident_api.Escalation.Feed.{feed_before, feed_row, next_feed_cursor, feed_cursor}
use incident_api.Escalation.Feed.Events.{ActiveRow, HasCurrent, current_event}

abbrev pub incident_of : ActiveRow → Incident
incident_of p = p.0

pub All-unmap :
    {A B : Type 0} (P : B → Type 0) (f : A → B) (xs : List A)
    → All P (map f xs)
    → All (λ x. P (f x)) xs
All-unmap P f [] h = tt
All-unmap P f (x ∷ xs) (p, h) = (p, All-unmap P f xs h)

insert-Unique :
    (x : Incident) (ys : List Incident)
    → All (λ (y : Incident). y.id ≢ x.id) ys
    → Unique incident_id ys
    → Unique incident_id (insert_by feed_before x ys)
insert-Unique x [] n u = (tt, tt)
insert-Unique x (y ∷ ys) (n, ns) (m, u) = elim (Bool-cases (feed_before y x)) [
  | inl e ↦ rw e (
    All-insert feed_before (λ (z : Incident). z.id ≢ y.id) x ys (λ h. n (sym h)) m,
    insert-Unique x ys ns u,
  )
  | inr e ↦ rw e ((n, ns), (m, u))
]

pub sort-Unique :
    (xs : List Incident) → Unique incident_id xs → Unique incident_id (sort_by feed_before xs)
sort-Unique [] u = tt
sort-Unique (x ∷ xs) (n, u) =
    insert-Unique x (sort_by feed_before xs)
      (All-sort feed_before (λ (y : Incident). y.id ≢ x.id) xs n) (sort-Unique xs u)

pub suffix-Unique :
    (pre post : List Incident) → Unique incident_id (pre ++ post) → Unique incident_id post
suffix-Unique [] post u = u
suffix-Unique (x ∷ pre) post (n, u) = suffix-Unique pre post u

pub take-Unique :
    (n : ℕ) (xs : List Incident) → Unique incident_id xs → Unique incident_id (take n xs)
take-Unique zero xs u = tt
take-Unique (suc n) [] u = tt
take-Unique (suc n) (x ∷ xs) (m, u) =
    (All-take (λ (y : Incident). y.id ≢ x.id) n xs m, take-Unique n xs u)

abbrev pub pair_if : Incident → Option EscalationEvent → List ActiveRow
pair_if r none = []
pair_if r (some e) = (r, e) ∷ []

-- The rows that have a current event, with it.
abbrev pub with_current : List EscalationEvent → List Incident → List ActiveRow
with_current events [] = []
with_current events (r ∷ rs) = pair_if r (current_event r events) ++ with_current events rs

pub with_current-HasCurrent :
    (events : List EscalationEvent) (rows : List Incident)
    → All (HasCurrent events) (with_current events rows)
with_current-HasCurrent events [] = tt
with_current-HasCurrent events (r ∷ rs) = elim (Option-cases (current_event r events)) [
  | inl e ↦ rw e (with_current-HasCurrent events rs)
  | inr (found, e) ↦ rw e (e, with_current-HasCurrent events rs)
]

abbrev pub Found : List EscalationEvent → Incident → Type 0
Found events r = is_some (current_event r events) ≡ true

pub with_current-rows :
    (events : List EscalationEvent) (rows : List Incident)
    → All (Found events) rows
    → map incident_of (with_current events rows) ≡ rows
with_current-rows events [] h = refl
with_current-rows events (r ∷ rs) (f, h) = elim (Option-cases (current_event r events)) [
  | inl e ↦ absurd (ground (arith, e, f))
  | inr (found, e) ↦ rw e (ap (◌∷◌ r) (with_current-rows events rs h))
]

abbrev pub Running : ActiveRow → Type 0
Running p = is_some p.0.high_severity_since ≡ true

module _ (codec : Codec) where
  abbrev pub row_cursor : ActiveRow → Text
  unfolding encode_escalation_feed_cursor
  row_cursor p =
      encode_escalation_feed_cursor codec p.0.current_escalation_level
        (or_else p.0.high_severity_since 0) p.0.id

  feed_cursor_running :
      (level : ℕ) (since : Option ℕ) (id : ℕ)
      → is_some since ≡ true
      → feed_cursor codec level since id
        ≡ ok (some (encode_escalation_feed_cursor codec level (or_else since 0) id))
  unfolding feed_cursor
  feed_cursor_running level none id h = absurd (ground (arith, h))
  feed_cursor_running level (some t) id h = refl

  pub next-shown :
      (users : List User) (b : Bool) (page : List ActiveRow)
      → All Running page
      → next_feed_cursor codec b (last_of (map (feed_row users) (map incident_of page)))
        ≡ ok (if b then Option.map row_cursor (last_of page) else none)
  unfolding next_feed_cursor
  next-shown users false page h = refl
  next-shown users true [] h = refl
  next-shown users true (p ∷ []) (r, h) =
      feed_cursor_running p.0.current_escalation_level p.0.high_severity_since p.0.id r
  next-shown users true (p ∷ q ∷ page) (r, h) = next-shown users true (q ∷ page) h
