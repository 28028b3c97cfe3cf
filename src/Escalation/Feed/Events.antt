-- ===== src/Escalation/Feed/Events.antt =====
-- The events of one page of the feed: `findCurrentEvents` reads them by their keys, and the service
-- finds each by the id of its incident (src/modules/escalation/escalation.service.ts).
use incident_api.Base.{
  ℕ, ◌≡◌, ◌≢◌, refl, sym, ap, ◌∙◌, inl, inr, Bool, true, false, Option, none, some, List, [], ◌∷◌,
  map, ◌==◌, any, filter, All, Any, Unique, Bool-cases, arith,
}
use mathlib.Core.Path.{subst}
use incident_api.Model.Rows.{User, Incident, EscalationEvent}
use incident_api.Incidents.Repository.{incident_id}
use incident_api.Escalation.Feed.{
  CurrentEventKey, has_event_key, feed_row, later_or, event_by_incident, feed_items,
  to_escalation_feed_item, EscalationFeedItem,
}

-- `CurrentEventKey` of a row.
abbrev pub key_of : Incident → CurrentEventKey
key_of r = record {
  incident_id = r.id;
  cycle = r.escalation_cycle;
  level = r.current_escalation_level;
}

-- The event of the row's cycle and level.
abbrev pub current_event : Incident → List EscalationEvent → Option EscalationEvent
current_event r [] = none
current_event r (e ∷ es) = later_or (current_event r es) (has_event_key e (key_of r)) e

abbrev hits : EscalationEvent → List Incident → Bool
hits e rows = any (has_event_key e) (map key_of rows)

hits_absent :
    (e : EscalationEvent) (rows : List Incident) (k : ℕ)
    → All (λ (r : Incident). r.id ≢ k) rows
    → (e.incident_id == k) ≡ true
    → hits e rows ≡ false
hits_absent e [] k h t = refl
hits_absent e (r ∷ rows) k (n, h) t = ground (arith, hits_absent e rows k h t, n, t)

own_key_hits :
    (e : EscalationEvent) (rows : List Incident) (r : Incident)
    → Any (λ x. x ≡ r) rows
    → has_event_key e (key_of r) ≡ true
    → hits e rows ≡ true
own_key_hits e [] r m h = elim m [ ]
own_key_hits e (x ∷ rows) r (inl m) h =
    let head : has_event_key e (key_of x) ≡ true = ap (λ y. has_event_key e (key_of y)) m ∙ h in
    rw head refl
own_key_hits e (x ∷ rows) r (inr m) h = ground (arith, own_key_hits e rows r m h)

member_id :
    (rows : List Incident) (r : Incident) (k : ℕ)
    → Any (λ x. x ≡ r) rows
    → All (λ (x : Incident). x.id ≢ k) rows
    → r.id ≢ k
member_id [] r k m h = elim m [ ]
member_id (x ∷ rows) r k (inl m) (n, h) = subst (λ (y : Incident). y.id ≢ k) m n
member_id (x ∷ rows) r k (inr m) (n, h) = member_id rows r k m h

-- Among the rows of a page, an event of a row's incident that any key asks for has the row's key.
hit_own :
    (e : EscalationEvent) (rows : List Incident) (r : Incident)
    → Unique incident_id rows
    → Any (λ x. x ≡ r) rows
    → hits e rows ≡ true
    → (e.incident_id == r.id) ≡ true
    → has_event_key e (key_of r) ≡ true
hit_own e [] r u m h t = elim m [ ]
hit_own e (x ∷ rows) r (n, u) (inl m) h t =
    let same : (e.incident_id == x.id) ≡ true =
      ap (λ (y : Incident). e.incident_id == y.id) m ∙ t in
    let rest = hits_absent e rows x.id n same in
    let own : has_event_key e (key_of x) ≡ true = ground (arith, rest, h) in
    ap (λ y. has_event_key e (key_of y)) (sym m) ∙ own
hit_own e (x ∷ rows) r (n, u) (inr m) h t =
    let apart = member_id rows r x.id m n in
    let other : has_event_key e (key_of x) ≡ false = ground (arith, apart, t) in
    let rest : hits e rows ≡ true = sym (rw other refl) ∙ h in hit_own e rows r u m rest t

later_or_skip : (o : Option EscalationEvent) (e : EscalationEvent) → later_or o false e ≡ o
later_or_skip none e = refl
later_or_skip (some f) e = refl

-- What the page finds for a row is the row's current event.
pub found-current :
    (rows : List Incident) (r : Incident) (events : List EscalationEvent)
    → Unique incident_id rows
    → Any (λ x. x ≡ r) rows
    → event_by_incident r.id (filter (λ e. hits e rows) events) ≡ current_event r events
found-current rows r [] u m = refl
found-current rows r (e ∷ es) u m = elim (Bool-cases (hits e rows)) [
  | inr miss ↦
      let other : has_event_key e (key_of r) ≡ false =
        elim (Bool-cases (has_event_key e (key_of r))) [
          | inr f ↦ f
          | inl t ↦ absurd (ground (arith, own_key_hits e rows r m t, miss))
        ] in
      rw miss (rw other (found-current rows r es u m ∙ sym (later_or_skip (current_event r es) e)))
  | inl hit ↦
      let agree : (e.incident_id == r.id) ≡ has_event_key e (key_of r) =
        elim (Bool-cases (e.incident_id == r.id)) [
          | inl t ↦ t ∙ sym (hit_own e rows r u m hit t)
          | inr f ↦ rw f refl
        ] in
      rw hit (
        ap (λ o. later_or o (e.incident_id == r.id) e) (found-current rows r es u m)
        ∙ ap (λ b. later_or (current_event r es) b e) agree)
]

-- An active incident with its current event.
abbrev pub ActiveRow : Type 0
ActiveRow = Incident × EscalationEvent

abbrev pub shown_row : List User → ActiveRow → EscalationFeedItem
unfolding to_escalation_feed_item
shown_row users p = to_escalation_feed_item (feed_row users p.0) p.1

abbrev pub HasCurrent : List EscalationEvent → ActiveRow → Type 0
HasCurrent events p = current_event p.0 events ≡ some p.1

-- The items of a page, where each row's event is found.
items-found :
    (users : List User) (events : List EscalationEvent) (page : List ActiveRow)
    → All (λ (p : ActiveRow). event_by_incident p.0.id events ≡ some p.1) page
    → feed_items events (map (feed_row users) (map (λ (p : ActiveRow). p.0) page))
      ≡ map (shown_row users) page
unfolding feed_items
items-found users events [] h = refl
items-found users events (p ∷ page) (e, h) =
    rw e (ap (◌∷◌ (shown_row users p)) (items-found users events page h))

All-members :
    (events : List EscalationEvent) (rows : List Incident) (page : List ActiveRow)
    → Unique incident_id rows
    → All (λ (p : ActiveRow). Any (λ x. x ≡ p.0) rows) page
    → All (HasCurrent events) page
    → All
        (λ (p : ActiveRow). event_by_incident p.0.id (filter (λ e. hits e rows) events) ≡ some p.1)
        page
All-members events rows [] u m h = tt
All-members events rows (p ∷ page) u (a, m) (c, h) =
    (found-current rows p.0 events u a ∙ c, All-members events rows page u m h)

pub items-shown :
    (users : List User) (events : List EscalationEvent) (page : List ActiveRow)
    → Unique incident_id (map (λ (p : ActiveRow). p.0) page)
    → All (λ (p : ActiveRow). Any (λ x. x ≡ p.0) (map (λ (q : ActiveRow). q.0) page)) page
    → All (HasCurrent events) page
    → feed_items
        (filter (λ e. hits e (map (λ (p : ActiveRow). p.0) page)) events)
        (map (feed_row users) (map (λ (p : ActiveRow). p.0) page))
      ≡ map (shown_row users) page
items-shown users events page u m h =
    items-found users _ page (All-members events (map (λ (p : ActiveRow). p.0) page) page u m h)
