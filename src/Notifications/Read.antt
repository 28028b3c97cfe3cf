-- ===== src/Notifications/Read.antt =====
-- Marking a notification as read, `markNotificationRead` of
-- src/modules/escalation/notification.service.ts.
use incident_api.Base.{
  ℕ, ◌≡◌, refl, sym, ap, ◌∙◌, Bool, true, false, ◌&&◌, none, some, List, [], ◌∷◌, ◌==◌, ==_refl,
  arith, find_where, find_where_test, update_where, first_some, has_key, Unique, find_by_key,
  find-update, find_both, if◌then◌else◌, Bool-cases, inl, inr,
}
use mathlib.Core.Option
use incident_api.Model.Errors.{app, not_found_error, notification_resource}
use incident_api.Model.Rows.{Actor, Incident, Notification}
use incident_api.Policy.{visibility_scope}
use incident_api.Model.World.{World}
use incident_api.Model.Exec.{ok, err}
use incident_api.Notifications.{
  to_notification_item, joined, event_of, incident_of_event, own_notifications_where,
  notification_id, is_own, is_unread, set_read, mark_notification_read,
}

and_false : (b : Bool) → (b && false) ≡ false
and_false b = ground arith

update_twice :
    {A : Type 0} (p : A → Bool) (f g : A → A) (xs : List A)
    → ((x : A) → p (f x) ≡ false)
    → update_where p g (update_where p f xs) ≡ update_where p f xs
update_twice p f g [] h = refl
update_twice p f g (x ∷ xs) h = elim (Bool-cases (p x)) [
  | inl e ↦ rw (e, h x) (ap (◌∷◌ (f x)) (update_twice p f g xs h))
  | inr e ↦ rw e (rw e (ap (◌∷◌ x) (update_twice p f g xs h)))
]

-- The row once it is read, at `at` if it was not read before.
abbrev pub marked : ℕ → Notification → Notification
marked at n = record n { read_at = first_some n.read_at (some at) }

marked_twice : (at later : ℕ) (n : Notification) → marked later (marked at n) ≡ marked at n
marked_twice at later n = ground arith

module _ (actor : Actor) (id : ℕ) where
  own_id : (n : Notification) → is_own actor id n ≡ true → n.id ≡ id
  own_id n h = ground arith

  own_recipient :
      (n : Notification) → is_own actor id n ≡ true → (n.recipient_id == actor.id) ≡ true
  own_recipient n h = ground arith

mark_found :
    (actor : Actor) (id : ℕ) (w : World) (n : Notification)
    → find_where (is_own actor id) w.db.notifications ≡ some n
    → mark_notification_read actor id w ≡ (
      ok (to_notification_item (record (joined w.db n) { row = marked w.clock n })),
      record w {
        db = record (w.db) {
          notifications =
              update_where
                (λ m. has_key notification_id id m && is_unread m)
                (set_read w.clock)
                w.db.notifications;
        };
      },
    )
unfolding mark_notification_read
mark_found actor id w n own = rw own refl

module _ (actor : Actor) (id : ℕ) (w : World) where
  abbrev hit : Notification → Bool
  hit n = has_key notification_id id n && is_unread n

  abbrev after : List Notification
  after = update_where hit (set_read w.clock) w.db.notifications

  abbrev pub read_world : World
  read_world = record w { db = record (w.db) { notifications = after } }

  -- An id that is not one of the actor's own fails with NOT_FOUND, and the world stays as it was.
  pub mark_read_missing :
      find_where (is_own actor id) w.db.notifications ≡ none
      → mark_notification_read actor id w
        ≡ (err (app (not_found_error notification_resource id)), w)
  unfolding mark_notification_read
  mark_read_missing h = rw h refl

  module _ (n : Notification) (own : find_where (is_own actor id) w.db.notifications ≡ some n) where
    first_mark : mark_notification_read actor id w ≡ (
      ok (to_notification_item (record (joined w.db n) { row = marked w.clock n })),
      read_world,
    )
    first_mark = mark_found actor id w n own

    marked_row : n.id ≡ id → (if hit n then set_read w.clock n else n) ≡ marked w.clock n
    marked_row e = ground (arith, ==_refl id)

    still_own :
        Unique notification_id w.db.notifications
        → find_where (is_own actor id) after ≡ some (marked w.clock n)
    still_own u =
        let test = find_where_test (is_own actor id) w.db.notifications n own in
        let same : n.id ≡ id = own_id actor id n test in
        let by_id = find_by_key notification_id (is_own actor id) w.db.notifications n u own in
        let looked_up : find_where (has_key notification_id id) w.db.notifications ≡ some n =
          ap (λ (k : ℕ). find_where (has_key notification_id k) w.db.notifications) (sym same)
          ∙ by_id in
        let written =
          find-update notification_id hit (set_read w.clock) w.db.notifications id (λ x. refl) in
        let found : find_where (has_key notification_id id) after ≡ some (marked w.clock n) =
          written
          ∙ ap (Option.map (λ x. if hit x then set_read w.clock x else x)) looked_up
          ∙ ap some (marked_row same) in
        find_both notification_id id (λ (m : Notification). m.recipient_id == actor.id) after
          (marked w.clock n) found (own_recipient actor id n test)

    second_mark :
        (later : ℕ)
        → Unique notification_id w.db.notifications
        → mark_notification_read actor id (record read_world { clock = later }) ≡ (
          ok (
              to_notification_item
                (record (joined w.db n) { row = marked later (marked w.clock n) })),
          record w {
            db = record (w.db) { notifications = update_where hit (set_read later) after };
            clock = later;
          },
        )
    second_mark later u =
        mark_found actor id (record read_world { clock = later }) (marked w.clock n) (still_own u)

    hit_once : (at : ℕ) (x : Notification) → hit (set_read at x) ≡ false
    hit_once at x = ground arith

    -- Where notification ids are unique, marking an own notification as read sets the time of the
    -- first reading, and marking it again later answers the same and changes nothing.
    pub mark_read_once :
        (later : ℕ)
        → Unique notification_id w.db.notifications
        → (mark_notification_read actor id w ≡ (
          ok (to_notification_item (record (joined w.db n) { row = marked w.clock n })),
          read_world,
        ))
          × (mark_notification_read actor id (record read_world { clock = later }) ≡ (
            ok (to_notification_item (record (joined w.db n) { row = marked w.clock n })),
            record read_world { clock = later },
          ))
    mark_read_once later u =
        let unchanged =
          update_twice hit (set_read w.clock) (set_read later) w.db.notifications
            (hit_once w.clock) in
        let again = marked_twice w.clock later n in
        (
          first_mark,
          second_mark later u ∙ λ i. (
            ok (to_notification_item (record (joined w.db n) { row = again i })),
            record w { db = record (w.db) { notifications = unchanged i }; clock = later },
          ),
        )

    -- Marking an own notification as read answers the title of its incident, also where the
    -- recipient's clearance no longer covers the incident and the notification is missing from the
    -- list.
    pub mark_read_hidden :
        (i : Incident)
        → incident_of_event (event_of n w.db.events) w.db.incidents ≡ some i
        → visibility_scope actor i ≡ false
        → (own_notifications_where actor w.db n ≡ false)
          × (mark_notification_read actor id w ≡ (
            ok (
                to_notification_item (record {
                  row = marked w.clock n;
                  event = event_of n w.db.events;
                  incident = some i;
                })),
            read_world,
          ))
    unfolding own_notifications_where
    mark_read_hidden i linked hidden = (
      (rw linked (rw hidden (and_false (n.recipient_id == actor.id)))),
      first_mark ∙ λ k. (
        ok (
            to_notification_item (record {
              row = marked w.clock n;
              event = event_of n w.db.events;
              incident = linked k;
            })),
        read_world,
      ),
    )
