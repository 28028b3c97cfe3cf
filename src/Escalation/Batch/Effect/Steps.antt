-- ===== src/Escalation/Batch/Effect/Steps.antt =====
-- The statements of `escalateBatch` (src/jobs/escalation.job.ts), one after another.
use incident_api.Base.{
  ℕ, ◌+◌, ◌≡◌, refl, ap, ◌∙◌, true, false, ◌&&◌, none, List, [], ◌∷◌, ◌++◌, arith, ◌==◌, ◌⊎◌, All,
  All-update, length, length-append, any, if◌then◌else◌, find_where, update_where, Bool-cases,
  Option-cases, inl, inr,
}
use incident_api.Model.Rows.{Incident, Notification}
use incident_api.Model.World.{World, Db}
use incident_api.Model.Exec.{ok, Exec, new_id}
use incident_api.Audit.Record.{record_event}
use incident_api.Incidents.Repository.{violation, update_violation, update_many}
use incident_api.Escalation.Batch.{
  Due, Recipients, Counts, recipients_of, still_candidate, has_event, new_event, insert_event,
  notify_one, notify, below_level, raise_level, announce, escalate_one, escalate_batch,
}
use incident_api.Escalation.Batch.Effect.{
  append-UniqueEvents, Raised, Raised-refl, AllRaised-refl, AllRaised-trans, AllRaised-update,
  Checked, Effect,
}

-- A step that writes `n` notifications and nothing else.
record Notified (w w' : World) (n : ℕ) : Type 0 where
  only : w'.db ≡ record (w.db) { notifications = w'.db.notifications }
  grows : length w'.db.notifications ≡ length w.db.notifications + n

notify_one_lem :
    (event_id now r : ℕ) (w : World)
    → (n : ℕ) × (w' : World) × (notify_one event_id now r w ≡ (ok n, w')) × Notified w w' n
unfolding notify_one new_id
notify_one_lem event_id now r w =
    elim (Bool-cases (
      any (λ (x : Notification). x.escalation_event_id == event_id && x.recipient_id == r)
        w.db.notifications)) [
          | inl e ↦ (
            0,
            record w { drawn = w.drawn + 1 },
            rw e refl,
            record { only = refl; grows = omega arith },
          )
          | inr e ↦ (
            1,
            (notify_one event_id now r w).1,
            rw e refl,
            record { only = rw e refl; grows = rw e (length-append w.db.notifications _) },
          )
        ]

notify_lem :
    (event_id now : ℕ) (rs : List ℕ) (w : World)
    → (n : ℕ) × (w' : World) × (notify event_id now rs w ≡ (ok n, w')) × Notified w w' n
unfolding notify
notify_lem event_id now [] w = (0, w, refl, record { only = refl; grows = omega arith })
notify_lem event_id now (r ∷ rs) w =
    let (n, v, e, one) = notify_one_lem event_id now r w in
    let (k, u, f, rest) = notify_lem event_id now rs v in
    (
      n + k,
      u,
      rw (e, f) refl,
      record { only = cc (one.only, rest.only); grows = omega (arith, one.grows, rest.grows) },
    )

raise_passes :
    (d : Due) (now : ℕ) (rows : List Incident)
    → All (λ i. violation i ≡ none) rows
    → update_violation (below_level d) (raise_level d now) rows ≡ none
unfolding update_violation violation
raise_passes d now [] h = refl
raise_passes d now (row ∷ rows) (q, h) = ground (arith, raise_passes d now rows h, q)

raise-violation : (d : Due) (now : ℕ) (i : Incident) → violation (raise_level d now i) ≡ violation i
unfolding violation
raise-violation d now i = refl

raise-Raised :
    (d : Due) (now : ℕ) (row : Incident)
    → Raised row (if below_level d row then raise_level d now row else row)
raise-Raised d now row = elim (Bool-cases (below_level d row)) [
  | inl e ↦ rw e (record { same = refl; no_lower = ground (arith, e) })
  | inr e ↦ rw e (Raised-refl row)
]

Effect-refl :
    (w w' : World)
    → w'.db ≡ w.db
    → Checked w.db
    → Effect w w' (record { escalated = 0; notified = 0 })
Effect-refl w w' e c = record {
  events = rw e (omega arith);
  notifications = rw e (omega arith);
  audit = rw e (omega arith);
  checked = rw e c;
  rows = rw e (AllRaised-refl w.db.incidents);
}

Effect-trans :
    (w v u : World) (a b : Counts)
    → Effect w v a
    → Effect v u b
    → Effect w u
        (record { escalated = a.escalated + b.escalated; notified = a.notified + b.notified })
Effect-trans w v u a b f g = record {
  events = omega (arith, f.events, g.events);
  notifications = omega (arith, f.notifications, g.notifications);
  audit = omega (arith, f.audit, g.audit);
  checked = g.checked;
  rows = AllRaised-trans w.db.incidents v.db.incidents u.db.incidents f.rows g.rows;
}

-- An insert that returns a row has found its key free.
insert_event_lem :
    (event_id : ℕ) (d : Due) (now : ℕ) (w : World)
    → (insert_event event_id d now w ≡ (ok false, w))
      ⊎ ((i : Incident) × (insert_event event_id d now w ≡ (
        ok true,
        record w { db = record (w.db) { events = w.db.events ++ new_event event_id d now i ∷ [] } },
      ))
          × (has_event i.id i.escalation_cycle d.tier.level w.db.events ≡ false))
unfolding insert_event
insert_event_lem event_id d now w =
    elim (Option-cases (find_where (still_candidate d) w.db.incidents)) [
      | inl e ↦ inl (rw e refl)
      | inr (i, e) ↦
          elim (Bool-cases (has_event i.id i.escalation_cycle d.tier.level w.db.events)) [
            | inl t ↦ inl (rw (e, t) refl)
            | inr t ↦ inr (i, rw (e, t) refl, t)
          ]
    ]

announce_lem :
    (recipients : Recipients) (now event_id : ℕ) (d : Due) (w : World)
    → All (λ i. violation i ≡ none) w.db.incidents
    → (n : ℕ) × (w' : World) × (announce recipients now event_id d w
        ≡ (ok (record { escalated = 1; notified = n }), w'))
      × (w'.db.events ≡ w.db.events)
      × (length w'.db.notifications ≡ length w.db.notifications + n)
      × (length w'.db.audit ≡ length w.db.audit + 1)
      × (w'.db.incidents ≡ update_where (below_level d) (raise_level d now) w.db.incidents)
unfolding announce record_event new_id update_many
announce_lem recipients now event_id d w checked =
    let (n, v, e, said) =
      notify_lem event_id now (recipients_of recipients d.candidate.severity) w in
    let same : v.db.incidents ≡ w.db.incidents = ap (λ (x : Db). x.incidents) said.only in
    let passes : update_violation (below_level d) (raise_level d now) v.db.incidents ≡ none =
      rw same (raise_passes d now w.db.incidents checked) in
    (
      n,
      (announce recipients now event_id d w).1,
      rw (e, passes) refl,
      rw (e, passes) (ap (λ (x : Db). x.events) said.only),
      rw (e, passes) said.grows,
      rw (e, passes) (length-append v.db.audit _ ∙ ap (λ (x : Db). length x.audit + 1) said.only),
      rw (e, passes)
          (ap (λ (x : Db). update_where (below_level d) (raise_level d now) x.incidents) said.only),
    )

-- A step that returns: how often it has escalated and notified, the world after it, and its effect.
abbrev pub Does : Exec Counts → World → Type 0
Does m w = (c : Counts) × (w' : World) × (m w ≡ (ok c, w')) × Effect w w' c

escalate_one_effect :
    (recipients : Recipients) (now : ℕ) (d : Due) (w : World)
    → Checked w.db
    → Does (escalate_one recipients now d) w
unfolding escalate_one new_id
escalate_one_effect recipients now d w checked =
    let event_id : ℕ = w.supply w.drawn in
    let v : World = record w { drawn = w.drawn + 1 } in
    elim (insert_event_lem event_id d now v) [
      | inl e ↦ (record { escalated = 0; notified = 0 }, v, rw e refl, Effect-refl w v refl checked)
      | inr (i, e, free) ↦
          let s : World = record v {
            db = record (v.db) { events = v.db.events ++ new_event event_id d now i ∷ [] };
          } in
          let (n, u, f, same, grows, audit, incidents) =
            announce_lem recipients now event_id d s checked.constraints in
          (
            record { escalated = 1; notified = n },
            u,
            rw e f,
            record {
              events = rw same (length-append w.db.events _);
              notifications = grows;
              audit = audit;
              checked = record {
                constraints = rw incidents (
                    All-update (λ x. violation x ≡ none) (below_level d) (raise_level d now)
                      w.db.incidents (λ x _ q. raise-violation d now x ∙ q) checked.constraints);
                keys = rw same (
                    append-UniqueEvents w.db.events (new_event event_id d now i) checked.keys free);
              };
              rows = rw incidents (
                  AllRaised-update (below_level d) (raise_level d now) w.db.incidents
                    (raise-Raised d now));
            },
          )
    ]

-- Over tables that satisfy the constraints a batch of the escalation job never throws; it adds one
-- event and one audit row for each escalation that it counts and a notification for each that it
-- counts, keeps the constraints and the uniqueness of the events' keys, and changes of an incident
-- at most the level and the time of its last escalation, never lowering the level.
pub escalate_batch_effect :
    (recipients : Recipients) (now : ℕ) (ds : List Due) (w : World)
    → Checked w.db
    → Does (escalate_batch recipients now ds) w
unfolding escalate_batch
escalate_batch_effect recipients now [] w checked =
    (record { escalated = 0; notified = 0 }, w, refl, Effect-refl w w refl checked)
escalate_batch_effect recipients now (d ∷ ds) w checked =
    let (a, v, e, f) = escalate_one_effect recipients now d w checked in
    let (b, u, g, h) = escalate_batch_effect recipients now ds v f.checked in
    (
      record { escalated = a.escalated + b.escalated; notified = a.notified + b.notified },
      u,
      rw (e, g) refl,
      Effect-trans w v u a b f h,
    )
