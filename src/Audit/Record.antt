-- ===== src/Audit/Record.antt =====
-- src/modules/audit/audit.service.ts and audit.repository.ts: `record`, `recordDenial`.
use incident_api.Base.{
  ℕ, ◌+◌, ◌-◌, ◌≡◌, refl, ◌∙◌, Bool, ◌&&◌, none, some, List, [], ◌∷◌, ◌++◌, leb, is_some,
  find_where, length, same_option, if◌then◌else◌,
}
use native.Mathlib.Nat.{add-zero, add_assoc}
use native.Mathlib.Numerals.{one-add}
use mathlib.Core.List.{append-nil, append_assoc}
use incident_api.Model.Enums.{access_denied, same_event_type}
use incident_api.Model.Rows.{AuditInput, AuditEvent, clearance, denial_payload}
use incident_api.Model.World.{World, Denial}
use incident_api.Model.Exec.{ok, Exec, new_id, ◌>>=◌, ◌>>◌, modify_db, pure}

-- `createAuditEvent`, `auditService.record`.
unfoldable pub record_event : AuditInput → Exec (Unit {0})
unfolding new_id
record_event input = do
  id ← new_id
  modify_db (λ db. record db { audit = db.audit ++ record { id = id; event = input } ∷ [] })

-- The calls of `record` in a transaction, in order.
unfoldable pub record_events : List AuditInput → Exec (Unit {0})
unfolding record_event
record_events [] = pure tt
record_events (input ∷ inputs) = record_event input >> record_events inputs

-- The rows that those calls append.
abbrev pub stamp : (ℕ → ℕ) → ℕ → List AuditInput → List AuditEvent
stamp supply drawn [] = []
stamp supply drawn (input ∷ inputs) =
    record { id = supply drawn; event = input } ∷ stamp supply (drawn + 1) inputs

-- The world after them.
abbrev pub with_events : List AuditInput → World → World
with_events inputs w = record w {
  db = record (w.db) { audit = w.db.audit ++ stamp w.supply w.drawn inputs };
  drawn = w.drawn + length inputs;
}

-- `DENIAL_DEDUPE_WINDOW_MS`.
abbrev pub denial_dedupe_window_ms : ℕ
denial_dedupe_window_ms = 60000

-- `recordDenial`: the caller goes on at once.
unfoldable pub record_denial : (incident_id actor_id clearance_level : ℕ) → Exec (Unit {0})
record_denial incident_id actor_id clearance_level w = (
  ok tt,
  record w {
    pending =
        w.pending
        ++ record {
          incident_id = incident_id;
          actor_id = actor_id;
          clearance_level = clearance_level;
          at_time = w.clock;
        }
          ∷ [];
  },
)

-- `findRecentAccessDenied`. A window that begins before time 0 begins at 0.
abbrev pub is_recent_denial : Denial → AuditEvent → Bool
is_recent_denial d row =
    same_event_type row.event.type access_denied
    && same_option row.event.actor_id (some d.actor_id)
    && same_option row.event.incident_id (some d.incident_id)
    && leb (d.at_time - denial_dedupe_window_ms) row.event.occurred_at

abbrev pub denial_input : Denial → AuditInput
denial_input d = record {
  incident_id = some d.incident_id;
  actor_id = some d.actor_id;
  type = access_denied;
  from_value = none;
  to_value = none;
  reason = some clearance;
  payload = some (denial_payload d.clearance_level);
  occurred_at = d.at_time;
}

-- `recordDenialAsync`, which ends on its own: no other write comes between its read and its insert.
unfoldable pub record_denial_async : Denial → Exec (Unit {0})
unfolding record_event
record_denial_async d w =
    if is_some (find_where (is_recent_denial d) w.db.audit)
    then (ok tt, w)
    else record_event (denial_input d) w

pub record_events_lem :
    (inputs : List AuditInput) (w : World) → record_events inputs w ≡ (ok tt, with_events inputs w)
unfolding record_events
record_events_lem [] w = simp (append-nil, add-zero)
record_events_lem (input ∷ inputs) w =
    record_events_lem inputs _ ∙ simp (append_assoc, add_assoc, one-add) refl
