-- ===== src/Escalation/Batch/Effect.antt =====
-- The effect of a batch (`escalateBatch` of src/jobs/escalation.job.ts) on the tables, as a predicate.
pub mod Steps
use incident_api.Base.{
  ℕ, ◌+◌, ◌≤◌, ◌≡◌, refl, sym, ap, ◌∙◌, Bool, true, false, ◌&&◌, ◌||◌, Option, none, some, List, [],
  ◌∷◌, ◌++◌, arith, ◌==◌, All, length, any, if◌then◌else◌, update_where,
}
use incident_api.Model.Errors.{Constraint}
use incident_api.Model.Rows.{Incident, EscalationEvent}
use incident_api.Model.World.{World, Db}
use incident_api.Incidents.Repository.{violation, incident_at}
use incident_api.Escalation.Batch.{Counts, has_event_key, has_event}

abbrev pub UniqueEvents : List EscalationEvent → Type 0
UniqueEvents [] = Unit {0}
UniqueEvents (e ∷ es) = (has_event e.incident_id e.cycle e.level es ≡ false) × UniqueEvents es

has_event-append :
    (i c l : ℕ) (es : List EscalationEvent) (e : EscalationEvent)
    → has_event i c l (es ++ e ∷ []) ≡ (has_event i c l es || has_event_key i c l e)
unfolding has_event
has_event-append i c l [] e = ground arith
has_event-append i c l (x ∷ es) e = ground (arith, has_event-append i c l es e)

has_event-ne :
    (i c l : ℕ) (x e : EscalationEvent) (es : List EscalationEvent)
    → has_event e.incident_id e.cycle e.level (x ∷ es) ≡ false
    → has_event_key x.incident_id x.cycle x.level e ≡ false
unfolding has_event
has_event-ne i c l x e es h = ground arith

pub append-UniqueEvents :
    (es : List EscalationEvent) (e : EscalationEvent)
    → UniqueEvents es
    → has_event e.incident_id e.cycle e.level es ≡ false
    → UniqueEvents (es ++ e ∷ [])
unfolding has_event
append-UniqueEvents [] e u h = (refl, tt)
append-UniqueEvents (x ∷ es) e (n, u) h = (
  ground (arith, has_event-append x.incident_id x.cycle x.level es e, n),
  append-UniqueEvents es e u (ground arith),
)

-- Only the level and the time of the last escalation differ, and the level is no lower.
pub record Raised (old new : Incident) : Type 0 where
  pub same : new ≡ record old {
    current_escalation_level = new.current_escalation_level;
    last_escalated_at = new.last_escalated_at;
  }
  pub no_lower : old.current_escalation_level ≤ new.current_escalation_level

pub Raised-refl : (i : Incident) → Raised i i
Raised-refl i = record { same = refl; no_lower = omega arith }

pub Raised-trans : (a b c : Incident) → Raised a b → Raised b c → Raised a c
Raised-trans a b c r s = record { same = cc (r.same, s.same); no_lower = omega arith }

-- The rows of two tables, place by place.
abbrev pub AllRaised : List Incident → List Incident → Type 0
AllRaised [] [] = Unit {0}
AllRaised [] (y ∷ ys) = ⊥
AllRaised (x ∷ xs) [] = ⊥
AllRaised (x ∷ xs) (y ∷ ys) = Raised x y × AllRaised xs ys

pub AllRaised-refl : (xs : List Incident) → AllRaised xs xs
AllRaised-refl [] = tt
AllRaised-refl (x ∷ xs) = (Raised-refl x, AllRaised-refl xs)

pub AllRaised-trans :
    (xs ys zs : List Incident) → AllRaised xs ys → AllRaised ys zs → AllRaised xs zs
AllRaised-trans [] [] zs h k = k
AllRaised-trans [] (y ∷ ys) zs h k = absurd h
AllRaised-trans (x ∷ xs) [] zs h k = absurd h
AllRaised-trans (x ∷ xs) (y ∷ ys) [] h k = absurd k
AllRaised-trans (x ∷ xs) (y ∷ ys) (z ∷ zs) (r, h) (s, k) =
    (Raised-trans x y z r s, AllRaised-trans xs ys zs h k)

pub AllRaised-update :
    (p : Incident → Bool) (f : Incident → Incident) (xs : List Incident)
    → ((x : Incident) → Raised x (if p x then f x else x))
    → AllRaised xs (update_where p f xs)
AllRaised-update p f [] h = tt
AllRaised-update p f (x ∷ xs) h = (h x, AllRaised-update p f xs h)

-- What the database sees to: every incident satisfies the constraints, and no key of an event occurs
-- twice.
pub record Checked (db : Db) : Type 0 where
  pub constraints : All (λ i. violation i ≡ none) db.incidents
  pub keys : UniqueEvents db.events

pub record Effect (w w' : World) (c : Counts) : Type 0 where
  pub events : length w'.db.events ≡ length w.db.events + c.escalated
  pub notifications : length w'.db.notifications ≡ length w.db.notifications + c.notified
  pub audit : length w'.db.audit ≡ length w.db.audit + c.escalated
  pub checked : Checked w'.db
  pub rows : AllRaised w.db.incidents w'.db.incidents
