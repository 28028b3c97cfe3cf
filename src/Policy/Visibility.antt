-- ===== src/Policy/Visibility.antt =====
-- Laws of src/policy/clearance.policy.ts.
use incident_api.Base.{
  ℕ, ◌≡◌, refl, Bool, true, ◌&&◌, Option, none, some, List, [], ◌∷◌, arith, leb, filter,
}
use incident_api.Model.Enums.{Severity, severity_rank}
use incident_api.Model.Rows.{Actor, Incident}
use incident_api.Policy.{
  includes, visible_severities, can_view_severity, visibility_scope, effective_severities,
}

pub includes-visible :
    (clearance : ℕ) (s : Severity)
    → includes (visible_severities clearance) s ≡ leb (severity_rank s) clearance
unfolding visible_severities
includes-visible clearance s = ground arith

-- The scope of a query and the test of one severity agree.
pub visibility_scope-eq :
    (actor : Actor) (row : Incident)
    → visibility_scope actor row ≡ can_view_severity actor row.severity
unfolding visibility_scope
visibility_scope-eq actor row = includes-visible actor.clearance_level row.severity

abbrev pub requests : Option (List Severity) → Severity → Bool
requests none s = true
requests (some []) s = true
requests (some (t ∷ more)) s = includes (t ∷ more) s

includes-filter :
    (clearance : ℕ) (list : List Severity) (s : Severity)
    → includes (filter (λ t. includes (visible_severities clearance) t) list) s
      ≡ (includes list s && leb (severity_rank s) clearance)
includes-filter clearance [] s = refl
includes-filter clearance (t ∷ list) s = ground (
  arith,
  includes-filter clearance list s,
  includes-visible clearance t,
  includes-visible clearance s,
)

-- A requested severity filter only narrows: a severity is in effect exactly if it was requested, or
-- none was, and its rank is at most the actor's clearance.
pub includes-effective :
    (actor : Actor) (requested : Option (List Severity)) (s : Severity)
    → includes (effective_severities actor requested) s
      ≡ (requests requested s && can_view_severity actor s)
unfolding effective_severities
includes-effective actor none s = includes-visible actor.clearance_level s
includes-effective actor (some []) s = includes-visible actor.clearance_level s
includes-effective actor (some (t ∷ more)) s = includes-filter actor.clearance_level (t ∷ more) s
