-- ===== src/Triage/Clock.antt =====
-- Laws of `applySeverityChange` of src/modules/triage/triage.service.ts.
use incident_api.Base.{
  ℕ, ◌+◌, ◌≡◌, Bool, ◌&&◌, ◌||◌, not, none, some, arith, ltb, is_some, if◌then◌else◌,
}
use incident_api.Model.Enums.{Severity, severity_rank}
use incident_api.Incidents.Repository.{is_high_band}
use incident_api.Triage.{SeverityClockFields, apply_severity_change}

-- A change to a higher severity that is in the high band.
abbrev pub restarts : (current next : Severity) → Bool
restarts current next = is_high_band next && ltb (severity_rank current) (severity_rank next)

module _ (current next : Severity) (now : ℕ) (state : SeverityClockFields) where
  abbrev pub changed : SeverityClockFields
  changed = apply_severity_change current next now state

  -- If the escalation clock ran exactly in the high band before a change of severity, it does so
  -- after it.
  pub severity_change_clock :
      is_some state.high_severity_since ≡ is_high_band current
      → is_some changed.high_severity_since ≡ is_high_band next
  unfolding apply_severity_change
  severity_change_clock h = ground arith

  abbrev pub SeverityChange : Type 0
  SeverityChange =
      (changed.escalation_cycle ≡ state.escalation_cycle + (if restarts current next then 1 else 0))
      × (changed.current_escalation_level ≡ (
          if restarts current next || not (is_high_band next)
          then 0
          else state.current_escalation_level))
      × (changed.acknowledged_at ≡ (if restarts current next then none else state.acknowledged_at))
      × (changed.acknowledged_by_id
          ≡ (if restarts current next then none else state.acknowledged_by_id))
      × (changed.high_severity_since ≡ (
          if restarts current next
          then some now
          else if is_high_band next
          then state.high_severity_since
          else none))

  -- A raise into or within the high band begins a new escalation cycle, with the clock at now, level
  -- 0 and no acknowledgement; any other change keeps the cycle and the acknowledgement, and keeps
  -- clock and level in the high band and clears them below it.
  pub severity_change_cycle : SeverityChange
  unfolding apply_severity_change
  severity_change_cycle = ground arith
