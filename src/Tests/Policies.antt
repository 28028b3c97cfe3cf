-- ===== src/Tests/Policies.antt =====
-- The rules of src/policy and of the severity change, at concrete arguments.
use incident_api.Base.{◌≡◌, refl, arith, true, some}
use incident_api.Model.Enums.{high, critical}
use incident_api.Policy.{meets_min_length, meets_sql_length}
use incident_api.Policy.Gates.{gates_agree, IsPlain}
use incident_api.Triage.{clock_fields}
use incident_api.Triage.Clock.{SeverityChange, severity_change_cycle}
use incident_api.Tests.Fixtures.{long_text, urgent}

long_text-IsPlain : IsPlain long_text
long_text-IsPlain = ground arith

gates_agree_example : meets_sql_length (some long_text) ≡ true
unfolding meets_min_length
gates_agree_example = gates_agree long_text long_text-IsPlain refl

severity_change_cycle_example : SeverityChange high critical 9000 (clock_fields urgent)
severity_change_cycle_example = severity_change_cycle high critical 9000 (clock_fields urgent)
