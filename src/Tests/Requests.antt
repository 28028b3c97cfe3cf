-- ===== src/Tests/Requests.antt =====
-- Requests that meet the middleware of src/http/middleware.
use incident_api.Base.{◌≡◌, refl, none, some, List, [], ◌∷◌, ◌++◌, arith}
use incident_api.Model.Text.{Text}
use incident_api.Model.Exec.{ok}
use incident_api.Incidents.Repository.{update_violation, violation, apply_update}
use incident_api.Admin.{change_clearance}
use incident_api.Admin.Frame.{to_clearance, amend}
use incident_api.Auth.{AccessToken}
use incident_api.Http.Authenticate.{valid, bearer, authenticate, actor_of}
use incident_api.Http.Authenticate.Freshness.{amended_next_request}
use incident_api.Http.RateLimit.{auth_key, auth_limit, auth_window_ms}
use incident_api.Http.RateLimit.Window.{Arrival, passed, rate_limit_window}
use incident_api.Tests.Fixtures.{long_text, administrator, start}
use incident_api.Tests.Admins.{lowered}

abbrev caller : Text
caller = auth_key none (some (109 ∷ []))

abbrev other_caller : Text
other_caller = auth_key (some (49 ∷ [])) none

-- Twelve attempts within a minute, and one of somebody else among them.
abbrev attempts : List Arrival
attempts =
    record { key = caller; time = 0 }
    ∷ record { key = caller; time = 1 }
    ∷ record { key = caller; time = 2 }
    ∷ record { key = caller; time = 3 }
    ∷ record { key = other_caller; time = 4 }
    ∷ record { key = caller; time = 4 }
    ∷ record { key = caller; time = 5 }
    ∷ record { key = caller; time = 6 }
    ∷ record { key = caller; time = 7 }
    ∷ record { key = caller; time = 8 }
    ∷ record { key = caller; time = 9 }
    ∷ record { key = caller; time = 10 }
    ∷ record { key = caller; time = 60000 }
    ∷ []

rate_limit_window_example : passed auth_window_ms auth_limit caller attempts [] ≡ 10
rate_limit_window_example =
    rate_limit_window auth_window_ms auth_limit caller 0 attempts [] tt (omega arith) (ground arith)

abbrev token_payload : AccessToken
token_payload = record { sub = 2; sid = 7 }

-- The investigator's clearance is lowered, and the token that was issued before is used again.
amended_next_request_example :
    authenticate
      (λ token. valid token_payload)
      (some (bearer ++ (46 ∷ [])))
      (change_clearance administrator 2 1 (start long_text)).1
    ≡ (
      ok (actor_of token_payload lowered),
      (change_clearance administrator 2 1 (start long_text)).1,
    )
unfolding amend change_clearance update_violation violation apply_update
amended_next_request_example =
    amended_next_request (λ token. valid token_payload) (some (bearer ++ (46 ∷ []))) (46 ∷ [])
      token_payload (to_clearance 1) administrator (start long_text)
      (change_clearance administrator 2 1 (start long_text)).1
      (change_clearance administrator 2 1 (start long_text)).1
      (record { user = lowered; affected_incident_count = 2 }) refl refl refl refl
