-- ===== src/Http/Authenticate.antt =====
-- src/http/middleware/authenticate.middleware.ts and authorizeRole.middleware.ts.
pub mod Freshness
use incident_api.Base.{
  ℕ, Bool, true, false, Option, none, some, List, [], ◌∷◌, ◌||◌, ◌==◌, if◌then◌else◌,
}
use incident_api.Model.Enums.{Role, same_role}
use incident_api.Model.Errors.{
  app, unauthenticated_error, token_expired_error, insufficient_role_error,
}
use incident_api.Model.Text.{Text}
use incident_api.Model.Rows.{Actor, User}
use incident_api.Model.World.{World}
use incident_api.Model.Exec.{Exec, Result, ok, err, pure, throw, gets, ◌>>=◌}
use incident_api.Incidents.Repository.{find_user}
use incident_api.Auth.{AccessToken}

-- What `jwt.verify` makes of a token.
pub data Verified : Type 0 where
  valid : AccessToken → Verified
  expired invalid : Verified

-- `header.startsWith('Bearer ')` and `slice`.
abbrev pub strip_prefix : Text → Text → Option Text
strip_prefix [] s = some s
strip_prefix (c ∷ p) [] = none
strip_prefix (c ∷ p) (d ∷ s) = if c == d then strip_prefix p s else none

abbrev pub bearer : Text
bearer = 66 ∷ 101 ∷ 97 ∷ 114 ∷ 101 ∷ 114 ∷ 32 ∷ []

abbrev pub bearer_token : Option Text → Option Text
bearer_token none = none
bearer_token (some header) = strip_prefix bearer header

abbrev pub actor_of : AccessToken → User → Actor
actor_of payload u = record {
  id = u.id;
  role = u.role;
  clearance_level = u.clearance_level;
  session_id = some payload.sid;
}

abbrev pub with_user : AccessToken → Option User → Exec Actor
with_user payload none = throw unauthenticated_error
with_user payload (some u) =
    if u.is_active then pure (actor_of payload u) else throw unauthenticated_error

abbrev pub with_payload : Verified → Exec Actor
with_payload (valid payload) = do
  user ← gets (λ w. find_user (some payload.sub) w.db.users)
  with_user payload user
with_payload expired = throw token_expired_error
with_payload invalid = throw unauthenticated_error

abbrev pub with_token : (Text → Verified) → Option Text → Exec Actor
with_token verify none = throw unauthenticated_error
with_token verify (some token) = with_payload (verify token)

-- The actor that the request carries from here on.
unfoldable pub authenticate :
    (verify_access_token : Text → Verified) → (header : Option Text) → Exec Actor
authenticate verify_access_token header = with_token verify_access_token (bearer_token header)

abbrev pub includes_role : List Role → Role → Bool
includes_role [] role = false
includes_role (r ∷ rs) role = same_role r role || includes_role rs role

unfoldable pub authorize_role : List Role → Option Actor → Result (Unit {0})
authorize_role roles none = err (app unauthenticated_error)
authorize_role roles (some actor) =
    if includes_role roles actor.role then ok tt else err (app (insufficient_role_error roles))
