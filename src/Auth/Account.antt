-- ===== src/Auth/Account.antt =====
-- `me` of src/modules/auth/auth.service.ts.
use incident_api.Base.{ℕ, some}
use incident_api.Model.Enums.{Role}
use incident_api.Model.Errors.{unauthenticated_error}
use incident_api.Model.Text.{Text}
use incident_api.Model.Rows.{User}
use incident_api.Model.Exec.{Exec, pure, gets, or_throw, ◌>>=◌}
use incident_api.Incidents.Repository.{find_user}

pub record UserSummary : Type 0 where
  pub id : ℕ
  pub email : Text
  pub display_name : Text
  pub role : Role
  pub clearance_level : ℕ

unfoldable pub to_user_summary : User → UserSummary
to_user_summary user = record {
  id = user.id;
  email = user.email;
  display_name = user.display_name;
  role = user.role;
  clearance_level = user.clearance_level;
}

unfoldable pub me : (user_id : ℕ) → Exec UserSummary
unfolding to_user_summary
me user_id = do
  found ← gets (λ w. find_user (some user_id) w.db.users)
  user ← or_throw found unauthenticated_error
  pure (to_user_summary user)
