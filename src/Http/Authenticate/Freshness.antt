-- ===== src/Http/Authenticate/Freshness.antt =====
-- Changes of a user, src/modules/admin/admin.service.ts, and the user's next request.
use incident_api.Base.{
  ◌≡◌, refl, ap, ◌∙◌, inl, inr, ◌⊎◌, true, false, Option, some, if◌then◌else◌, Bool-cases,
}
use mathlib.Core.Path.{subst}
use incident_api.Model.Errors.{app, unauthenticated_error}
use incident_api.Model.Text.{Text}
use incident_api.Model.Rows.{Actor}
use incident_api.Model.World.{World}
use incident_api.Model.Exec.{ok, err}
use incident_api.Incidents.Repository.{find_user}
use incident_api.Admin.{AdminUserMutation}
use incident_api.Admin.Frame.{Amendment, amend}
use incident_api.Admin.Answers.{Answered, amend-Answered}
use incident_api.Auth.{AccessToken}
use incident_api.Http.Authenticate.{
  Verified, valid, bearer_token, with_user, actor_of, authenticate,
}

module _ (verify_access_token : Text → Verified) (header : Option Text) (token : Text)
    (payload : AccessToken) where
  -- What an accepted token comes to: the row of its user decides.
  accepted :
      (w : World)
      → bearer_token header ≡ some token
      → verify_access_token token ≡ valid payload
      → authenticate verify_access_token header w
        ≡ with_user payload (find_user (some payload.sub) w.db.users) w
  unfolding authenticate
  accepted w carried checked = rw (carried, checked) refl

  -- After a change of a user's role, clearance or status that answers, the next request with a valid
  -- token of that user, in any world with the users that the change left, acts with the role and
  -- clearance that the change answered, and is refused if the user is then inactive, whatever the
  -- token was issued with.
  pub amended_next_request :
      (change : Amendment) (admin : Actor) (before after later : World) (answer : AdminUserMutation)
      → bearer_token header ≡ some token
      → verify_access_token token ≡ valid payload
      → amend change admin payload.sub before ≡ (ok answer, after)
      → later.db.users ≡ after.db.users
      → authenticate verify_access_token header later ≡ (
          if answer.user.is_active
          then (ok (actor_of payload answer.user), later)
          else (err (app unauthenticated_error), later))
  amended_next_request change admin before after later answer carried checked changed users =
      let stored : find_user (some payload.sub) after.db.users ≡ some answer.user =
        subst (Answered payload.sub) changed (amend-Answered admin payload.sub before change) in
      accepted later carried checked
      ∙ ap (λ u. with_user payload u later) (ap (find_user (some payload.sub)) users ∙ stored)
      ∙ by_status (Bool-cases answer.user.is_active)
    where
      by_status :
          (answer.user.is_active ≡ true) ⊎ (answer.user.is_active ≡ false)
          → with_user payload (some answer.user) later ≡ (
              if answer.user.is_active
              then (ok (actor_of payload answer.user), later)
              else (err (app unauthenticated_error), later))
      by_status (inl e) = rw e refl
      by_status (inr e) = rw e refl
