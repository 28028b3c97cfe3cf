-- ===== src/Admin/Listing.antt =====
-- The lists of src/modules/admin/admin.service.ts, and the investigators that
-- src/modules/users/users.repository.ts offers for an assignment.
use incident_api.Base.{
  ℕ, Bool, true, ◌&&◌, ◌||◌, Option, none, some, List, [], ◌∷◌, map, ltb, leb, ◌==◌, any, filter,
  take, sort_by,
}
use incident_api.Model.Enums.{Role, investigator, same_role}
use incident_api.Model.Text.{Text}
use incident_api.Model.Rows.{User, JobRun}
use incident_api.Model.Exec.{Exec, pure, gets, ◌>>=◌}
use incident_api.Pagination.{OffsetPage, build_offset_page, count_and_find}
use incident_api.Pagination.Cursors.{newest_first}
use incident_api.Incidents.Queries.{Search}
use incident_api.Admin.{same_bool}

-- `AdminUsersQuery`.
pub record AdminUsersQuery : Type 0 where
  pub page : ℕ
  pub page_size : ℕ
  pub role : Option (List Role)
  pub is_active : Option Bool
  pub q : Option Text

abbrev pub role_filter : Option (List Role) → Role → Bool
role_filter none role = true
role_filter (some []) role = true
role_filter (some (r ∷ rs)) role = any (same_role role) (r ∷ rs)

abbrev pub active_filter : Option Bool → Bool → Bool
active_filter none active = true
active_filter (some wanted) active = same_bool active wanted

-- An empty text is no filter.
abbrev pub text_filter : Search → Option Text → User → Bool
text_filter search none u = true
text_filter search (some []) u = true
text_filter search (some (c ∷ q)) u =
    search.contains_insensitive u.email (c ∷ q)
    || search.contains_insensitive u.display_name (c ∷ q)

unfoldable pub build_users_where : Search → AdminUsersQuery → User → Bool
build_users_where search query u =
    role_filter query.role u.role
    && active_filter query.is_active u.is_active
    && text_filter search query.q u

-- `AdminUserRow`.
pub record AdminUserRow : Type 0 where
  pub id : ℕ
  pub email : Text
  pub display_name : Text
  pub role : Role
  pub clearance_level : ℕ
  pub is_active : Bool
  pub created_at : ℕ

unfoldable pub to_admin_user_row : User → AdminUserRow
to_admin_user_row u = record {
  id = u.id;
  email = u.email;
  display_name = u.display_name;
  role = u.role;
  clearance_level = u.clearance_level;
  is_active = u.is_active;
  created_at = u.created_at;
}

-- `listUsers` of the repository.
unfoldable pub find_users_page : Search → AdminUsersQuery → Exec (ℕ × List User)
unfolding count_and_find build_users_where
find_users_page search query = gets (λ w.
    count_and_find (λ (u : User). w.place u.id)
      (newest_first (λ (u : User). u.created_at) (λ (u : User). u.id))
      (build_users_where search query) w.db.users query.page query.page_size)

unfoldable pub list_users : Search → AdminUsersQuery → Exec (OffsetPage AdminUserRow)
unfolding find_users_page build_offset_page to_admin_user_row
list_users search query = do
  found ← find_users_page search query
  pure (build_offset_page (map to_admin_user_row found.1) found.0 query.page query.page_size)

-- `recent`: all runs are of the job "escalation".
unfoldable pub recent_runs : (limit : ℕ) → Exec (List JobRun)
recent_runs limit =
    gets (λ w. take limit (sort_by (λ (a b : JobRun). ltb b.started_at a.started_at) w.db.job_runs))

-- The fields are taken over as they are.
unfoldable pub list_job_runs : (limit : ℕ) → Exec (List JobRun)
unfolding recent_runs
list_job_runs limit = recent_runs limit

-- `AssignableInvestigator`.
pub record AssignableInvestigator : Type 0 where
  pub id : ℕ
  pub display_name : Text
  pub clearance_level : ℕ

abbrev pub is_assignable : (min_clearance : ℕ) → User → Bool
is_assignable min_clearance u =
    same_role u.role investigator && u.is_active && leb min_clearance u.clearance_level

-- By clearance, the highest first, then by name in the order of the database.
abbrev pub assignable_before : (name_before : Text → Text → Bool) → User → User → Bool
assignable_before name_before a b =
    ltb b.clearance_level a.clearance_level
    || (a.clearance_level == b.clearance_level && name_before a.display_name b.display_name)

unfoldable pub find_assignable_investigators :
    (name_before : Text → Text → Bool) → (min_clearance : ℕ) → Exec (List AssignableInvestigator)
find_assignable_investigators name_before min_clearance = gets (λ w.
    map
      (λ (u : User). record {
        id = u.id;
        display_name = u.display_name;
        clearance_level = u.clearance_level;
      })
      (sort_by (assignable_before name_before) (filter (is_assignable min_clearance) w.db.users)))
