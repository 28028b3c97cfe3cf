-- ===== src/Auth.antt =====
-- src/modules/auth/auth.service.ts and auth.repository.ts: registration, login, the rotation of refresh
-- tokens, and logout.
pub mod Sessions
pub mod Account
use incident_api.Base.{
  ℕ, ◌+◌, Bool, true, false, not, ◌&&◌, ◌||◌, Option, none, some, List, [], ◌∷◌, ◌++◌, leb, ltb,
  ◌==◌, any, every, is_none, is_some, find_where, update_where, count_where, if◌then◌else◌, has_key,
}
use incident_api.Model.Enums.{reporter}
use incident_api.Model.Errors.{
  Thrown, Constraint, app, violated, unique_key, closed_requires_rca, high_severity_clock,
  clearance_range, missing_record, unauthenticated_error, email_already_exists_error,
}
use incident_api.Model.Text.{Text, same_text}
use incident_api.Model.Rows.{User, RefreshToken}
use incident_api.Model.World.{World, Db}
use incident_api.Model.Exec.{
  Result, ok, err, Exec, pure, gets, throw, fail, require, or_throw, transaction, now, new_id,
  modify_db, ◌>>=◌, ◌>>◌,
}

abbrev pub token_id : RefreshToken → ℕ
token_id t = t.id

-- `where: { sessionId, revokedAt: null }`.
abbrev pub is_live : (session_id : ℕ) → RefreshToken → Bool
is_live session_id t = t.session_id == session_id && is_none t.revoked_at

abbrev pub set_tokens : List RefreshToken → World → World
set_tokens tokens w = record w { db = record (w.db) { tokens = tokens } }

abbrev pub revoke : (at : ℕ) → RefreshToken → RefreshToken
revoke at t = record t { revoked_at = some at }

abbrev pub rotate_to : (at new_id : ℕ) → RefreshToken → RefreshToken
rotate_to at new_id t = record t { revoked_at = some at; replaced_by_id = some new_id }

unfoldable pub revoke_session : (session_id : ℕ) → Exec (Unit {0})
revoke_session session_id w =
    (ok tt, set_tokens (update_where (is_live session_id) (revoke w.clock) w.db.tokens) w)

abbrev pub is_unrevoked : (id : ℕ) → RefreshToken → Bool
is_unrevoked id t = has_key token_id id t && is_none t.revoked_at

unfoldable pub revoke_refresh_token_by_id : (id : ℕ) → Exec (Unit {0})
revoke_refresh_token_by_id id w =
    (ok tt, set_tokens (update_where (is_unrevoked id) (revoke w.clock) w.db.tokens) w)

-- `rotated`: whether the update matched a row.
unfoldable pub mark_refresh_token_rotated : (id replaced_by_id : ℕ) → Exec Bool
mark_refresh_token_rotated id replaced_by_id w = (
  ok (ltb 0 (count_where (is_unrevoked id) w.db.tokens)),
  set_tokens (update_where (is_unrevoked id) (rotate_to w.clock replaced_by_id) w.db.tokens) w,
)

-- The primary key and the unique hash.
abbrev pub clashes : RefreshToken → RefreshToken → Bool
clashes new t = t.id == new.id || same_text t.token_hash new.token_hash

unfoldable pub create_refresh_token : RefreshToken → Exec (Unit {0})
create_refresh_token new w =
    if any (clashes new) w.db.tokens
    then (err (violated unique_key), w)
    else (ok tt, set_tokens (w.db.tokens ++ new ∷ []) w)

unfoldable pub find_refresh_token_by_hash : Text → Exec (Option RefreshToken)
find_refresh_token_by_hash hash =
    gets (λ w. find_where (λ (t : RefreshToken). same_text t.token_hash hash) w.db.tokens)

unfoldable pub find_user_by_email : Text → Exec (Option User)
find_user_by_email email = gets (λ w. find_where (λ (u : User). same_text u.email email) w.db.users)

abbrev pub new_user : (id : ℕ) → (email password_hash display_name : Text) → (now : ℕ) → User
new_user id email password_hash display_name at = record {
  id = id;
  email = email;
  password_hash = password_hash;
  display_name = display_name;
  role = reporter;
  clearance_level = 1;
  is_active = true;
  created_at = at;
}

abbrev pub user_clashes : User → User → Bool
user_clashes new u = u.id == new.id || same_text u.email new.email

unfoldable pub create_user : User → Exec User
create_user new w =
    if any (user_clashes new) w.db.users
    then (err (violated unique_key), w)
    else (ok new, record w { db = record (w.db) { users = w.db.users ++ new ∷ [] } })

-- `isUniqueEmailViolation` reads the code of the error, which every unique key has.
abbrev pub as_email_error : Thrown → Thrown
as_email_error (violated unique_key) = app email_already_exists_error
as_email_error e = e

abbrev pub rethrow : {A : Type 0} → Result A × World → Result A × World
rethrow (ok a, w) = (ok a, w)
rethrow (err e, w) = (err (as_email_error e), w)

abbrev pub catch_unique : {A : Type 0} → Exec A → Exec A
catch_unique m w = rethrow (m w)

-- The claims that an access token signs.
pub record AccessToken : Type 0 where
  pub sub : ℕ
  pub sid : ℕ

pub record Session : Type 0 where
  pub access_token : AccessToken
  pub refresh_token : Text

abbrev pub is_admitted : Option User → (password_matches : Bool) → Bool
is_admitted none matches = false
is_admitted (some u) matches = u.is_active && matches

-- What the service takes from node:crypto and bcrypt, and its configuration: SHA-256 of a token, the
-- token that a call of `randomBytes` gives, `bcrypt.hash` and `bcrypt.compare`, the hash that no
-- password has, and `REFRESH_TOKEN_TTL_MS`.
pub record Crypto : Type 0 where
  pub hash_token : Text → Text
  pub generate : (call : ℕ) → Text
  pub hash_password : Text → Text
  pub compare_password : (password hash : Text) → Bool
  pub dummy_hash : Text
  pub ttl_ms : ℕ

module _ (crypto : Crypto) where
  unfoldable pub issue_session : User → Exec Session
  unfolding new_id create_refresh_token
  issue_session user = do
    session_id ← new_id
    token ← gets (λ w. crypto.generate w.drawn)
    at ← now
    id ← new_id
    create_refresh_token (record {
      id = id;
      user_id = user.id;
      session_id = session_id;
      token_hash = crypto.hash_token token;
      expires_at = at + crypto.ttl_ms;
      revoked_at = none;
      replaced_by_id = none;
    })
    pure (record {
      access_token = record { sub = user.id; sid = session_id };
      refresh_token = token;
    })

  unfoldable pub register : (email password display_name : Text) → Exec Session
  unfolding find_user_by_email new_id create_user issue_session
  register email password display_name = do
    existing ← find_user_by_email email
    require (is_none existing) email_already_exists_error
    at ← now
    id ← new_id
    user ←
        catch_unique
          (create_user (new_user id email (crypto.hash_password password) display_name at))
    issue_session user

  abbrev pub stored_hash : Option User → Text
  stored_hash none = crypto.dummy_hash
  stored_hash (some u) = u.password_hash

  unfoldable pub login : (email password : Text) → Exec Session
  unfolding find_user_by_email issue_session
  login email password = do
    user ← find_user_by_email email
    require (is_admitted user (crypto.compare_password password (stored_hash user)))
        unauthenticated_error
    found ← or_throw user unauthenticated_error
    issue_session found

  abbrev pub successor :
      RefreshToken → (new_id : ℕ) → (token : Text) → (expires_at : ℕ) → RefreshToken
  successor row id token expires_at = record {
    id = id;
    user_id = row.user_id;
    session_id = row.session_id;
    token_hash = crypto.hash_token token;
    expires_at = expires_at;
    revoked_at = none;
    replaced_by_id = none;
  }

  -- After `markRefreshTokenRotated`.
  abbrev pub rotated_or_lost : Bool → RefreshToken → RefreshToken → Exec AccessToken
  rotated_or_lost true row new = do
    create_refresh_token new
    pure (record { sub = row.user_id; sid = row.session_id })
  rotated_or_lost false row new = do revoke_session row.session_id; throw unauthenticated_error

  -- The transaction of a refresh, on the row that was read before it.
  unfoldable pub rotate : RefreshToken → RefreshToken → Exec AccessToken
  unfolding mark_refresh_token_rotated revoke_session create_refresh_token
  rotate row new = do
    rotated ← mark_refresh_token_rotated row.id new.id
    rotated_or_lost rotated row new

  -- What a refresh does with the row of the presented token.
  abbrev pub refresh_row : RefreshToken → Exec Session
  refresh_row row = do
    id ← new_id
    token ← gets (λ w. crypto.generate w.drawn)
    at ← now
    access ← transaction (rotate row (successor row id token (at + crypto.ttl_ms)))
    pure (record { access_token = access; refresh_token = token })

  abbrev pub unless_expired : Bool → RefreshToken → Exec Session
  unless_expired true row = do revoke_refresh_token_by_id row.id; throw unauthenticated_error
  unless_expired false row = refresh_row row

  abbrev pub unless_revoked : Option ℕ → RefreshToken → Exec Session
  unless_revoked (some _) row = do revoke_session row.session_id; throw unauthenticated_error
  unless_revoked none row = do at ← now; unless_expired (leb row.expires_at at) row

  unfoldable pub refresh : (presented : Text) → Exec Session
  unfolding find_refresh_token_by_hash revoke_session revoke_refresh_token_by_id rotate new_id
  refresh presented = do
    found ← find_refresh_token_by_hash (crypto.hash_token presented)
    row ← or_throw found unauthenticated_error
    unless_revoked row.revoked_at row

  abbrev pub revoke_some : Option ℕ → Exec (Unit {0})
  revoke_some none = pure tt
  revoke_some (some session_id) = revoke_session session_id

  abbrev pub logout_row : Option RefreshToken → (session_id : Option ℕ) → Exec (Unit {0})
  logout_row none session_id = revoke_some session_id
  logout_row (some row) session_id = revoke_session row.session_id

  -- An empty cookie counts as none.
  unfoldable pub logout : (presented : Option Text) → (session_id : Option ℕ) → Exec (Unit {0})
  unfolding find_refresh_token_by_hash revoke_session
  logout none session_id = revoke_some session_id
  logout (some []) session_id = revoke_some session_id
  logout (some (c ∷ rest)) session_id = do
    row ← find_refresh_token_by_hash (crypto.hash_token (c ∷ rest))
    logout_row row session_id
