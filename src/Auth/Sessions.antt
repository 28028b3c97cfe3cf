-- ===== src/Auth/Sessions.antt =====
-- The live tokens of a session under `refresh` of src/modules/auth/auth.service.ts.
use incident_api.Base.{
  ℕ, ◌+◌, ◌≤◌, ◌≡◌, refl, inl, inr, Bool, true, false, Option, none, some, List, [], ◌∷◌, ◌++◌,
  arith, leb, ltb, any, is_none, if◌then◌else◌, Unique, has_key, find_where, update_where,
  count_where, find_by_key, count-update, Bool-cases, Option-cases,
}
use incident_api.Model.Errors.{app, unauthenticated_error}
use incident_api.Model.Text.{Text, same_text}
use incident_api.Model.Rows.{RefreshToken}
use incident_api.Model.World.{World}
use incident_api.Model.Exec.{Result, ok, err, transaction, continue, pure}
use incident_api.Auth.{
  Crypto, AccessToken, token_id, is_live, is_unrevoked, revoke, rotate_to, clashes, rotate, refresh,
  unless_expired, unless_revoked, successor, Session,
}

-- How many tokens of a session can still be used.
unfoldable pub live : (session_id : ℕ) → List RefreshToken → ℕ
live session_id tokens = count_where (is_live session_id) tokens

revoke-live :
    (s at : ℕ) (tokens : List RefreshToken)
    → live s (update_where (is_live s) (revoke at) tokens) ≡ 0
unfolding live
revoke-live s at [] = refl
revoke-live s at (t ∷ tokens) = ground (arith, revoke-live s at tokens)

-- Revoking, whatever the test, makes no token live.
revoke-fewer :
    (s at : ℕ) (p : RefreshToken → Bool) (tokens : List RefreshToken)
    → live s (update_where p (revoke at) tokens) ≤ live s tokens
unfolding live
revoke-fewer s at p [] = omega arith
revoke-fewer s at p (t ∷ tokens) = ground (arith, revoke-fewer s at p tokens)

live-append :
    (s : ℕ) (tokens : List RefreshToken) (t : RefreshToken)
    → live s (tokens ++ t ∷ []) ≡ live s tokens + (if is_live s t then 1 else 0)
unfolding live
live-append s [] t = omega arith
live-append s (x ∷ tokens) t = ground (arith, live-append s tokens t)

session_live :
    (s n : ℕ) (token : Text) (r : Result AccessToken × World)
    → live s r.1.db.tokens ≤ n
    → live s
        (continue {B = Session}
          (λ a. pure (record { access_token = a; refresh_token = token }))
          r).1.db.tokens
      ≤ n
session_live s n token (ok a, w) h = h
session_live s n token (err e, w) h = h

successor_live :
    (row new : RefreshToken) (w : World) (s : ℕ)
    → Unique token_id w.db.tokens
    → find_where (has_key token_id row.id) w.db.tokens ≡ some row
    → row.revoked_at ≡ none
    → new.session_id ≡ row.session_id
    → live s (update_where (is_unrevoked row.id) (rotate_to w.clock new.id) w.db.tokens ++ new ∷ [])
      ≤ live s w.db.tokens
unfolding live
successor_live row new w s u h k e =
    let counted =
      count-update token_id (is_live s) (λ (t : RefreshToken). is_none t.revoked_at)
        (rotate_to w.clock new.id) row.id w.db.tokens row u h (ground arith) in
    let grown =
      live-append s (update_where (is_unrevoked row.id) (rotate_to w.clock new.id) w.db.tokens)
        new in
    ground (arith, counted, grown)

module _ (crypto : Crypto) where
  -- The transaction of a refresh, run where no unrevoked token has the id of the row that was read,
  -- fails with UNAUTHENTICATED and leaves the world as it was: the revocation of the session that it
  -- asks for is rolled back.
  pub rotate_lost :
      (row new : RefreshToken) (w : World)
      → count_where (is_unrevoked row.id) w.db.tokens ≡ 0
      → transaction (rotate crypto row new) w ≡ (err (app unauthenticated_error), w)
  unfolding rotate
  rotate_lost row new w h = rw h refl

  -- The row of a presented token.
  abbrev pub presented_row : Text → World → Option RefreshToken
  presented_row presented w =
      find_where (λ (t : RefreshToken). same_text t.token_hash (crypto.hash_token presented))
        w.db.tokens

  -- A refresh with a token that was rotated or revoked before is refused, and no token of its
  -- session is live afterwards.
  pub refresh_reuse :
      (presented : Text) (w : World) (row : RefreshToken) (at : ℕ)
      → presented_row presented w ≡ some row
      → row.revoked_at ≡ some at
      → ((refresh crypto presented w).0 ≡ err (app unauthenticated_error))
        × (live row.session_id (refresh crypto presented w).1.db.tokens ≡ 0)
  unfolding refresh
  refresh_reuse presented w row at h k =
      rw (h, k) (refl, revoke-live row.session_id w.clock w.db.tokens)

  live-rotate :
      (row new : RefreshToken) (w : World) (s : ℕ)
      → Unique token_id w.db.tokens
      → find_where (has_key token_id row.id) w.db.tokens ≡ some row
      → row.revoked_at ≡ none
      → new.session_id ≡ row.session_id
      → live s (transaction (rotate crypto row new) w).1.db.tokens ≤ live s w.db.tokens
  unfolding rotate live
  live-rotate row new w s u h k e =
      let marked = update_where (is_unrevoked row.id) (rotate_to w.clock new.id) w.db.tokens in
      elim (Bool-cases (ltb 0 (count_where (is_unrevoked row.id) w.db.tokens))) [
        | inr lost ↦ rw lost (omega arith)
        | inl won ↦ elim (Bool-cases (any (clashes new) marked)) [
          | inl clash ↦ rw (won, clash) (omega arith)
          | inr free ↦ rw (won, free) (successor_live row new w s u h k e)
        ]
      ]

  current_live :
      (row : RefreshToken) (w : World) (s : ℕ) (expired : Bool)
      → Unique token_id w.db.tokens
      → find_where (has_key token_id row.id) w.db.tokens ≡ some row
      → row.revoked_at ≡ none
      → live s (unless_expired crypto expired row w).1.db.tokens ≤ live s w.db.tokens
  unfolding refresh
  current_live row w s true u h k = revoke-fewer s w.clock (is_unrevoked row.id) w.db.tokens
  current_live row w s false u h k =
      let v : World = record w { drawn = w.drawn + 1 } in
      let new =
        successor crypto row (w.supply w.drawn) (crypto.generate (w.drawn + 1))
          (w.clock + crypto.ttl_ms) in
      session_live s _ (crypto.generate (w.drawn + 1)) (transaction (rotate crypto row new) v)
        (live-rotate row new v s u h k refl)

  row_live :
      (row : RefreshToken) (w : World) (s : ℕ) (revoked : Option ℕ)
      → Unique token_id w.db.tokens
      → find_where (has_key token_id row.id) w.db.tokens ≡ some row
      → row.revoked_at ≡ revoked
      → live s (unless_revoked crypto revoked row w).1.db.tokens ≤ live s w.db.tokens
  unfolding refresh
  row_live row w s (some at) u h k = revoke-fewer s w.clock (is_live row.session_id) w.db.tokens
  row_live row w s none u h k = current_live row w s (leb row.expires_at w.clock) u h k

  -- Where token ids are unique, a refresh leaves no session with more live tokens than it had,
  -- whatever its outcome.
  pub live-refresh :
      (presented : Text) (w : World) (s : ℕ)
      → Unique token_id w.db.tokens
      → live s (refresh crypto presented w).1.db.tokens ≤ live s w.db.tokens
  unfolding refresh
  live-refresh presented w s u = elim (Option-cases (presented_row presented w)) [
    | inl absent ↦ rw absent (omega arith)
    | inr (row, h) ↦
        rw h (row_live row w s row.revoked_at u (find_by_key token_id _ w.db.tokens row u h) refl)
  ]
