-- ===== src/Tests/Sessions.antt =====
-- Refresh tokens, run on a session with a rotated token and its successor.
use incident_api.Base.{◌+◌, ◌≤◌, ◌≡◌, refl, arith, some, none, [], ◌∷◌}
use incident_api.Model.Errors.{app, unauthenticated_error}
use incident_api.Model.Rows.{RefreshToken}
use incident_api.Model.World.{World}
use incident_api.Model.Exec.{ok, err, transaction}
use incident_api.Auth.{Crypto, rotate, refresh}
use incident_api.Model.Text.{same_text}
use incident_api.Auth.Sessions.{live, rotate_lost, refresh_reuse, live-refresh}
use incident_api.Tests.Fixtures.{long_text, start}

-- Stand-ins for the functions of node:crypto and bcrypt.
abbrev crypto : Crypto
crypto = record {
  hash_token = λ t. 35 ∷ t;
  generate = λ n. (n + 1000) ∷ [];
  hash_password = λ t. 36 ∷ t;
  compare_password = λ p h. same_text (36 ∷ p) h;
  dummy_hash = [];
  ttl_ms = 1000000;
}

abbrev used : RefreshToken
used = record {
  id = 50;
  user_id = 1;
  session_id = 40;
  token_hash = 35 ∷ 1 ∷ [];
  expires_at = 9000000;
  revoked_at = some 1000;
  replaced_by_id = some 51;
}

abbrev current : RefreshToken
current = record used {
  id = 51;
  token_hash = 35 ∷ 2 ∷ [];
  revoked_at = none;
  replaced_by_id = none;
}

abbrev logged_in : World
logged_in = record (start long_text) {
  db = record ((start long_text).db) { tokens = used ∷ current ∷ [] };
}

rotate_lost_example :
    transaction (rotate crypto used (record current { id = 52 })) logged_in
    ≡ (err (app unauthenticated_error), logged_in)
rotate_lost_example = rotate_lost crypto used (record current { id = 52 }) logged_in refl

refresh_reuse_example :
    ((refresh crypto (1 ∷ []) logged_in).0 ≡ err (app unauthenticated_error))
    × (live 40 (refresh crypto (1 ∷ []) logged_in).1.db.tokens ≡ 0)
refresh_reuse_example = refresh_reuse crypto (1 ∷ []) logged_in used 1000 refl refl

live-refresh_example :
    live 40 (refresh crypto (2 ∷ []) logged_in).1.db.tokens ≤ live 40 logged_in.db.tokens
live-refresh_example = live-refresh crypto (2 ∷ []) logged_in 40 (ground arith)

-- A refresh hands out the next token.
refresh_run :
    (refresh crypto (2 ∷ []) logged_in).0
    ≡ ok (record { access_token = record { sub = 1; sid = 40 }; refresh_token = 1001 ∷ [] })
unfolding refresh
refresh_run = refl
