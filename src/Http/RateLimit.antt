-- ===== src/Http/RateLimit.antt =====
-- src/http/middleware/rateLimit.middleware.ts. The map of buckets is an association list.
pub mod Buckets
pub mod Window
use incident_api.Base.{
  ℕ, ◌+◌, ◌*◌, ◌-◌, Bool, true, false, Option, none, some, List, [], ◌∷◌, ltb, leb, or_else,
  if◌then◌else◌, ◌++◌,
}
use incident_api.Model.Errors.{app, rate_limited_error}
use incident_api.Model.Text.{Text, same_text}
use incident_api.Model.Exec.{Result, ok, err}
use incident_api.Pagination.{ceil_div}

pub record Bucket : Type 0 where
  pub count : ℕ
  pub reset_at : ℕ

abbrev pub Buckets : Type 0
Buckets = List (Text × Bucket)

-- `Map.get` and `Map.set`.
abbrev pub bucket_at : Text → Buckets → Option Bucket
bucket_at key [] = none
bucket_at key ((k, b) ∷ rest) = if same_text k key then some b else bucket_at key rest

abbrev pub put_bucket : Text → Bucket → Buckets → Buckets
put_bucket key new [] = (key, new) ∷ []
put_bucket key new ((k, b) ∷ rest) =
    if same_text k key then (k, new) ∷ rest else (k, b) ∷ put_bucket key new rest

module _ (window_ms limit : ℕ) where
  abbrev pub start_window : Text → (now : ℕ) → Buckets → Result (Unit {0}) × Buckets
  start_window key now buckets =
      (ok tt, put_bucket key (record { count = 1; reset_at = now + window_ms }) buckets)

  abbrev pub in_window : Text → (now : ℕ) → Buckets → Bucket → Result (Unit {0}) × Buckets
  in_window key now buckets b =
      if leb limit b.count
      then (err (app (rate_limited_error (ceil_div (b.reset_at - now) 1000))), buckets)
      else (ok tt, put_bucket key (record b { count = b.count + 1 }) buckets)

  abbrev pub with_existing :
      Text → (now : ℕ) → Buckets → Option Bucket → Result (Unit {0}) × Buckets
  with_existing key now buckets none = start_window key now buckets
  with_existing key now buckets (some b) =
      if leb b.reset_at now then start_window key now buckets else in_window key now buckets b

  -- One request: `next()` is the value, `next(error)` the error.
  unfoldable pub rate_limit : Text → (now : ℕ) → Buckets → Result (Unit {0}) × Buckets
  rate_limit key now buckets = with_existing key now buckets (bucket_at key buckets)

-- `` `${req.ip ?? 'unknown'}:${email ?? ''}` ``.
abbrev unknown : Text
unknown = 117 ∷ 110 ∷ 107 ∷ 110 ∷ 111 ∷ 119 ∷ 110 ∷ []

abbrev pub auth_key : (ip email : Option Text) → Text
auth_key ip email = or_else ip unknown ++ (58 ∷ or_else email [])

abbrev pub auth_window_ms : ℕ
auth_window_ms = 15 * 60 * 1000

abbrev pub auth_limit : ℕ
auth_limit = 10

unfoldable pub auth_rate_limit :
    (ip email : Option Text) → (now : ℕ) → Buckets → Result (Unit {0}) × Buckets
unfolding rate_limit
auth_rate_limit ip email now buckets =
    rate_limit auth_window_ms auth_limit (auth_key ip email) now buckets
