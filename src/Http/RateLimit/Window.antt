-- ===== src/Http/RateLimit/Window.antt =====
-- How many requests of one key pass within one window.
use incident_api.Base.{
  ℕ, suc, ◌+◌, ◌≤◌, ◌<◌, ◌≡◌, refl, sym, ap, ◌∙◌, inl, inr, Bool, true, false, ◌&&◌, Option, none,
  some, List, [], ◌∷◌, leb, if◌then◌else◌, Bool-cases, All, All-mono, arith, count_where,
}
use incident_api.Model.Text.{Text, same_text}
use incident_api.Model.Exec.{Result, ok, err}
use incident_api.Http.RateLimit.{Bucket, Buckets, bucket_at, put_bucket, start_window, rate_limit}
use incident_api.Http.RateLimit.Buckets.{same_text-eq, put-same, request-other, request-eq}

pub record Arrival : Type 0 where
  pub key : Text
  pub time : ℕ

abbrev pub is_passed : Result (Unit {0}) → Bool
is_passed (ok x) = true
is_passed (err e) = false

abbrev pub has_text : Text → Arrival → Bool
has_text key r = same_text r.key key

abbrev pub at_most : (limit n : ℕ) → ℕ
at_most limit n = if leb limit n then limit else n

-- A request with this key whose answer lets it pass.
abbrev pub counts : Text → Arrival → Result (Unit {0}) → Bool
counts key r answer = has_text key r && is_passed answer

-- No window is open at `since`.
abbrev pub Idle : (since : ℕ) → Option Bucket → Type 0
Idle since none = Unit {0}
Idle since (some b) = b.reset_at ≤ since

module _ (window_ms limit : ℕ) where
  -- The requests with this key that pass, of requests that arrive one after another.
  unfoldable pub passed : Text → List Arrival → Buckets → ℕ
  passed key [] bs = 0
  passed key (r ∷ rs) bs =
      let rest = passed key rs (rate_limit window_ms limit r.key r.time bs).1 in
      if counts key r (rate_limit window_ms limit r.key r.time bs).0 then suc rest else rest

  module _ (key : Text) (until : ℕ) where
    abbrev pub Before : Arrival → Type 0
    Before r = r.time < until

    step :
        (r : Arrival) (rs : List Arrival) (bs : Buckets) (answer : Result (Unit {0}) × Buckets)
        → rate_limit window_ms limit r.key r.time bs ≡ answer
        → passed key (r ∷ rs) bs
          ≡ (if counts key r answer.0 then suc (passed key rs answer.1) else passed key rs answer.1)
    unfolding passed
    step r rs bs answer h =
        ap
          (λ (a : Result (Unit {0}) × Buckets).
            if counts key r a.0 then suc (passed key rs a.1) else passed key rs a.1)
          h

    step_other :
        (r : Arrival) (rs : List Arrival) (bs : Buckets)
        → has_text key r ≡ false
        → passed key (r ∷ rs) bs ≡ passed key rs (rate_limit window_ms limit r.key r.time bs).1
    unfolding passed
    step_other r rs bs h = rw h refl

    -- A bucket of the key, whichever request looks it up.
    found_own :
        (r : Arrival) (bs : Buckets) (found : Option Bucket)
        → same_text r.key key ≡ true
        → bucket_at key bs ≡ found
        → bucket_at r.key bs ≡ found
    found_own r bs found own here = ap (λ k. bucket_at k bs) (same_text-eq r.key key own) ∙ here

    put_own :
        (r : Arrival) (bs : Buckets) (b : Bucket)
        → same_text r.key key ≡ true
        → bucket_at key (put_bucket r.key b bs) ≡ some b
    put_own r bs b own =
        ap (λ k. bucket_at k (put_bucket r.key b bs)) (sym (same_text-eq r.key key own))
        ∙ put-same r.key b bs

    refused :
        (r : Arrival) (rs : List Arrival) (bs : Buckets) (b : Bucket)
        → same_text r.key key ≡ true
        → bucket_at key bs ≡ some b
        → leb b.reset_at r.time ≡ false
        → leb limit b.count ≡ true
        → passed key (r ∷ rs) bs ≡ passed key rs bs
    refused r rs bs b own here live full =
        let answer =
          request-eq window_ms limit r.key r.time bs (some b) (found_own r bs (some b) own here) in
        step r rs bs _ answer ∙ rw live (rw full (rw own refl))

    admitted :
        (r : Arrival) (rs : List Arrival) (bs : Buckets) (b : Bucket)
        → same_text r.key key ≡ true
        → bucket_at key bs ≡ some b
        → leb b.reset_at r.time ≡ false
        → leb limit b.count ≡ false
        → passed key (r ∷ rs) bs
          ≡ suc (passed key rs (put_bucket r.key (record b { count = b.count + 1 }) bs))
    admitted r rs bs b own here live room =
        let answer =
          request-eq window_ms limit r.key r.time bs (some b) (found_own r bs (some b) own here) in
        step r rs bs _ answer ∙ rw live (rw room (rw own refl))

    opened :
        (r : Arrival) (rs : List Arrival) (bs : Buckets)
        → same_text r.key key ≡ true
        → rate_limit window_ms limit r.key r.time bs ≡ start_window window_ms limit r.key r.time bs
        → passed key (r ∷ rs) bs
          ≡ suc (
              passed key rs
                (put_bucket r.key (record { count = 1; reset_at = r.time + window_ms }) bs))
    opened r rs bs own answer = step r rs bs _ answer ∙ rw own refl

    count_own :
        (r : Arrival) (rs : List Arrival)
        → has_text key r ≡ true
        → count_where (has_text key) (r ∷ rs) ≡ suc (count_where (has_text key) rs)
    count_own r rs own = ground (arith, own)

    count_other :
        (r : Arrival) (rs : List Arrival)
        → has_text key r ≡ false
        → count_where (has_text key) (r ∷ rs) ≡ count_where (has_text key) rs
    count_other r rs other = ground (arith, other)

    -- While a bucket is live, it counts the requests up to the limit.
    live_window :
        (rs : List Arrival) (bs : Buckets) (b : Bucket)
        → bucket_at key bs ≡ some b
        → until ≤ b.reset_at
        → b.count ≤ limit
        → All Before rs
        → b.count + passed key rs bs ≡ at_most limit (b.count + count_where (has_text key) rs)
    unfolding passed
    live_window [] bs b here live room h = ground (arith, here)
    live_window (r ∷ rs) bs b here live room (early, h) = elim (Bool-cases (same_text r.key key)) [
      | inr other ↦
          let kept = request-other window_ms limit key r.key r.time bs other ∙ here in
          rw (step_other r rs bs other, count_other r rs other)
            (live_window rs _ b kept live room h)
      | inl own ↦
          let unexpired : leb b.reset_at r.time ≡ false = ground (arith, early, live) in
          elim (Bool-cases (leb limit b.count)) [
            | inl full ↦
                let rest = live_window rs bs b here live room h in
                rw (refused r rs bs b own here unexpired full, count_own r rs own)
                  (ground (arith, rest, full))
            | inr free ↦
                let rest =
                  live_window rs _ (record b { count = b.count + 1 }) (put_own r bs _ own) live
                    (ground (arith, free)) h in
                rw (admitted r rs bs b own here unexpired free, count_own r rs own)
                  (ground (arith, rest))
          ]
    ]

    Idle-opens :
        (since at : ℕ) (k : Text) (bs : Buckets) (found : Option Bucket)
        → bucket_at k bs ≡ found
        → Idle since found
        → since ≤ at
        → rate_limit window_ms limit k at bs ≡ start_window window_ms limit k at bs
    Idle-opens since at k bs none here idle late = request-eq window_ms limit k at bs none here
    Idle-opens since at k bs (some b) here idle late =
        let expired : leb b.reset_at at ≡ true = ground (arith, idle, late) in
        request-eq window_ms limit k at bs (some b) here ∙ rw expired refl

  module _ (key : Text) (since : ℕ) where
    abbrev pub Within : Arrival → Type 0
    Within r = (since ≤ r.time) × (r.time < since + window_ms)

    Idle-window :
        (rs : List Arrival) (bs : Buckets) (found : Option Bucket)
        → bucket_at key bs ≡ found
        → Idle since found
        → 1 ≤ limit
        → All Within rs
        → passed key rs bs ≡ at_most limit (count_where (has_text key) rs)
    unfolding passed
    Idle-window [] bs found here idle some_room h = ground (arith, some_room)
    Idle-window (r ∷ rs) bs found here idle some_room ((late, early), h) =
        let until : ℕ = since + window_ms in
        elim (Bool-cases (same_text r.key key)) [
          | inr other ↦
              let kept = request-other window_ms limit key r.key r.time bs other ∙ here in
              rw (step_other key until r rs bs other, count_other key until r rs other)
                (Idle-window rs _ found kept idle some_room h)
          | inl own ↦
              let first = opened key until r rs bs own (
                Idle-opens key until since r.time r.key bs found
                  (found_own key until r bs found own here) idle late) in
              let opening : Bucket = record { count = 1; reset_at = r.time + window_ms } in
              let rest =
                live_window key until rs (put_bucket r.key opening bs) opening
                  (put_own key until r bs opening own) (omega (arith, late)) some_room
                  (All-mono Within (Before key until) rs (λ x w. w.1) h) in
              rw (first, count_own key until r rs own) (ground (arith, rest))
        ]

    -- Of the requests that arrive within one window, for a key with no open window at its start and
    -- a limit of at least one, exactly those up to the limit pass, whatever the requests of other
    -- keys.
    pub rate_limit_window :
        (rs : List Arrival) (bs : Buckets)
        → Idle since (bucket_at key bs)
        → 1 ≤ limit
        → All Within rs
        → passed key rs bs ≡ at_most limit (count_where (has_text key) rs)
    rate_limit_window rs bs idle some_room h =
        Idle-window rs bs (bucket_at key bs) refl idle some_room h
