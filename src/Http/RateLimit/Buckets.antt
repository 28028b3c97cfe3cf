-- ===== src/Http/RateLimit/Buckets.antt =====
-- What a request does to the bucket of a key.
use incident_api.Base.{
  ℕ, ◌≡◌, refl, ap, ◌∙◌, inl, inr, true, false, Option, none, some, [], ◌∷◌, leb, if◌then◌else◌,
  Bool-cases, arith, ==_refl,
}
use incident_api.Model.Text.{Text, same_text}
use incident_api.Http.RateLimit.{Bucket, Buckets, bucket_at, put_bucket, with_existing, rate_limit}

pub same_text_refl : (s : Text) → same_text s s ≡ true
same_text_refl [] = refl
same_text_refl (c ∷ s) = rw (==_refl c) (same_text_refl s)

pub same_text-eq : (s t : Text) → same_text s t ≡ true → s ≡ t
same_text-eq [] [] h = refl
same_text-eq [] (d ∷ t) h = ground (arith, h)
same_text-eq (c ∷ s) [] h = ground (arith, h)
same_text-eq (c ∷ s) (d ∷ t) h =
    let head : c ≡ d = ground (arith, h) in
    let rest : same_text s t ≡ true = ground (arith, h) in
    let tail = same_text-eq s t rest in λ i. head i ∷ tail i

pub put-same :
    (key : Text) (b : Bucket) (bs : Buckets) → bucket_at key (put_bucket key b bs) ≡ some b
put-same key b [] = rw (same_text_refl key) refl
put-same key b ((k, c) ∷ rest) = elim (Bool-cases (same_text k key)) [
  | inl e ↦ rw e (rw e refl)
  | inr e ↦ rw e (rw e (put-same key b rest))
]

pub put-other :
    (key other : Text) (b : Bucket) (bs : Buckets)
    → same_text other key ≡ false
    → bucket_at key (put_bucket other b bs) ≡ bucket_at key bs
put-other key other b [] h = rw h refl
put-other key other b ((k, c) ∷ rest) h = elim (Bool-cases (same_text k other)) [
  | inl e ↦
      let apart : same_text k key ≡ false =
        ap (λ (t : Text). same_text t key) (same_text-eq k other e) ∙ h in
      rw e (rw apart refl)
  | inr e ↦ rw e (
      ap (λ (o : Option Bucket). if same_text k key then some c else o)
        (put-other key other b rest h))
]

module _ (window_ms limit : ℕ) where
  -- Requests of other keys leave a bucket alone.
  pub request-other :
      (key other : Text) (at : ℕ) (bs : Buckets)
      → same_text other key ≡ false
      → bucket_at key (rate_limit window_ms limit other at bs).1 ≡ bucket_at key bs
  unfolding rate_limit
  request-other key other at bs h = by_bucket (bucket_at other bs)
    where
      by_bucket :
          (found : Option Bucket)
          → bucket_at key (with_existing window_ms limit other at bs found).1 ≡ bucket_at key bs
      by_bucket none = put-other key other _ bs h
      by_bucket (some b) = elim (Bool-cases (leb b.reset_at at)) [
        | inl e ↦ rw e (put-other key other _ bs h)
        | inr e ↦ elim (Bool-cases (leb limit b.count)) [
          | inl full ↦ rw e (rw full refl)
          | inr room ↦ rw e (rw room (put-other key other _ bs h))
        ]
      ]

  pub request-eq :
      (key : Text) (at : ℕ) (bs : Buckets) (found : Option Bucket)
      → bucket_at key bs ≡ found
      → rate_limit window_ms limit key at bs ≡ with_existing window_ms limit key at bs found
  unfolding rate_limit
  request-eq key at bs found h = ap (with_existing window_ms limit key at bs) h
