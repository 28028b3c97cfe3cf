-- ===== src/Escalation/Lease.antt =====
-- The lease of a run: `claimLease`, `renewLease` and `releaseLease` of src/jobs/escalation.job.ts, over
-- src/db/advisoryLock.ts. Whether `pg_try_advisory_xact_lock` grants the lock is an argument.
use incident_api.Base.{
  ℕ, ◌+◌, ◌≤◌, ◌<◌, ◌≡◌, ◌≢◌, refl, ap, ◌∙◌, Bool, true, false, Option, none, some, leb,
  same_option, if◌then◌else◌, arith,
}
use incident_api.Model.Rows.{JobLease}
use incident_api.Model.World.{World}
use incident_api.Model.Exec.{ok, Exec, new_id, ◌>>=◌, pure, transaction}

-- `ESCALATION_LEASE_MS`, which the environment sets.
module _ (lease_ms : ℕ) where
  abbrev pub is_free : JobLease → (now : ℕ) → Bool
  is_free lease now = elim lease.held_until [ none ↦ true | some t ↦ leb t now ]

  abbrev pub set_lease : JobLease → World → World
  set_lease lease w = record w { db = record (w.db) { lease = lease } }

  abbrev pub held : (run_id now : ℕ) → JobLease
  held run_id now = record { owner_run_id = some run_id; held_until = some (now + lease_ms) }

  -- The `UPDATE` inside the claim: whether it wrote the row.
  unfoldable pub try_claim : (locked : Bool) → (run_id : ℕ) → Exec Bool
  try_claim locked run_id w =
      if locked
      then if is_free w.db.lease w.clock
        then (ok true, set_lease (held run_id w.clock) w)
        else (ok false, w)
      else (ok false, w)

  unfoldable pub claim_lease : (locked : Bool) → Exec (Option ℕ)
  unfolding new_id try_claim
  claim_lease locked = do
    run_id ← new_id
    claimed ← transaction (try_claim locked run_id)
    pure (if claimed then some run_id else none)

  abbrev pub owns : (run_id : ℕ) → World → Bool
  owns run_id w = same_option w.db.lease.owner_run_id (some run_id)

  unfoldable pub renew_lease : (run_id : ℕ) → Exec (Unit {0})
  renew_lease run_id w =
      if owns run_id w then (ok tt, set_lease (held run_id w.clock) w) else (ok tt, w)

  unfoldable pub release_lease : (run_id : ℕ) → Exec (Unit {0})
  release_lease run_id w =
      if owns run_id w
      then (ok tt, set_lease (record { owner_run_id = none; held_until = none }) w)
      else (ok tt, w)

  -- A run that is granted the lease holds it for its length, and the lease was free before.
  pub claim_granted :
      (locked : Bool) (w : World) (run_id : ℕ) (w' : World)
      → claim_lease locked w ≡ (ok (some run_id), w')
      → (is_free w.db.lease w.clock ≡ true)
        × (w'.db.lease ≡ held run_id w.clock)
        × (w'.clock ≡ w.clock)
  unfolding claim_lease
  claim_granted locked w run_id w' h = ground arith

  -- While a lease has time left no run is granted one, and the database stays as it was.
  pub claim_excluded :
      (locked : Bool) (w : World) (until : ℕ)
      → w.db.lease.held_until ≡ some until
      → w.clock < until
      → ((claim_lease locked w).0 ≡ ok none) × ((claim_lease locked w).1.db ≡ w.db)
  unfolding claim_lease
  claim_excluded locked w until h k = ground arith

  -- What the other runs, and the clock, may do while `holder` runs.
  pub data Other (holder : ℕ) : World → World → Type 0 where
    claims : (locked : Bool) (w : World) → Other holder w (claim_lease locked w).1
    renews : (r : ℕ) (w : World) → r ≢ holder → Other holder w (renew_lease r w).1
    releases : (r : ℕ) (w : World) → r ≢ holder → Other holder w (release_lease r w).1
    waits : (n : ℕ) (w : World) → Other holder w (record w { clock = w.clock + n })

  pub data Others (holder : ℕ) (w : World) : World → Type 0 where
    here : Others holder w w
    next : {v u : World} → Others holder w v → Other holder v u → Others holder w u

  Other-clock : {holder : ℕ} {v u : World} → Other holder v u → v.clock ≤ u.clock
  unfolding claim_lease renew_lease release_lease
  Other-clock (claims locked w) = ground arith
  Other-clock (renews r w n) = ground arith
  Other-clock (releases r w n) = ground arith
  Other-clock (waits n w) = omega arith

  Other-lease :
      {holder : ℕ} {v u : World} (until : ℕ)
      → Other holder v u
      → v.db.lease.owner_run_id ≡ some holder
      → v.db.lease.held_until ≡ some until
      → v.clock < until
      → u.db.lease ≡ v.db.lease
  unfolding claim_lease renew_lease release_lease
  Other-lease until (claims locked w) o h k = ground arith
  Other-lease until (renews r w n) o h k = ground arith
  Other-lease until (releases r w n) o h k = ground arith
  Other-lease until (waits n w) o h k = refl

  -- While a lease has time left it stays with its holder, whatever claims, renewals and releases the
  -- other runs make.
  pub lease_exclusive :
      {holder : ℕ} {w u : World} (until : ℕ)
      → Others holder w u
      → w.db.lease ≡ record { owner_run_id = some holder; held_until = some until }
      → u.clock < until
      → u.db.lease ≡ record { owner_run_id = some holder; held_until = some until }
  lease_exclusive until here o k = o
  lease_exclusive {holder} until (next {v} r s) o k =
      let later = Other-clock s in
      let before = lease_exclusive until r o (omega (arith, later)) in
      Other-lease until s (ap (λ (l : JobLease). l.owner_run_id) before)
        (ap (λ (l : JobLease). l.held_until) before) (omega (arith, later))
      ∙ before
