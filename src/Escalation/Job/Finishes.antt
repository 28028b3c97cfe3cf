-- ===== src/Escalation/Job/Finishes.antt =====
-- How far each round of the scan in `runEscalationJob` (src/jobs/escalation.job.ts) moves its cursor.
use incident_api.Base.{
  ℕ, zero, suc, ◌+◌, ◌<◌, ◌≡◌, refl, ap, ◌∙◌, inl, inr, Bool, true, false, ◌&&◌, ◌||◌, Option, none,
  some, List, [], ◌∷◌, arith, ◌==◌, ltb, length, All, Any, All-take, All-member, All-filter,
  All-sort, count_where, count_where_lt, count-le-length, Bool-cases,
}
use incident_api.Model.Enums.{high, critical}
use incident_api.Model.Rows.{Incident, completed}
use incident_api.Model.World.{World}
use incident_api.Model.Exec.{ok}
use incident_api.Escalation.Tiers.{Tier, active_tiers}
use incident_api.Escalation.Lease.{renew_lease, owns, claim_lease, is_free, held, set_lease}
use incident_api.Escalation.Batch.{Due, Recipients, Counts}
use incident_api.Escalation.Batch.Effect.{Raised, AllRaised, AllRaised-refl, Checked}
use incident_api.Escalation.Batch.Effect.Steps.{escalate_batch_effect}
use incident_api.Escalation.Job.{
  Cursor, cursor_of, since_of, after_cursor, is_open_candidate, is_scanned, scan_before, next_batch,
  due_of, Totals, Scan, finished, run_batch, last_of, round, scan, RunResult, run_escalation_job,
  start_run, with_lease, end_run, no_totals, recipients_for,
}

-- How many rows are still to be scanned.
unfoldable pub remaining : Option Cursor → List Incident → ℕ
unfolding after_cursor
remaining c rows = count_where (is_scanned c) rows

later_trans :
    (a i b j c k : ℕ)
    → (ltb a b || (b == a && ltb i j)) ≡ true
    → (ltb b c || (c == b && ltb j k)) ≡ true
    → (ltb a c || (c == a && ltb i k)) ≡ true
later_trans a i b j c k h l = ground arith

and_last : (a e e' : Bool) → (a && e) ≡ true → (e ≡ true → e' ≡ true) → (a && e') ≡ true
and_last a e e' h f = ground arith

last_true : (a e : Bool) → (a && e) ≡ true → e ≡ true
last_true a e h = ground arith

past_last :
    (c : Option Cursor) (y x : Incident)
    → is_scanned c y ≡ true
    → is_scanned (some (cursor_of y)) x ≡ true
    → is_scanned c x ≡ true
unfolding after_cursor
past_last none y x h k =
    and_last (is_open_candidate x) (after_cursor (some (cursor_of y)) x) true k (λ _. refl)
past_last (some c) y x h k =
    and_last (is_open_candidate x) (after_cursor (some (cursor_of y)) x) (after_cursor (some c) x) k
      (λ t.
        later_trans c.since c.id (since_of y) y.id (since_of x) x.id
          (last_true (is_open_candidate y) (after_cursor (some c) y) h) t)

not_past : (y : Incident) → is_scanned (some (cursor_of y)) y ≡ false
unfolding after_cursor
not_past y = ground arith

All-last :
    (P : Incident → Type 0) (i : Incident) (batch : List Incident)
    → All P (i ∷ batch)
    → P (last_of i batch)
All-last P i [] h = h.0
All-last P i (j ∷ batch) h = All-last P j batch h.1

-- What a batch is made of.
batch_members :
    (batch_size : ℕ) (c : Option Cursor) (rows : List Incident)
    → All (λ y. Any (λ a. a ≡ y) rows × (is_scanned c y ≡ true)) (next_batch batch_size c rows)
unfolding next_batch
batch_members batch_size c rows =
    All-take _ batch_size _
      (All-sort scan_before _ _ (All-filter _ (is_scanned c) rows (All-member rows)))

remaining-less :
    (c : Option Cursor) (y : Incident) (rows : List Incident)
    → Any (λ a. a ≡ y) rows × (is_scanned c y ≡ true)
    → remaining (some (cursor_of y)) rows < remaining c rows
unfolding remaining
remaining-less c y rows (member, t) =
    count_where_lt (is_scanned c) (is_scanned (some (cursor_of y))) rows y
      (λ x k. past_last c y x t k) member t (not_past y)

is_scanned-Raised :
    (c : Option Cursor) (old new : Incident) → Raised old new → is_scanned c new ≡ is_scanned c old
unfolding after_cursor
is_scanned-Raised none old new r = ap (is_scanned none) r.same
is_scanned-Raised (some c) old new r = ap (is_scanned (some c)) r.same

remaining-Raised :
    (c : Option Cursor) (xs ys : List Incident) → AllRaised xs ys → remaining c ys ≡ remaining c xs
unfolding remaining
remaining-Raised c [] [] h = refl
remaining-Raised c [] (y ∷ ys) h = absurd h
remaining-Raised c (x ∷ xs) [] h = absurd h
remaining-Raised c (x ∷ xs) (y ∷ ys) (r, h) =
    rw (is_scanned-Raised c x y r) (omega (arith, remaining-Raised c xs ys h))

run_batch_effect :
    (recipients : Recipients) (at : ℕ) (due : List Due) (w : World)
    → Checked w.db
    → (n : Counts) × (v : World) × (run_batch recipients at due w ≡ (ok n, v))
      × AllRaised w.db.incidents v.db.incidents
      × Checked v.db
run_batch_effect recipients at [] w checked =
    (record { escalated = 0; notified = 0 }, w, refl, AllRaised-refl w.db.incidents, checked)
run_batch_effect recipients at (d ∷ ds) w checked =
    let (n, v, e, effect) = escalate_batch_effect recipients at (d ∷ ds) w checked in
    (n, v, rw e refl, effect.rows, effect.checked)

-- The loop has come to its end.
abbrev pub Ends : Scan × World → Type 0
Ends r = (t : Totals) × (w' : World) × (r ≡ (finished t, w'))

renew-Checked :
    (lease_ms run_id : ℕ) (w : World)
    → Checked w.db
    → Checked (renew_lease lease_ms run_id w).1.db
      × ((renew_lease lease_ms run_id w).1.db.incidents ≡ w.db.incidents)
unfolding renew_lease
renew-Checked lease_ms run_id w checked = elim (Bool-cases (owns lease_ms run_id w)) [
  | inl e ↦ rw e (record { constraints = checked.constraints; keys = checked.keys }, refl)
  | inr e ↦ rw e (checked, refl)
]

module _ (batch_size lease_ms run_id : ℕ) (tiers : List Tier) (recipients : Recipients) where
  round-Ends :
      (rest : Option Cursor → Totals → World → Scan × World) (c : Option Cursor)
      (batch : List Incident) (t : Totals) (w : World)
      → Checked w.db
      → All (λ y. Any (λ a. a ≡ y) w.db.incidents × (is_scanned c y ≡ true)) batch
      → ((c' : Option Cursor) (t' : Totals) (v : World)
          → Checked v.db
          → remaining c' v.db.incidents < remaining c w.db.incidents
          → Ends (rest c' t' v))
      → Ends (round batch_size lease_ms run_id tiers recipients rest batch t w)
  round-Ends rest c [] t w checked members ends = (t, w, refl)
  round-Ends rest c (i ∷ batch) t w checked members ends =
      let (n, v, e, raised, checked') =
        run_batch_effect recipients w.clock (due_of tiers w.clock (i ∷ batch)) w checked in
      let y = last_of i batch in
      let less = remaining-less c y w.db.incidents (All-last _ i batch members) in
      let kept = remaining-Raised (some (cursor_of y)) w.db.incidents v.db.incidents raised in
      let (renewed, same) = renew-Checked lease_ms run_id v checked' in
      let sum : Totals = record {
        scanned = t.scanned + length (i ∷ batch);
        escalated = t.escalated + n.escalated;
        notified = t.notified + n.notified;
      } in
      elim (Bool-cases (ltb (length (i ∷ batch)) batch_size)) [
        | inl short ↦ (sum, v, rw (e, short) refl)
        | inr full ↦
            let (t', u, f) =
              ends (some (cursor_of y)) sum (renew_lease lease_ms run_id v).1 renewed
                (rw same (rw kept less)) in
            (t', u, rw (e, full) f)
      ]

  -- The scan comes to its end when it has more fuel than there are rows to scan.
  pub scan_finishes :
      (fuel : ℕ) (c : Option Cursor) (t : Totals) (w : World)
      → Checked w.db
      → remaining c w.db.incidents < fuel
      → Ends (scan batch_size lease_ms run_id tiers recipients fuel c t w)
  unfolding scan
  scan_finishes zero c t w checked few = absurd (omega arith)
  scan_finishes (suc n) c t w checked few =
      round-Ends (scan batch_size lease_ms run_id tiers recipients n) c
        (next_batch batch_size c w.db.incidents) t w checked
        (batch_members batch_size c w.db.incidents)
        (λ c' t' v checked' less. scan_finishes n c' t' v checked' (omega (arith, less, few)))

-- What a claim leaves as it was.
claim-Checked :
    (lease_ms : ℕ) (locked : Bool) (w : World)
    → Checked w.db
    → (o : Option ℕ) × (v : World) × (claim_lease lease_ms locked w ≡ (ok o, v)) × Checked v.db
unfolding claim_lease
claim-Checked lease_ms false w checked = (
  none,
  record w { drawn = w.drawn + 1 },
  refl,
  record { constraints = checked.constraints; keys = checked.keys },
)
claim-Checked lease_ms true w checked =
    let v : World = record w { drawn = w.drawn + 1 } in
    elim (Bool-cases (is_free lease_ms w.db.lease w.clock)) [
      | inl e ↦ (
        some (w.supply w.drawn),
        set_lease lease_ms (held lease_ms (w.supply w.drawn) w.clock) v,
        rw e refl,
        record { constraints = checked.constraints; keys = checked.keys },
      )
      | inr e ↦
          (none, v, rw e refl, record { constraints = checked.constraints; keys = checked.keys })
    ]

remaining-le : (rows : List Incident) → remaining none rows < length rows + 1
unfolding remaining
remaining-le rows = omega (arith, count-le-length (is_scanned none) rows)

-- What a run returns once its lease is decided.
leased_returns :
    (batch_size lease_ms job_id : ℕ) (o : Option ℕ) (w : World)
    → Checked w.db
    → (r : RunResult) × (w' : World) × (with_lease batch_size lease_ms job_id (ok o, w)
        ≡ (some (ok r), w'))
leased_returns batch_size lease_ms job_id none w checked = (_, _, refl)
leased_returns batch_size lease_ms job_id (some run_id) w checked =
    let (t, u, e) =
      scan_finishes batch_size lease_ms run_id (active_tiers w.db.tiers)
        (record {
          of_high = recipients_for high w.db.users;
          of_critical = recipients_for critical w.db.users;
        })
        (length w.db.incidents + 1) none no_totals w checked (remaining-le w.db.incidents) in
    (record { outcome = completed; totals = t }, _, ap (end_run lease_ms job_id run_id) e)

-- Over tables that satisfy the constraints a run of the escalation job returns a result and throws
-- nothing: a scan with one round for each incident and one more never runs out of rounds.
pub run_escalation_job_returns :
    (batch_size lease_ms : ℕ) (locked : Bool) (w : World)
    → Checked w.db
    → (r : RunResult) × (w' : World) × (run_escalation_job batch_size lease_ms locked w
        ≡ (some (ok r), w'))
unfolding run_escalation_job
run_escalation_job_returns batch_size lease_ms locked w checked =
    let (o, v, e, checked') =
      claim-Checked lease_ms locked (start_run w).1
        (record { constraints = checked.constraints; keys = checked.keys }) in
    let (r, u, f) = leased_returns batch_size lease_ms (w.supply w.drawn) o v checked' in
    (r, u, ap (with_lease batch_size lease_ms (w.supply w.drawn)) e ∙ f)
