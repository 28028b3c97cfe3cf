-- ===== src/Model/Exec.antt =====
-- Handlers as functions of the world that return or throw. What was written before a throw stays
-- written, except in a transaction (src/db/transaction.ts), which puts the database back.
use incident_api.Base.{ℕ, ◌+◌, ◌≡◌, refl, Bool, true, false, Option, none, some, ◌⊎◌, inl, inr}
use native.Mathlib.Omega.{arith}
use incident_api.Model.Errors.{AppError, Thrown, app}
use incident_api.Model.World.{Db, World}

pub data Result {ℓ} (A : Type ℓ) : Type ℓ where
  ok : A → Result A
  err : Thrown → Result A

abbrev pub Exec : Type 0 → Type 0
Exec A = World → Result A × World

module _ {A : Type 0} where
  abbrev pub pure : A → Exec A
  pure a w = (ok a, w)

  abbrev pub fail : Thrown → Exec A
  fail e w = (err e, w)

  -- `throw new SomeError(…)`.
  abbrev pub throw : AppError → Exec A
  throw e w = (err (app e), w)

  -- A read.
  abbrev pub gets : (World → A) → Exec A
  gets f w = (ok (f w), w)

  abbrev pub lift : Result A → Exec A
  lift r w = (r, w)

  -- `COMMIT` and `ROLLBACK`: the sequence and the ids drawn are not given back.
  abbrev pub end_transaction : World → Result A × World → Result A × World
  end_transaction w (ok a, w') = (ok a, w')
  end_transaction w (err e, w') = (err e, record w' { db = w.db })

  abbrev pub transaction : Exec A → Exec A
  transaction m w = end_transaction w (m w)

module _ {A B : Type 0} where
  abbrev pub continue : (A → Exec B) → Result A × World → Result B × World
  continue f (ok a, w) = f a w
  continue f (err e, w) = (err e, w)

  infixl 5 ◌>>=◌ ◌>>◌
  abbrev pub ◌>>=◌ : Exec A → (A → Exec B) → Exec B
  ◌>>=◌ m f w = continue f (m w)

  abbrev pub ◌>>◌ : Exec A → Exec B → Exec B
  m >> n = m >>= λ _. n

abbrev pub modify_db : (Db → Db) → Exec (Unit {0})
modify_db f w = (ok tt, record w { db = f w.db })

-- `if (!test) throw …`.
abbrev pub require : Bool → AppError → Exec (Unit {0})
require true e w = (ok tt, w)
require false e w = (err (app e), w)

-- `if (!row) throw …`.
abbrev pub or_throw : {A : Type 0} → Option A → AppError → Exec A
or_throw none e w = (err (app e), w)
or_throw (some a) e w = (ok a, w)

-- `new Date()`.
abbrev pub now : Exec ℕ
now w = (ok w.clock, w)

-- `newId` of src/core/ids.ts.
unfoldable pub new_id : Exec ℕ
new_id w = (ok (w.supply w.drawn), record w { drawn = w.drawn + 1 })

pub Result-cases :
    {A : Type 0} (r : Result A) → ((a : A) × (r ≡ ok a)) ⊎ ((e : Thrown) × (r ≡ err e))
Result-cases (ok a) = inl (a, refl)
Result-cases (err e) = inr (e, refl)

module _ {A B : Type 0} where
  -- A bind that returns has a first part that returned.
  pub >>=-eq-ok :
      (m : Exec A) (f : A → Exec B) (w : World) (b : B) (w' : World)
      → (m >>= f) w ≡ (ok b, w')
      → (a : A) × (v : World) × (m w ≡ (ok a, v)) × (f a v ≡ (ok b, w'))
  >>=-eq-ok m f w b w' h = go (m w) refl h
    where
      go :
          (r : Result A × World)
          → m w ≡ r
          → continue f r ≡ (ok b, w')
          → (a : A) × (v : World) × (m w ≡ (ok a, v)) × (f a v ≡ (ok b, w'))
      go (ok a, v) e k = (a, v, e, k)
      go (err x, v) e k = cc

module _ {A : Type 0} where
  end_transaction_err :
      (w : World) (p : Result A × World) (e : Thrown)
      → p.0 ≡ err e
      → end_transaction w p ≡ (err e, record (p.1) { db = w.db })
  end_transaction_err w (ok a, v) e h = cc
  end_transaction_err w (err x, v) e h = ground arith

  -- A transaction that throws puts the database back.
  pub transaction_err :
      (m : Exec A) (w : World) (e : Thrown)
      → (m w).0 ≡ err e
      → transaction m w ≡ (err e, record ((m w).1) { db = w.db })
  transaction_err m w e h = end_transaction_err w (m w) e h
