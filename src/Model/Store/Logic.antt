-- ===== src/Model/Store/Logic.antt =====
-- Rules for what a handler does to the tables: from what holds before it, what holds after it, by
-- its result.
use platform_orchestrator_ia.Prelude.{◌≡◌, inl, inr, refl, Bool, true, false, Bool-cases}
use platform_orchestrator_ia.Prelude.Result.{Result, ok, err, Result-cases}
use platform_orchestrator_ia.Model.{Db}
use platform_orchestrator_ia.Model.Store.{
  DbError, failed, Session, next_fails, after_call, commit, transaction, Failure, internal, Handler,
  ◌>>=◌, return, fail, require, call, query,
}

-- What holds of a result and the tables: `Q` where the handler goes on, `R` where it stops.
abbrev pub After {ℓ} :
    {A : Type ℓ} → (A → Db → Type 0) → (Failure → Db → Type 0) → Result Failure A × Session → Type 0
After Q R (ok a, s) = Q a s.tables
After Q R (err e, s) = R e s.tables

abbrev pub Triple {ℓ} :
    {A : Type ℓ} → (Db → Type 0) → Handler A → (A → Db → Type 0) → (Failure → Db → Type 0) → Type 0
Triple P h Q R = (s : Session) → P s.tables → After Q R (h s)

module _ (P : Db → Type 0) (R : Failure → Db → Type 0) where
  pub Triple->>= {ℓ κ} :
      {A : Type ℓ} {B : Type κ} (h : Handler A) (f : A → Handler B) (M : A → Db → Type 0)
      (Q : B → Db → Type 0)
      → Triple P h M R
      → ((a : A) → Triple (M a) (f a) Q R)
      → Triple P (h >>= f) Q R
  Triple->>= h f M Q first then s p = go (h s) (first s p)
    where
      go : (r : Result Failure _ × Session) → After M R r → After Q R (((λ _. r) >>= f) s)
      go (ok a, s') m = then a s' m
      go (err e, s') m = m

  pub Triple-fail {ℓ} :
      {A : Type ℓ} (e : Failure) (Q : A → Db → Type 0)
      → ((db : Db) → P db → R e db)
      → Triple P (fail e) Q R
  Triple-fail e Q h s p = h s.tables p

  pub Triple-return {ℓ} :
      {A : Type ℓ} (a : A) (Q : A → Db → Type 0)
      → ((db : Db) → P db → Q a db)
      → Triple P (return a) Q R
  Triple-return a Q h s p = h s.tables p

  pub Triple-require :
      (test : Bool) (e : Failure)
      → ((db : Db) → P db → R e db)
      → Triple P (require test e) (λ _ db. (test ≡ true) × P db) R
  Triple-require true e h s p = (refl, p)
  Triple-require false e h s p = h s.tables p

  pub Triple-call {ℓ} :
      {A : Type ℓ} (f : Db → Result DbError (A × Db)) (on_error : DbError → Failure)
      (Q : A → Db → Type 0)
      → ((db : Db) (e : DbError) → P db → R (on_error e) db)
      → ((db db' : Db) (a : A) → P db → f db ≡ ok (a, db') → Q a db')
      → Triple P (call f on_error) Q R
  Triple-call f on_error Q stops goes s p = elim (Bool-cases (next_fails s)) [
    | inl fails ↦ rw fails (stops s.tables failed p)
    | inr fine ↦ elim (Result-cases (f s.tables)) [
      | inl ((a, db'), e) ↦ rw (fine, e) (goes s.tables db' a p e)
      | inr (e', e) ↦ rw (fine, e) (stops s.tables e' p)
    ]
  ]

  pub Triple-query :
      {A : Type 0} (f : Db → Result DbError A) (on_error : DbError → Failure)
      → ((db : Db) (e : DbError) → P db → R (on_error e) db)
      → Triple P (query f on_error) (λ a db. (f db ≡ ok a) × P db) R
  Triple-query f on_error stops s p = elim (Bool-cases (next_fails s)) [
    | inl fails ↦ rw fails (stops s.tables failed p)
    | inr fine ↦ elim (Result-cases (f s.tables)) [
      | inl (a, e) ↦ rw (fine, e) (e, p)
      | inr (e', e) ↦ rw (fine, e) (stops s.tables e' p)
    ]
  ]

  -- A transaction that stops, or does not commit, leaves the tables as they were before it.
  pub Triple-transaction {ℓ} :
      {A : Type ℓ} (body : Handler A) (Q : A → Db → Type 0) (R' : Failure → Db → Type 0)
      → ((db : Db) (e : Failure) → P db → R e db)
      → Triple P body Q R'
      → Triple P (transaction body) Q R
  Triple-transaction body Q R' stops inside s p = elim (Bool-cases (next_fails s)) [
    | inl fails ↦ rw fails (stops s.tables internal p)
    | inr fine ↦ rw fine (closed (body (after_call s s.tables)) (inside (after_call s s.tables) p))
  ]
    where
      closed : (r : Result Failure _ × Session) → After Q R' r → After Q R (commit s r)
      closed (err e, s') h = stops s.tables e p
      closed (ok a, s') h = elim (Bool-cases (next_fails s')) [
        | inl fails ↦ rw fails (stops s.tables internal p)
        | inr fine ↦ rw fine h
      ]

  pub Triple-weaken {ℓ} :
      {A : Type ℓ} (h : Handler A) (Q Q' : A → Db → Type 0)
      → ((a : A) (db : Db) → Q a db → Q' a db)
      → Triple P h Q R
      → Triple P h Q' R
  Triple-weaken h Q Q' weaker proved s p = go (h s) (proved s p)
    where
      go : (r : Result Failure _ × Session) → After Q R r → After Q' R r
      go (ok a, s') q = weaker a s'.tables q
      go (err e, s') q = q
