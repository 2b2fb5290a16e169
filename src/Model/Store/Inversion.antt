-- ===== src/Model/Store/Inversion.antt =====
-- What a handler's success says of its steps: each step succeeded, on the tables that the step before
-- it left.
use platform_orchestrator_ia.Prelude.{◌≡◌, inl, inr, refl, Bool, true, false, arith, Bool-cases}
use platform_orchestrator_ia.Prelude.Result.{Result, ok, err, Result-cases}
use platform_orchestrator_ia.Model.{Db}
use platform_orchestrator_ia.Model.Store.{
  DbError, Done, Session, next_fails, after_call, commit, transaction, Failure, Handler, ◌>>=◌,
  require, call, query,
}

module _ {A : Type 0} where
  pub bind_ok :
      {B : Type 0} (h : Handler A) (f : A → Handler B) (s s' : Session) (b : B)
      → (h >>= f) s ≡ (ok b, s')
      → (a : A) × (t : Session) × (h s ≡ (ok a, t)) × (f a t ≡ (ok b, s'))
  bind_ok h f s s' b e = go (h s) refl e
    where
      go :
          (r : Result Failure A × Session)
          → h s ≡ r
          → ((λ _. r) >>= f) s ≡ (ok b, s')
          → (a : A) × (t : Session) × (h s ≡ (ok a, t)) × (f a t ≡ (ok b, s'))
      go (ok a, t) q e = (a, t, q, e)
      go (err x, t) q e = absurd (ground arith)

  pub call_ok :
      (f : Db → Result DbError (A × Db)) (on_error : DbError → Failure) (s s' : Session) (a : A)
      → call f on_error s ≡ (ok a, s')
      → f s.tables ≡ ok (a, s'.tables)
  call_ok f on_error s s' a e = elim (Bool-cases (next_fails s)) [
    | inl fails ↦ absurd (ground arith)
    | inr fine ↦ elim (Result-cases (f s.tables)) [
      | inl ((b, db), q) ↦ ground arith
      | inr (x, q) ↦ absurd (ground arith)
    ]
  ]

  pub query_ok :
      (f : Db → Result DbError A) (on_error : DbError → Failure) (s s' : Session) (a : A)
      → query f on_error s ≡ (ok a, s')
      → (f s.tables ≡ ok a) × (s'.tables ≡ s.tables)
  query_ok f on_error s s' a e = elim (Bool-cases (next_fails s)) [
    | inl fails ↦ absurd (ground arith)
    | inr fine ↦ elim (Result-cases (f s.tables)) [
      | inl (b, q) ↦ (ground arith, ground arith)
      | inr (x, q) ↦ absurd (ground arith)
    ]
  ]

  pub transaction_ok :
      (body : Handler A) (s s' : Session) (a : A)
      → transaction body s ≡ (ok a, s')
      → (t : Session) × (body (after_call s s.tables) ≡ (ok a, t)) × (s'.tables ≡ t.tables)
  transaction_ok body s s' a e = elim (Bool-cases (next_fails s)) [
    | inl fails ↦ absurd (ground arith)
    | inr fine ↦ closed (body (after_call s s.tables)) refl (rw fine at e)
  ]
    where
      closed :
          (r : Result Failure A × Session)
          → body (after_call s s.tables) ≡ r
          → commit s r ≡ (ok a, s')
          → (t : Session) × (body (after_call s s.tables) ≡ (ok a, t)) × (s'.tables ≡ t.tables)
      closed (err x, t) q e = absurd (ground arith)
      closed (ok b, t) q e = elim (Bool-cases (next_fails t)) [
        | inl fails ↦ absurd (ground arith)
        | inr fine ↦ (t, ground arith, ground arith)
      ]

pub require_ok :
    (test : Bool) (e : Failure) (s s' : Session) (d : Done)
    → require test e s ≡ (ok d, s')
    → (test ≡ true) × (s' ≡ s)
require_ok true e s s' d h = (refl, ground arith)
require_ok false e s s' d h = absurd (ground arith)
