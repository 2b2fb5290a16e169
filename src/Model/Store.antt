-- ===== src/Model/Store.antt =====
-- Calls of the store by a handler, internal/model/databaser.go and errors.go: each call may fail, and
-- a transaction that does not commit leaves the tables as they were.
pub mod Inversion
pub mod Logic
use platform_orchestrator_ia.Prelude.{
  String, ◌≡◌, inl, inr, refl, Bool, true, false, List, [], ◌∷◌, arith, Bool-cases, if◌then◌else◌,
}
use platform_orchestrator_ia.Prelude.Result.{Result, ok, err, Result-cases}
use platform_orchestrator_ia.Model.{Db}

-- `ErrNotFound`, `ErrConflict`, and any other error.
pub data DbError : Type 0 where
  not_found : DbError
  conflict : DbError
  failed : DbError

-- The result of a call that returns only an error.
pub data Done : Type 0 where
  done : Done

-- The tables as the handler sees them, and which of the next calls fail: none after the list ends.
pub record Session : Type 0 where
  pub tables : Db
  pub faults : List Bool

abbrev pub next_fails : Session → Bool
next_fails s = elim s.faults [ [] ↦ false | fault ∷ faults ↦ fault ]

abbrev pub after_call : Session → Db → Session
after_call s tables = record {
  tables = tables;
  faults = elim s.faults [ [] ↦ [] | fault ∷ faults ↦ faults ];
}

-- The responses other than a handler's own; `internal` stands for a returned error.
pub data Failure : Type 0 where
  unauthorized : Failure
  forbidden : Failure
  bad_request : Failure
  missing : Failure
  conflicting : Failure
  internal : Failure

abbrev pub Handler {ℓ} : Type ℓ → Type ℓ
Handler A = Session → Result Failure A × Session

infixl 5 ◌>>=◌
abbrev pub ◌>>=◌ {ℓ κ} : {A : Type ℓ} {B : Type κ} → Handler A → (A → Handler B) → Handler B
(h >>= f) s = let (r, s') = h s in elim r [ ok a ↦ f a s' | err e ↦ (err e, s') ]

abbrev pub return {ℓ} : {A : Type ℓ} → A → Handler A
return a s = (ok a, s)

abbrev pub fail {ℓ} : {A : Type ℓ} → Failure → Handler A
fail e s = (err e, s)

-- A test of the handler: it goes on only where that holds.
abbrev pub require : Bool → Failure → Handler Done
require true e = return done
require false e = fail e

-- A call that changes the tables, with what the handler makes of its error.
abbrev pub call {ℓ} :
    {A : Type ℓ} → (Db → Result DbError (A × Db)) → (DbError → Failure) → Handler A
call f on_error s =
    if next_fails s then (err (on_error failed), after_call s s.tables) else (elim (f s.tables) [
      | ok (a, tables) ↦ (ok a, after_call s tables)
      | err e ↦ (err (on_error e), after_call s s.tables)
    ])

-- A call that only reads.
abbrev pub query {ℓ} : {A : Type ℓ} → (Db → Result DbError A) → (DbError → Failure) → Handler A
query f on_error = call (λ db. elim (f db) [ ok a ↦ ok (a, db) | err e ↦ err e ]) on_error

-- `BeginTx`, the calls, and `Commit`; every other way out rolls back.
abbrev pub rolled_back {ℓ} : {A : Type ℓ} → Session → Failure → Session → Result Failure A × Session
rolled_back s e s' = (err e, record { tables = s.tables; faults = s'.faults })

abbrev pub commit {ℓ} :
    {A : Type ℓ} → Session → Result Failure A × Session → Result Failure A × Session
commit s (err e, s') = rolled_back s e s'
commit s (ok a, s') =
    if next_fails s'
    then rolled_back s internal (after_call s' s'.tables)
    else (ok a, after_call s' s'.tables)

abbrev pub transaction {ℓ} : {A : Type ℓ} → Handler A → Handler A
transaction body s =
    if next_fails s
    then (err internal, after_call s s.tables)
    else commit s (body (after_call s s.tables))
