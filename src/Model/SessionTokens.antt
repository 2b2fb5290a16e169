-- ===== src/Model/SessionTokens.antt =====
-- internal/model/session_tokens.go over the tables: a hash is given to one token only, the user of a
-- token exists, and a token expires after it was created. A hash always has its 32 bytes.
pub mod Laws
use platform_orchestrator_ia.Prelude.{
  ℕ, String, ◌=~◌, ◌==◌, ltb, Uuid, Bool, true, false, not, ◌&&◌, Option, none, some, List, [], ◌∷◌,
  ◌++◌, length, any, select, first, if◌then◌else◌,
}
use platform_orchestrator_ia.Prelude.Result.{Result, ok, err}
use platform_orchestrator_ia.Model.{Time, Bytes, SessionToken, User, Db}
use platform_orchestrator_ia.Model.Store.{DbError, Done, done}

abbrev pub has_hash : Bytes → SessionToken → Bool
has_hash hash t = t.sha256_hash =~ hash

-- `CreateSessionToken`.
unfoldable pub create_session_token : SessionToken → Db → Result DbError (SessionToken × Db)
create_session_token t db =
    if ltb t.created_at t.expires_at
      && not (any (has_hash t.sha256_hash) db.session_tokens)
      && any (λ (u : User). u.id == t.user_id) db.users
    then ok (t, record db { session_tokens = db.session_tokens ++ (t ∷ []) })
    else err DbError.failed

-- `GetSessionTokenByHash`, which does not read the provider.
unfoldable pub get_session_token_by_hash : Bytes → Db → Result DbError SessionToken
get_session_token_by_hash hash db = elim (first (has_hash hash) db.session_tokens) [
  | none ↦ err DbError.not_found
  | some t ↦ ok (record t { provider = "" })
]

-- `DeleteSessionTokenByHash`.
unfoldable pub delete_session_token_by_hash : Bytes → Db → Result DbError (Done × Db)
delete_session_token_by_hash hash db =
    if any (has_hash hash) db.session_tokens
    then ok (
      done,
      record db {
        session_tokens = select (λ (t : SessionToken). not (has_hash hash t)) db.session_tokens;
      },
    )
    else err DbError.not_found

-- `ListSessionTokenByUserId`, where the tables hold the rows in the order of their creation.
unfoldable pub list_session_token_by_user_id : Uuid → Time → Db → Result DbError (List SessionToken)
list_session_token_by_user_id user expires_after db = ok (
    select (λ (t : SessionToken). t.user_id == user && ltb expires_after t.expires_at)
      db.session_tokens)

-- `DeleteSessionTokensByUserId`, with the number of rows.
unfoldable pub delete_session_tokens_by_user_id : Uuid → Db → Result DbError (ℕ × Db)
delete_session_tokens_by_user_id user db = ok (
  length (select (λ (t : SessionToken). t.user_id == user) db.session_tokens),
  record db {
    session_tokens = select (λ (t : SessionToken). not (t.user_id == user)) db.session_tokens;
  },
)

-- `DeleteExpiredSessionTokens`, with the number of rows.
unfoldable pub delete_expired_session_tokens : Time → Db → Result DbError (ℕ × Db)
delete_expired_session_tokens now db = ok (
  length (select (λ (t : SessionToken). ltb t.expires_at now) db.session_tokens),
  record db {
    session_tokens = select (λ (t : SessionToken). not (ltb t.expires_at now)) db.session_tokens;
  },
)
