-- ===== src/Api/Sessions.antt =====
-- The handlers of internal/api/session_tokens.go and internal/api/logout.go. The cookie and the
-- encoding of the answers are left out.
pub mod Revoking
use platform_orchestrator_ia.Prelude.{
  ◌+◌, ◌==◌, String, Uuid, Bool, Option, none, some, List, if◌then◌else◌,
}
use platform_orchestrator_ia.Prelude.Result.{Result, ok, err}
use platform_orchestrator_ia.Model.{Time, Bytes, SessionToken, Db}
use platform_orchestrator_ia.Model.Store.{
  DbError, Failure, Handler, Done, done, ◌>>=◌, return, fail, require, call, query, transaction,
}
use platform_orchestrator_ia.Model.SessionTokens.{
  get_session_token_by_hash, delete_session_token_by_hash, list_session_token_by_user_id,
}
use platform_orchestrator_ia.Api.Authenticate.Tokens.{Codec}
use platform_orchestrator_ia.Api.Guards.{check_user_id_self_authorization, Denial, Passed}
use platform_orchestrator_ia.Api.Roles.{Environment, missing_or_internal, always_internal}

-- Twenty-four hours.
abbrev pub session_token_expiry : Time
session_token_expiry = 86_400_000_000_000

-- The row of `NewSessionToken`, of the bytes that are drawn at random.
abbrev pub new_session_token : Codec → Bytes → Time → Uuid → String → SessionToken
new_session_token C raw now user provider = record {
  sha256_hash = C.sha256 raw;
  provider = provider;
  user_id = user;
  created_at = now;
  expires_at = now + session_token_expiry;
  client_ip = none;
  client_city = none;
  client_region = none;
}

-- A text that `DecodeString` reads to its end.
abbrev pub decoded : Codec → String → Option Bytes
decoded C text = let (raw, complete) = C.decode text in if complete then some raw else none

module _ (C : Codec) (E : Environment) where
  -- The guard of both handlers on sessions: only a person, and only their own.
  abbrev pub allow_self : Result Denial Passed → Handler Done
  allow_self (ok _) = return done
  allow_self (err denial) = fail Failure.forbidden

  abbrev pub guard_self : Option Uuid → Uuid → Handler Done
  guard_self none wanted = fail Failure.unauthorized
  guard_self (some user) wanted = allow_self (check_user_id_self_authorization user wanted)

  -- `ListUserSessionTokens`.
  unfoldable pub list_user_session_tokens : Uuid → Handler (List SessionToken)
  list_user_session_tokens user_id = do
    self ← guard_self E.user user_id
    query (list_session_token_by_user_id user_id E.now) always_internal

  -- The transaction of `RevokeUserSessionToken`.
  abbrev pub revoke : Uuid → Bytes → Handler Done
  revoke user_id raw = query (get_session_token_by_hash raw) missing_or_internal >>= (λ t.
      require (t.user_id == user_id) Failure.missing
      >>= (λ own. call (delete_session_token_by_hash raw) always_internal))

  abbrev pub revoke_decoded : Uuid → Option Bytes → Handler Done
  revoke_decoded user_id none = fail Failure.bad_request
  revoke_decoded user_id (some raw) = transaction (revoke user_id raw)

  -- `RevokeUserSessionToken`.
  unfoldable pub revoke_user_session_token : Uuid → String → Handler Done
  revoke_user_session_token user_id hash =
      guard_self E.user user_id >>= (λ self. revoke_decoded user_id (decoded C hash))

  -- A token that is not there is as good as deleted.
  abbrev pub logged_out : Db → Result DbError (Done × Db) → Result DbError (Done × Db)
  logged_out db (err DbError.not_found) = ok (done, db)
  logged_out db r = r

  -- `LogoutSession`, of the hash that the gateway forwards.
  unfoldable pub logout_session : Option String → Handler Done
  logout_session none = return done
  logout_session (some hash) = elim (decoded C hash) [
    | none ↦ fail Failure.bad_request
    | some raw ↦ call (λ db. logged_out db (delete_session_token_by_hash raw db)) always_internal
  ]
