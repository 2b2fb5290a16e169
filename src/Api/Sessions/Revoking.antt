-- ===== src/Api/Sessions/Revoking.antt =====
-- What `RevokeUserSessionToken` of internal/api/session_tokens.go deletes.
use platform_orchestrator_ia.Prelude.{
  ◌≡◌, ◌≢◌, ◌↔◌, ◌⊎◌, ◌==◌, ==_iff, refl, String, Uuid, true, Option, none, some, Memᴰ,
}
use platform_orchestrator_ia.Prelude.Result.{Result, ok, err}
use platform_orchestrator_ia.Shared.UserId.{is_human_user, internal_system_uuid}
use platform_orchestrator_ia.Model.{Bytes, SessionToken, Db}
use platform_orchestrator_ia.Model.Store.{Session, Failure, Done, ◌>>=◌, require, call, query}
use platform_orchestrator_ia.Model.Store.Logic.{
  After, Triple, Triple->>=, Triple-require, Triple-call, Triple-query, Triple-transaction,
  Triple-weaken,
}
use platform_orchestrator_ia.Model.SessionTokens.{
  get_session_token_by_hash, delete_session_token_by_hash,
}
use platform_orchestrator_ia.Model.SessionTokens.Laws.{delete_session_token_by_hash_iff}
use platform_orchestrator_ia.Api.Authenticate.Tokens.{Codec}
use platform_orchestrator_ia.Api.Guards.{check_user_id_self_authorization, Denial, Passed}
use platform_orchestrator_ia.Api.Guards.Admits.{self_authorization_iff}
use platform_orchestrator_ia.Api.Roles.{Environment, missing_or_internal, always_internal}
use platform_orchestrator_ia.Api.Sessions.{
  decoded, allow_self, guard_self, revoke, revoke_decoded, revoke_user_session_token,
}

module _ (C : Codec) (E : Environment) (user_id : Uuid) (hash : String) (before : Db) where
  abbrev Same : Db → Type 0
  Same db = db ≡ before

  abbrev pub Unchanged : Failure → Db → Type 0
  Unchanged e db = db ≡ before

  -- Exactly the tokens with the hash are gone, and the one that was found was the user's.
  abbrev pub Revoked : Bytes → Db → Type 0
  Revoked raw db =
      (found : SessionToken) × (get_session_token_by_hash raw before ≡ ok found)
      × (found.user_id ≡ user_id)
      × ((t : SessionToken)
          → Memᴰ t db.session_tokens ↔ (Memᴰ t before.session_tokens × (t.sha256_hash ≢ raw)))

  revoked : (raw : Bytes) → Triple Same (revoke C E user_id raw) (λ _. Revoked raw) Unchanged
  revoked raw =
      Triple->>= Same Unchanged (query (get_session_token_by_hash raw) missing_or_internal)
        (λ t.
          require (t.user_id == user_id) Failure.missing
          >>= (λ own. call (delete_session_token_by_hash raw) always_internal))
        (λ t db. (get_session_token_by_hash raw db ≡ ok t) × Same db) (λ _. Revoked raw)
        (Triple-query Same Unchanged (get_session_token_by_hash raw) missing_or_internal
          (λ db e h. h))
        found
    where
      found :
          (t : SessionToken)
          → Triple
              (λ db. (get_session_token_by_hash raw db ≡ ok t) × Same db)
              (require (t.user_id == user_id) Failure.missing
                >>= (λ own. call (delete_session_token_by_hash raw) always_internal))
              (λ _. Revoked raw)
              Unchanged
      found t =
          let Found = λ (db : Db). (get_session_token_by_hash raw db ≡ ok t) × Same db in
          Triple->>= Found Unchanged (require (t.user_id == user_id) Failure.missing)
            (λ own. call (delete_session_token_by_hash raw) always_internal)
            (λ _ db. ((t.user_id == user_id) ≡ true) × Found db) (λ _. Revoked raw)
            (Triple-require Found Unchanged (t.user_id == user_id) Failure.missing (λ db h. h.1))
            (λ _.
              Triple-call (λ db. ((t.user_id == user_id) ≡ true) × Found db) Unchanged
                (delete_session_token_by_hash raw) always_internal (λ _. Revoked raw)
                (λ db e h. h.1.1)
                (λ db db' d h e. (
                  t,
                  rw h.1.1 at h.1.0,
                  (==_iff _ _).0 h.0,
                  λ u.
                      let iff = delete_session_token_by_hash_iff raw db db' d u e in
                      rw h.1.1 at iff,
                )))

  -- The request is made by the user or by the system, and its hash is written as bytes.
  abbrev pub Permitted : Bytes → Type 0
  Permitted raw =
      (user : Uuid) × (E.user ≡ some user)
      × ((user ≡ internal_system_uuid) ⊎ ((is_human_user user ≡ true) × (user ≡ user_id)))
      × (decoded C hash ≡ some raw)

  abbrev pub Outcome : Done → Db → Type 0
  Outcome d db = (raw : Bytes) × Permitted raw × Revoked raw db

  allowed :
      (user : Uuid) (answer : Result Denial Passed)
      → check_user_id_self_authorization user user_id ≡ answer
      → Triple Same
          (allow_self C E answer)
          (λ _ db. (check_user_id_self_authorization user user_id ≡ ok Passed.passed) × Same db)
          Unchanged
  allowed user (ok Passed.passed) e s h = (e, h)
  allowed user (err denial) e s h = h

  revoked_decoded :
      (user : Uuid) (raw : Option Bytes)
      → E.user ≡ some user
      → decoded C hash ≡ raw
      → Triple
          (λ db. (check_user_id_self_authorization user user_id ≡ ok Passed.passed) × Same db)
          (revoke_decoded C E user_id raw)
          Outcome
          Unchanged
  revoked_decoded user none known e s h = h.1
  revoked_decoded user (some raw) known e s h =
      Triple-transaction Same Unchanged (revoke C E user_id raw) Outcome Unchanged
        (λ db f same. same)
        (Triple-weaken Same Unchanged (revoke C E user_id raw) (λ _. Revoked raw) Outcome
          (λ d db gone. (raw, (user, known, (self_authorization_iff user user_id).0 h.0, e), gone))
          (revoked raw))
        s h.1

  revoked_by :
      (user : Option Uuid)
      → E.user ≡ user
      → Triple Same
          (guard_self C E user user_id >>= (λ self. revoke_decoded C E user_id (decoded C hash)))
          Outcome
          Unchanged
  revoked_by none known = λ s h. h
  revoked_by (some user) known =
      Triple->>= Same Unchanged (guard_self C E (some user) user_id)
        (λ self. revoke_decoded C E user_id (decoded C hash))
        (λ _ db. (check_user_id_self_authorization user user_id ≡ ok Passed.passed) × Same db)
        Outcome (allowed user (check_user_id_self_authorization user user_id) refl)
        (λ self. revoked_decoded user (decoded C hash) known refl)

-- `RevokeUserSessionToken` succeeds only for the user or the system, on a session token of that user,
-- and then deletes exactly the tokens with its hash; every error leaves the tables as they were.
pub revoke_right :
    (C : Codec) (E : Environment) (user_id : Uuid) (hash : String) (s : Session)
    → After
        (Outcome C E user_id hash s.tables)
        (Unchanged C E user_id hash s.tables)
        (revoke_user_session_token C E user_id hash s)
unfolding revoke_user_session_token
revoke_right C E user_id hash s = revoked_by C E user_id hash s.tables E.user refl s refl
