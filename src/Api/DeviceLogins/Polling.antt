-- ===== src/Api/DeviceLogins/Polling.antt =====
-- What a device is given for its polling token by internal/api/device_login_requests.go.
use mathlib.Core.Path.{subst}
use platform_orchestrator_ia.Prelude.{
  ◌≡◌, ◌≤◌, ◌=~◌, eq_iff, ltb, String, refl, ap, ◌∙◌, Uuid, true, not, Option, none, some, arith,
}
use platform_orchestrator_ia.Prelude.Result.{Result, ok, err}
use platform_orchestrator_ia.Model.{Time, Bytes, SessionToken, DeviceLoginRequest, Db}
use platform_orchestrator_ia.Model.Store.{
  DbError, Session, Failure, Done, done, ◌>>=◌, require, query, transaction,
}
use platform_orchestrator_ia.Model.Store.Logic.{
  After, Triple, Triple->>=, Triple-return, Triple-require, Triple-query, Triple-transaction,
}
use platform_orchestrator_ia.Model.DeviceLogins.{device_login_accepted, get_device_login_request}
use platform_orchestrator_ia.Api.Authenticate.Tokens.{Codec, RawCodec, encode_session_token}
use platform_orchestrator_ia.Api.Roles.{Environment, missing_or_internal}
use platform_orchestrator_ia.Api.DeviceLogins.Opening.{HasSession, Anyhow, Start, Settled, settled}
use platform_orchestrator_ia.Api.DeviceLogins.{
  Poll, pending, token, settle, polled, poll_decision, poll_found, poll_device_login_request,
}

module _ (C : Codec) (W : RawCodec) (E : Environment) (raw : Bytes) where
  -- What a token that is handed out says of the request and of the tables.
  abbrev pub Granted : DeviceLoginRequest → Poll → Db → Type 0
  Granted r pending db = Done
  Granted r (token text expires_at) db =
      (session : SessionToken) × (r.decision ≡ some device_login_accepted)
      × HasSession C W E raw r session db
      × (get_device_login_request r.id db ≡ err DbError.not_found)
      × (text ≡ encode_session_token C raw)
      × (expires_at ≡ session.expires_at)

  polled_right :
      (r : DeviceLoginRequest) (decision : String) (opened : Option SessionToken)
      → r.decision ≡ some decision
      → Triple (Settled C W E raw r decision opened) (polled C W E raw opened) (Granted r) Anyhow
  polled_right r decision none made s h = done
  polled_right r decision (some session) made s h =
      let (accepted, has, gone) = h in (session, made ∙ ap some accepted, has, gone, refl, refl)

  decision_right :
      (r : DeviceLoginRequest) (decision : Option String)
      → r.decision ≡ decision
      → Triple Start (poll_decision C W E r raw decision) (Granted r) Anyhow
  unfolding poll_decision
  decision_right r none made = Triple-return Start Anyhow pending (Granted r) (λ db h. done)
  decision_right r (some decision) made =
      Triple->>= Start Anyhow (transaction (settle C W E r decision raw)) (polled C W E raw)
        (Settled C W E raw r decision) (Granted r)
        (Triple-transaction Start Anyhow (settle C W E r decision raw)
          (Settled C W E raw r decision) Anyhow (λ db e h. done) (settled C W E raw r decision))
        (λ opened. polled_right r decision opened made)

  -- The polling token is the one that the request was made with, and in time.
  abbrev pub InTime : DeviceLoginRequest → String → Type 0
  InTime r polling_token =
      (C.sha256 ((W.decode polling_token).0) ≡ r.polling_token_hash) × (E.now ≤ r.expires_at)

  abbrev Checked : DeviceLoginRequest → String → Poll → Db → Type 0
  Checked r polling_token answer db = InTime r polling_token × Granted r answer db

  decision-InTime :
      (r : DeviceLoginRequest) (polling_token : String)
      → Triple
          (λ db. InTime r polling_token)
          (poll_decision C W E r raw r.decision)
          (Checked r polling_token)
          Anyhow
  decision-InTime r polling_token s fits =
      together (poll_decision C W E r raw r.decision s) (decision_right r r.decision refl s done)
    where
      together :
          (result : Result Failure Poll × Session)
          → After (Granted r) Anyhow result
          → After (Checked r polling_token) Anyhow result
      together (ok answer, s') h = (fits, h)
      together (err e, s') h = done

  found_right :
      (r : DeviceLoginRequest) (polling_token : String)
      → Triple Start (poll_found C W E polling_token raw r) (Checked r polling_token) Anyhow
  unfolding poll_found
  found_right r polling_token =
      let same = C.sha256 ((W.decode polling_token).0) =~ r.polling_token_hash in
      let early = not (ltb r.expires_at E.now) in
      Triple->>= Start Anyhow (require same Failure.bad_request)
        (λ _. require early Failure.missing >>= (λ _. poll_decision C W E r raw r.decision))
        (λ _ db. (same ≡ true) × Done) (Checked r polling_token)
        (Triple-require Start Anyhow same Failure.bad_request (λ db h. done))
        (λ _.
          Triple->>= (λ db. (same ≡ true) × Done) Anyhow (require early Failure.missing)
            (λ _. poll_decision C W E r raw r.decision)
            (λ _ db. (early ≡ true) × ((same ≡ true) × Done)) (Checked r polling_token)
            (Triple-require (λ db. (same ≡ true) × Done) Anyhow early Failure.missing
              (λ db h. done))
            (λ _ s h. decision-InTime r polling_token s ((eq_iff _ _).0 h.1.0, in_time r h.0)))
    where
      in_time :
          (r : DeviceLoginRequest) → not (ltb r.expires_at E.now) ≡ true → E.now ≤ r.expires_at
      in_time r h = ground arith

  -- A device that is given a token by `PollDeviceLoginRequest` named a request that was there, had not
  -- expired and was accepted, and showed its polling token. The token's session is in the table, for
  -- the user who accepted and with the client's data of the request, and the request is gone, so that
  -- no second token is given for it.
  pub polled_token_right :
      (s s' : Session) (id : Uuid) (polling_token text : String) (expires_at : Time)
      → poll_device_login_request C W E id polling_token raw s ≡ (ok (token text expires_at), s')
      → (r : DeviceLoginRequest) × (get_device_login_request id s.tables ≡ ok r)
        × InTime r polling_token
        × Granted r (token text expires_at) s'.tables
  unfolding poll_device_login_request
  polled_token_right s s' id polling_token text expires_at e = subst (After Polled Anyhow) e (
      Triple->>= (λ db. db ≡ s.tables) Anyhow
        (query (get_device_login_request id) missing_or_internal)
        (poll_found C W E polling_token raw)
        (λ r db. (get_device_login_request id db ≡ ok r) × (db ≡ s.tables)) Polled
        (Triple-query (λ db. db ≡ s.tables) Anyhow (get_device_login_request id) missing_or_internal
          (λ db e h. done))
        named s refl)
    where
      Polled : Poll → Db → Type 0
      Polled answer db =
          (r : DeviceLoginRequest) × (get_device_login_request id s.tables ≡ ok r)
          × InTime r polling_token
          × Granted r answer db

      named :
          (r : DeviceLoginRequest)
          → Triple
              (λ db. (get_device_login_request id db ≡ ok r) × (db ≡ s.tables))
              (poll_found C W E polling_token raw r)
              Polled
              Anyhow
      named r t (found, same) =
          together (poll_found C W E polling_token raw r t) (found_right r polling_token t done)
        where
          together :
              (result : Result Failure Poll × Session)
              → After (Checked r polling_token) Anyhow result
              → After Polled Anyhow result
          together (ok answer, s'') (fits, h) = (r, rw same at found, fits, h)
          together (err e, s'') h = done
