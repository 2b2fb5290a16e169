-- ===== src/Api/DeviceLogins/Opening.antt =====
-- The session that the transaction of `PollDeviceLoginRequest` opens, and the request that it deletes,
-- internal/api/device_login_requests.go.
use mathlib.Core.Path.{subst}
use platform_orchestrator_ia.Prelude.{
  ◌≡◌, ◌=~◌, eq_iff, String, inl, inr, refl, sym, ap, ◌∙◌, Uuid, Option, none, some, Memᴰ,
  Bool-cases,
}
use platform_orchestrator_ia.Prelude.Result.{ok, err}
use platform_orchestrator_ia.Model.{Bytes, SessionToken, DeviceLoginRequest, User, Db}
use platform_orchestrator_ia.Model.Store.{DbError, Failure, Done, done, ◌>>=◌, return, call, query}
use platform_orchestrator_ia.Model.Store.Logic.{
  Triple, Triple->>=, Triple-fail, Triple-return, Triple-call, Triple-query,
}
use platform_orchestrator_ia.Model.Users.{get_user, update_user}
use platform_orchestrator_ia.Model.SessionTokens.{create_session_token}
use platform_orchestrator_ia.Model.SessionTokens.Laws.{create-mem}
use platform_orchestrator_ia.Model.DeviceLogins.{
  device_login_accepted, get_device_login_request, delete_device_login_request,
}
use platform_orchestrator_ia.Model.DeviceLogins.Laws.{update_user_keeps, delete-get, get_user-id}
use platform_orchestrator_ia.Api.Authenticate.Tokens.{Codec, RawCodec}
use platform_orchestrator_ia.Api.Roles.{Environment, always_internal}
use platform_orchestrator_ia.Api.DeviceLogins.{
  device_session, stamp_login, open_for, open_by, open_session, open_if_accepted, close_request,
  settle,
}

abbrev pub Anyhow : Failure → Db → Type 0
Anyhow e db = Done

abbrev pub Start : Db → Type 0
Start db = Done

module _ (C : Codec) (W : RawCodec) (E : Environment) (raw : Bytes) where
  -- A session of the user who decided the request is in the table.
  abbrev pub HasSession : DeviceLoginRequest → SessionToken → Db → Type 0
  HasSession r session db =
      (user : Uuid) × (r.decided_by ≡ some user)
      × (session ≡ device_session C W E r raw user)
      × Memᴰ session db.session_tokens

  user_updated :
      (r : DeviceLoginRequest) (session : SessionToken) (u : User)
      → Triple
          (HasSession r session)
          (call (update_user u) always_internal)
          (λ _. HasSession r session)
          Anyhow
  user_updated r session u =
      Triple-call (HasSession r session) Anyhow (update_user u) always_internal
        (λ _. HasSession r session) (λ db e h. done)
        (λ db db' u' h e.
          let (user, decided, made, there) = h in
          let (kept, _) = update_user_keeps u u' db db' e in
          (user, decided, made, subst (Memᴰ session) (sym kept) there))

  session_created :
      (r : DeviceLoginRequest) (user : Uuid)
      → r.decided_by ≡ some user
      → Triple Start
          (call (create_session_token (device_session C W E r raw user)) always_internal)
          (HasSession r)
          Anyhow
  session_created r user decided =
      Triple-call Start Anyhow (create_session_token (device_session C W E r raw user))
        always_internal (HasSession r) (λ db e h. done)
        (λ db db' session h e.
          let (same, there, _) = create-mem _ session db db' e in
          (user, decided, same, subst (λ t. Memᴰ t db'.session_tokens) (sym same) there))

  session_stamped :
      (r : DeviceLoginRequest) (u : User) (session : SessionToken)
      → Triple (HasSession r session) (stamp_login C W E u session) (HasSession r) Anyhow
  session_stamped r u session =
      let stamped = record u { last_logged_in_at = some session.created_at } in
      Triple->>= (HasSession r session) Anyhow (call (update_user stamped) always_internal)
        (λ _. return session) (λ _. HasSession r session) (HasSession r)
        (user_updated r session stamped)
        (λ _. Triple-return (HasSession r session) Anyhow session (HasSession r) (λ db h. h))

  session_opened :
      (r : DeviceLoginRequest) (user : Uuid)
      → r.decided_by ≡ some user
      → Triple Start
          (query (get_user user) always_internal >>= open_for C W E r raw)
          (HasSession r)
          Anyhow
  session_opened r user decided =
      Triple->>= Start Anyhow (query (get_user user) always_internal) (open_for C W E r raw)
        (λ u db. (get_user user db ≡ ok u) × Done) (HasSession r)
        (Triple-query Start Anyhow (get_user user) always_internal (λ db e h. done)) opened
    where
      opened :
          (u : User)
          → Triple
              (λ db. (get_user user db ≡ ok u) × Done)
              (open_for C W E r raw u)
              (HasSession r)
              Anyhow
      opened u s found =
          let own = decided ∙ ap some (sym (get_user-id user s.tables u found.0)) in
          Triple->>= Start Anyhow
            (call (create_session_token (device_session C W E r raw u.id)) always_internal)
            (stamp_login C W E u) (HasSession r) (HasSession r) (session_created r u.id own)
            (session_stamped r u) s done

  open_by_right :
      (r : DeviceLoginRequest) (decider : Option Uuid)
      → r.decided_by ≡ decider
      → Triple Start (open_by C W E r raw decider) (HasSession r) Anyhow
  open_by_right r none decided =
      Triple-fail Start Anyhow Failure.internal (HasSession r) (λ db h. done)
  open_by_right r (some user) decided = session_opened r user decided

  open_session_right :
      (r : DeviceLoginRequest) → Triple Start (open_session C W E r raw) (HasSession r) Anyhow
  unfolding open_session
  open_session_right r = open_by_right r r.decided_by refl

  -- What the transaction leaves: a session exactly where the request was accepted, and no request.
  abbrev pub Settled : DeviceLoginRequest → String → Option SessionToken → Db → Type 0
  Settled r decision none db = Done
  Settled r decision (some session) db =
      (decision ≡ device_login_accepted)
      × HasSession r session db
      × (get_device_login_request r.id db ≡ err DbError.not_found)

  abbrev Opened : DeviceLoginRequest → String → Option SessionToken → Db → Type 0
  Opened r decision none db = Done
  Opened r decision (some session) db = (decision ≡ device_login_accepted) × HasSession r session db

  request_deleted :
      (r : DeviceLoginRequest) (decision : String) (opened : Option SessionToken)
      → Triple
          (Opened r decision opened)
          (call (delete_device_login_request r.id) always_internal)
          (λ _. Settled r decision opened)
          Anyhow
  request_deleted r decision none =
      Triple-call Start Anyhow (delete_device_login_request r.id) always_internal (λ _ db. Done)
        (λ db e h. done) (λ db db' d h e. done)
  request_deleted r decision (some session) =
      Triple-call (Opened r decision (some session)) Anyhow (delete_device_login_request r.id)
        always_internal (λ _. Settled r decision (some session)) (λ db e h. done)
        (λ db db' d h e.
          let (accepted, (user, decided, made, there)) = h in
          let (gone, kept) = delete-get r.id db db' d e in
          (accepted, (user, decided, made, subst (Memᴰ session) (sym kept) there), gone))

  open_if_accepted-opens :
      (r : DeviceLoginRequest) (decision : String)
      → Triple Start (open_if_accepted C W E r decision raw) (Opened r decision) Anyhow
  unfolding open_if_accepted
  open_if_accepted-opens r decision = elim (Bool-cases (decision =~ device_login_accepted)) [
    | inr other ↦ rw other (Triple-return Start Anyhow none (Opened r decision) (λ db h. done))
    | inl accepted ↦ rw accepted (
        Triple->>= Start Anyhow (open_session C W E r raw) (λ session. return (some session))
          (HasSession r) (Opened r decision) (open_session_right r)
          (λ session.
            Triple-return (HasSession r session) Anyhow (some session) (Opened r decision)
              (λ db h. ((eq_iff _ _).0 accepted, h))))
  ]

  pub settled :
      (r : DeviceLoginRequest) (decision : String)
      → Triple Start (settle C W E r decision raw) (Settled r decision) Anyhow
  unfolding settle
  settled r decision =
      Triple->>= Start Anyhow (open_if_accepted C W E r decision raw) (close_request C W E r)
        (Opened r decision) (Settled r decision) (open_if_accepted-opens r decision)
        (λ opened.
          Triple->>= (Opened r decision opened) Anyhow
            (call (delete_device_login_request r.id) always_internal) (λ _. return opened)
            (λ _. Settled r decision opened) (Settled r decision)
            (request_deleted r decision opened)
            (λ _.
              Triple-return (Settled r decision opened) Anyhow opened (Settled r decision)
                (λ db h. h)))
