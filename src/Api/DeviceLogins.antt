-- ===== src/Api/DeviceLogins.antt =====
-- internal/api/device_login_requests.go. The limit on the rate of look-ups by code is left out.
pub mod Opening
pub mod Polling
pub mod Deciding
use platform_orchestrator_ia.Prelude.{
  ℕ, ◌+◌, ◌==◌, ◌=~◌, ◌<>◌, ltb, String, Uuid, Bool, true, false, not, Option, none, some, List,
  if◌then◌else◌,
}
use platform_orchestrator_ia.Model.{Time, Bytes, SessionToken, DeviceLoginRequest, User, Db}
use platform_orchestrator_ia.Shared.UserId.{is_human_user}
use platform_orchestrator_ia.Model.Store.{
  DbError, Failure, Handler, Done, done, ◌>>=◌, return, fail, require, call, query, transaction,
}
use platform_orchestrator_ia.Model.Users.{get_user, update_user}
use platform_orchestrator_ia.Model.SessionTokens.{create_session_token}
use platform_orchestrator_ia.Model.DeviceLogins.{
  device_login_rejected, device_login_accepted, create_device_login_request,
  get_device_login_request, get_device_login_request_by_code_hash, update_device_login_request,
  delete_device_login_request,
}
use platform_orchestrator_ia.Api.Authenticate.Tokens.{Codec, RawCodec, encode_session_token}
use platform_orchestrator_ia.Api.Roles.{Environment, missing_or_internal, always_internal}
use platform_orchestrator_ia.Api.Sessions.{new_session_token}

-- Ten minutes.
abbrev pub device_login_request_expiry : Time
device_login_request_expiry = 600_000_000_000

-- What a device is told of itself: `User-Agent` and the client's place.
pub record Client : Type 0 where
  pub user_agent : Option String
  pub ip : Option String
  pub city : Option String
  pub region : Option String

-- The answers of `PollDeviceLoginRequest`.
pub data Poll : Type 0 where
  pending : Poll
  token : (text : String) (expires_at : Time) → Poll

module _ (C : Codec) (W : RawCodec) (E : Environment) where
  -- The row of `RequestDeviceLogin`, of the code and the bytes that are drawn at random.
  abbrev pub requested : Client → String → Bytes → DeviceLoginRequest
  requested client code raw = record {
    id = E.new_id 0;
    verification_code_hash = C.sha256 code;
    created_at = E.now;
    expires_at = E.now + device_login_request_expiry;
    user_agent = elim client.user_agent [ none ↦ "" | some agent ↦ agent ];
    polling_token_hash = C.sha256 raw;
    decision = none;
    decided_by = none;
    client_ip = client.ip;
    client_city = client.city;
    client_region = client.region;
  }

  -- `RequestDeviceLogin`: the request, and the polling token.
  unfoldable pub request_device_login :
      Client → String → Bytes → Handler (DeviceLoginRequest × String)
  request_device_login client code raw = do
    r ← call (create_device_login_request (requested client code raw)) always_internal
    return (r, W.encode raw)

  -- The session of a device that was let in, of the bytes that are drawn at random.
  abbrev pub device_session : DeviceLoginRequest → Bytes → Uuid → SessionToken
  device_session r raw user = record (new_session_token C raw E.now user "devicelogin") {
    client_ip = r.client_ip;
    client_city = r.client_city;
    client_region = r.client_region;
  }

  -- The user has logged in.
  abbrev pub stamp_login : User → SessionToken → Handler SessionToken
  stamp_login user session =
      call (update_user (record user { last_logged_in_at = some session.created_at }))
        always_internal
      >>= (λ _. return session)

  abbrev pub open_for : DeviceLoginRequest → Bytes → User → Handler SessionToken
  open_for r raw user =
      call (create_session_token (device_session r raw user.id)) always_internal
      >>= stamp_login user

  -- A request without a user panics.
  abbrev pub open_by : DeviceLoginRequest → Bytes → Option Uuid → Handler SessionToken
  open_by r raw none = fail Failure.internal
  open_by r raw (some decider) = query (get_user decider) always_internal >>= open_for r raw

  -- The part of the transaction where the request was accepted.
  unfoldable pub open_session : DeviceLoginRequest → Bytes → Handler SessionToken
  open_session r raw = open_by r raw r.decided_by

  unfoldable pub open_if_accepted :
      DeviceLoginRequest → String → Bytes → Handler (Option SessionToken)
  unfolding open_session
  open_if_accepted r decision raw =
      if decision =~ device_login_accepted
      then (open_session r raw >>= (λ session. return (some session)))
      else return none

  abbrev pub close_request :
      DeviceLoginRequest → Option SessionToken → Handler (Option SessionToken)
  close_request r opened =
      call (delete_device_login_request r.id) always_internal >>= (λ _. return opened)

  -- The transaction of `PollDeviceLoginRequest`: the session, where the request was accepted.
  unfoldable pub settle : DeviceLoginRequest → String → Bytes → Handler (Option SessionToken)
  unfolding open_session open_if_accepted
  settle r decision raw = open_if_accepted r decision raw >>= close_request r

  -- The answer for what the transaction gave: a rejected request is 400.
  abbrev pub polled : Bytes → Option SessionToken → Handler Poll
  polled raw none = fail Failure.bad_request
  polled raw (some session) = return (token (encode_session_token C raw) session.expires_at)

  -- What follows the tests of `PollDeviceLoginRequest`.
  unfoldable pub poll_decision : DeviceLoginRequest → Bytes → Option String → Handler Poll
  unfolding settle
  poll_decision r raw none = return pending
  poll_decision r raw (some decision) = transaction (settle r decision raw) >>= polled raw

  -- What follows its look-up.
  unfoldable pub poll_found : String → Bytes → DeviceLoginRequest → Handler Poll
  unfolding poll_decision
  poll_found polling_token raw r =
      require (C.sha256 ((W.decode polling_token).0) =~ r.polling_token_hash) Failure.bad_request
      >>= (λ _.
          require (not (ltb r.expires_at E.now)) Failure.missing
          >>= (λ _. poll_decision r raw r.decision))

  -- `PollDeviceLoginRequest`, of the polling token, and of the bytes of the session token that are
  -- drawn at random. The call takes no time.
  unfoldable pub poll_device_login_request : Uuid → String → Bytes → Handler Poll
  unfolding poll_found
  poll_device_login_request id polling_token raw =
      query (get_device_login_request id) missing_or_internal >>= poll_found polling_token raw

  -- `GetDeviceLoginRequest`, of the code in capitals.
  unfoldable pub look_up_device_login : String → Handler DeviceLoginRequest
  look_up_device_login code = elim E.user [
    | none ↦ fail Failure.unauthorized
    | some user ↦
        query (get_device_login_request_by_code_hash (C.sha256 code)) missing_or_internal
        >>= (λ r. require (not (ltb r.expires_at E.now)) Failure.missing >>= (λ _. return r))
  ]

  -- The decision is written where there is none.
  abbrev pub write_decision :
      Uuid → String → DeviceLoginRequest → Option String → Handler DeviceLoginRequest
  write_decision user decision r (some earlier) = fail Failure.bad_request
  write_decision user decision r none =
      call
        (update_device_login_request
          (record r { decision = some decision; decided_by = some user }))
        missing_or_internal

  -- The transaction of `decideDeviceLoginRequest`.
  abbrev pub decide_once : Uuid → Uuid → String → Handler DeviceLoginRequest
  decide_once user id decision =
      query (get_device_login_request id) missing_or_internal
      >>= (λ r. write_decision user decision r r.decision)

  abbrev pub decide_as : Option Uuid → Uuid → String → Handler DeviceLoginRequest
  decide_as none id decision = fail Failure.unauthorized
  decide_as (some user) id decision =
      if is_human_user user
      then transaction (decide_once user id decision)
      else fail Failure.bad_request

  -- `decideDeviceLoginRequest`, with the responses of its two callers.
  unfoldable pub decide_device_login_request : Uuid → String → Handler DeviceLoginRequest
  decide_device_login_request id decision = decide_as E.user id decision

  -- `RejectDeviceLoginRequest`.
  unfoldable pub reject_device_login_request : Uuid → Handler Done
  reject_device_login_request id =
      decide_device_login_request id device_login_rejected >>= (λ _. return done)

  -- `AcceptDeviceLoginRequest`.
  unfoldable pub accept_device_login_request : Uuid → Handler Done
  accept_device_login_request id =
      decide_device_login_request id device_login_accepted >>= (λ _. return done)
