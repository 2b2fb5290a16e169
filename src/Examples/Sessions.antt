-- ===== src/Examples/Sessions.antt =====
-- The theorems of Api/Sessions and Api/DeviceLogins at concrete requests.
use platform_orchestrator_ia.Prelude.{◌≡◌, refl, true, none, some, [], ◌∷◌}
use platform_orchestrator_ia.Prelude.Result.{ok}
use platform_orchestrator_ia.Model.{DeviceLoginRequest}
use platform_orchestrator_ia.Model.Store.{Session}
use platform_orchestrator_ia.Model.Store.Logic.{After}
use platform_orchestrator_ia.Model.Users.{get_user, update_user}
use platform_orchestrator_ia.Model.SessionTokens.{create_session_token}
use platform_orchestrator_ia.Model.DeviceLogins.{
  get_device_login_request, delete_device_login_request,
}
use platform_orchestrator_ia.Api.Authenticate.Tokens.{RawCodec}
use platform_orchestrator_ia.Api.Roles.{Environment}
use platform_orchestrator_ia.Api.Sessions.{revoke_user_session_token}
use platform_orchestrator_ia.Api.Sessions.Revoking.{Outcome, Unchanged, revoke_right}
use platform_orchestrator_ia.Api.DeviceLogins.{
  token, open_session, open_if_accepted, settle, poll_decision, poll_found,
  poll_device_login_request, decide_device_login_request,
}
use platform_orchestrator_ia.Api.DeviceLogins.Polling.{InTime, Granted, polled_token_right}
use platform_orchestrator_ia.Api.DeviceLogins.Deciding.{DecisionOutcome, decision_stands}
use platform_orchestrator_ia.Examples.Tables.{tables}
use platform_orchestrator_ia.Examples.Authenticate.{plain, with_session}

abbrev pub raw_codec : RawCodec
raw_codec = record { encode = λ raw. raw; decode = λ s. (s, true) }

abbrev pub environment : Environment
environment = record {
  user = some 2;
  check_org_authorization = λ user org permission. some true;
  new_id = λ n. n;
  now = 50;
  reloads = true;
}

-- A request that Ada has accepted.
abbrev accepted : DeviceLoginRequest
accepted = record {
  id = 11;
  verification_code_hash = "ABC-DEF";
  created_at = 40;
  expires_at = 90;
  user_agent = "cli";
  polling_token_hash = "poll";
  decision = some "accepted";
  decided_by = some 2;
  client_ip = none;
  client_city = none;
  client_region = none;
}

abbrev waiting_device : Session
waiting_device = record {
  tables = record tables { device_login_requests = accepted ∷ [] };
  faults = [];
}

abbrev let_in : Session
let_in = (poll_device_login_request plain raw_codec environment 11 "poll" "fresh" waiting_device).1

polled_ok :
    poll_device_login_request plain raw_codec environment 11 "poll" "fresh" waiting_device
    ≡ (ok (token "fresh" 86_400_000_000_050), let_in)
unfolding poll_device_login_request poll_found poll_decision settle open_if_accepted open_session
    get_device_login_request get_user create_session_token update_user delete_device_login_request
polled_ok = refl

polled_token_right_example :
    (r : DeviceLoginRequest) × (get_device_login_request 11 waiting_device.tables ≡ ok r)
    × InTime plain raw_codec environment "fresh" r "poll"
    × Granted plain raw_codec environment "fresh" r (token "fresh" 86_400_000_000_050) let_in.tables
polled_token_right_example =
    polled_token_right plain raw_codec environment "fresh" waiting_device let_in 11 "poll" "fresh"
      86_400_000_000_050 polled_ok

decision_stands_example :
    DecisionOutcome plain raw_codec environment 11 "rejected" waiting_device
      (decide_device_login_request plain raw_codec environment 11 "rejected" waiting_device)
decision_stands_example = decision_stands plain raw_codec environment 11 "rejected" waiting_device

revoke_right_example :
    After
      (Outcome plain environment 2 "s3cret" with_session)
      (Unchanged plain environment 2 "s3cret" with_session)
      (revoke_user_session_token plain environment 2 "s3cret"
        (record { tables = with_session; faults = [] }))
revoke_right_example =
    revoke_right plain environment 2 "s3cret" (record { tables = with_session; faults = [] })
