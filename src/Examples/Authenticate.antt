-- ===== src/Examples/Authenticate.antt =====
-- The theorems of Api/Authenticate at concrete tokens.
use platform_orchestrator_ia.Prelude.{
  String, ◌<>◌, ◌≡◌, ◌≢◌, ◌↔◌, ◌=~◌, refl, Uuid, true, false, Option, none, some, List, [], ◌∷◌,
  cut_prefix, octet_length, arith, if◌then◌else◌, Bool-cases, inl, inr,
}
use platform_orchestrator_ia.Prelude.Result.{Result, ok, err}
use platform_orchestrator_ia.Model.{Time, Bytes, SessionToken, Db}
use platform_orchestrator_ia.Model.Store.{DbError, done}
use platform_orchestrator_ia.Shared.UserId.{internal_system_uuid}
use platform_orchestrator_ia.Model.SessionTokens.{
  create_session_token, get_session_token_by_hash, delete_session_token_by_hash,
  delete_session_tokens_by_user_id,
}
use platform_orchestrator_ia.Model.PluginWorkload.{get_plugin_workload_token_by_hash}
use platform_orchestrator_ia.Model.PluginWorkload.Tokens.{Backed}
use platform_orchestrator_ia.Api.Authenticate.Tokens.{
  Codec, session, service_user, plugin_workload, classify_token, hash_token, encode_session_token,
  encode_service_user_token, new_workload_token, service_user_token_prefix, token_prefix,
}
use platform_orchestrator_ia.Api.Authenticate.Cache.{
  WrappedToken, CachedToken, TokenCache, IsTokenCache, databaser, lookup_uncached,
  get_token_by_hash, remember,
}
use platform_orchestrator_ia.Api.Authenticate.{
  admitted, Params, Settings, token_of, answer, internal_authenticate, authenticate_super_user,
}
use platform_orchestrator_ia.Api.Authenticate.Laws.{Credential, admitted-Credential}
use platform_orchestrator_ia.Api.Authenticate.Revocation.{IsReads, revoked_session_rejected}
use platform_orchestrator_ia.Api.Authenticate.Workloads.{admitted_workload-Backed}
use platform_orchestrator_ia.Api.Authenticate.Issued.{
  issued_token_recognised, by_cookie, by_header, Admits, created_session_admitted,
}
use platform_orchestrator_ia.Api.Authenticate.Unauthenticated.{super_user_admitted}
use platform_orchestrator_ia.Examples.Tables.{tables}

abbrev Entries : Type 0
Entries = List (String × WrappedToken)

abbrev look : Entries → String → Option CachedToken
look [] key = none
look ((k, v) ∷ rest) key =
    if k =~ key then some (record { value = v; expired = false }) else look rest key

abbrev fetched :
    Entries
    → String
    → Result DbError WrappedToken
    → Option CachedToken
    → Result DbError WrappedToken × Entries
fetched c key made (some item) = (if item.expired then made else ok item.value, c)
fetched c key (ok v) none = (ok v, (key, v) ∷ c)
fetched c key (err e) none = (err e, c)

-- A cache that keeps everything.
abbrev entries : TokenCache
entries = record {
  Cache = Entries;
  get = look;
  set = λ c key v ttl. (key, v) ∷ c;
  extend = λ c key ttl. c;
  fetch = λ c key ttl made. fetched c key made (look c key);
}

abbrev living : Option CachedToken → Option WrappedToken
living o = elim o [ none ↦ none | some item ↦ if item.expired then none else some item.value ]

abbrev Behaves : Entries → String → Result DbError WrappedToken → Option CachedToken → Type 0
Behaves c key made o = elim (living o) [
  | some found ↦ (fetched c key made o).0 ≡ ok found
  | none ↦ (fetched c key made o).0 ≡ made
]

fetched_lem :
    (c : Entries) (key : String) (made : Result DbError WrappedToken) (o : Option CachedToken)
    → Behaves c key made o
fetched_lem c key (ok v) none = refl
fetched_lem c key (err e) none = refl
fetched_lem c key made (some item) = elim (Bool-cases item.expired) [
  | inl dead ↦ rw dead refl
  | inr alive ↦ rw alive refl
]

entries-IsTokenCache : IsTokenCache entries
entries-IsTokenCache c key ttl made = fetched_lem c key made (look c key)

abbrev token_bytes : Bytes
token_bytes = "012345678901234567890123456789012"

-- Encoders that change nothing.
abbrev pub plain : Codec
plain = record {
  sha256 = λ raw. raw;
  encode = λ raw. raw;
  decode = λ s. (s, true);
  hex_encode = λ raw. raw;
  decode-encode = λ raw. refl;
}

abbrev settings : Settings
settings = record { super_user_token_hash = "root"; plugin_workload_static_tokens = false }

abbrev ada_session : SessionToken
ada_session = record {
  sha256_hash = "s3cret";
  provider = "google";
  user_id = 2;
  created_at = 1;
  expires_at = 100;
  client_ip = none;
  client_city = none;
  client_region = none;
}

abbrev pub with_session : Db
with_session = record tables { session_tokens = ada_session ∷ [] }

abbrev params : Params
params = record { session_token = some "s3cret"; authorization = none }

databaser-IsReads : (now : Time) (db : Db) → IsReads (databaser now db) now db
databaser-IsReads now db = record { sessions = λ hash st e. e; workloads = λ hash t e. e }

session_created : create_session_token ada_session tables ≡ ok (ada_session, with_session)
unfolding create_session_token
session_created = refl

created_session_admitted_example :
    Admits entries plain settings 50 [] with_session ada_session (by_cookie "s3cret")
    × Admits entries plain settings 50 [] with_session ada_session (by_header "s3cret")
unfolding cut_prefix
created_session_admitted_example =
    created_session_admitted entries plain settings 50 [] ada_session ada_session "s3cret" tables
      with_session session_created refl (omega arith) refl refl refl

session_admitted :
    internal_authenticate plain settings entries (databaser 50 with_session) 50 [] params
    ≡ (admitted 2 (some "s3cret"), [])
unfolding cut_prefix
session_admitted =
    (created_session_admitted entries plain settings 50 [] ada_session ada_session "s3cret" tables
      with_session session_created refl (omega arith) refl refl refl).0

admitted-Credential_example :
    (token : String) × (token_of params ≡ some token)
    × Credential entries plain settings
        (databaser 50 with_session)
        50
        []
        (classify_token plain token).1
        2
        (classify_token plain token).0
    × (◌≡◌ {A = Option String} (some "s3cret") (some (plain.encode (classify_token plain token).1)))
unfolding get_session_token_by_hash
admitted-Credential_example =
    admitted-Credential entries plain settings (databaser 50 with_session) 50 [] params [] 2
      (some "s3cret") entries-IsTokenCache session_admitted

abbrev after_logout : Db
after_logout = record tables { session_tokens = [] }

revoked_session_rejected_example :
    (¬ (IsReads (databaser 50 with_session) 50 after_logout))
    × (IsReads (databaser 50 with_session) 50 with_session → ◌≢◌ {A = Uuid} 2 3)
unfolding get_session_token_by_hash classify_token cut_prefix delete_session_token_by_hash
    delete_session_tokens_by_user_id
revoked_session_rejected_example =
    revoked_session_rejected entries plain settings (databaser 50 with_session) 50 [] []
      entries-IsTokenCache with_session after_logout with_session done 0 2 3 (some "s3cret") params
      "s3cret" refl refl refl refl session_admitted

-- A service user that is bound to a plugin workload, and a token that was issued to that.
abbrev with_workload : Db
with_workload = record tables {
  service_user_tokens =
      record {
        id = 9;
        org_id = none;
        scope = "platform";
        display_name = "plugin";
        generated_at = 0;
        generated_by = 2;
        current_token_expires_at = none;
        current_token_sha256_hash = none;
      }
      ∷ [];
  plugin_workload_bindings =
      record {
        id = 5;
        issuer = "cluster";
        namespace = "plugins";
        service_account = "runner";
        audience = "iam";
        service_user_id = 9;
        plugin_id = "acme.runner";
        installation_id = 6;
        created_at = 0;
        created_by = 2;
      }
      ∷ [];
  plugin_workload_tokens =
      record { sha256_hash = token_bytes; binding_id = 5; issued_at = 0; expires_at = 100 } ∷ [];
}

abbrev workload_params : Params
workload_params = record {
  session_token = none;
  authorization = some "Bearer PWT-012345678901234567890123456789012";
}

workload_admitted :
    internal_authenticate plain settings entries (databaser 50 with_workload) 50 [] workload_params
    ≡ (admitted 9 (some token_bytes), [])
unfolding internal_authenticate get_token_by_hash remember lookup_uncached answer classify_token
    hash_token cut_prefix octet_length get_plugin_workload_token_by_hash
workload_admitted = refl

admitted_workload-Backed_example : Backed 50 with_workload token_bytes 9
unfolding classify_token hash_token cut_prefix octet_length
admitted_workload-Backed_example =
    admitted_workload-Backed entries plain settings (databaser 50 with_workload) 50 [] []
      entries-IsTokenCache with_workload 9 (some token_bytes) workload_params
      "PWT-012345678901234567890123456789012" (databaser-IsReads 50 with_workload) refl refl
      workload_admitted

issued_token_recognised_example :
    (classify_token plain (encode_service_user_token plain token_bytes)
      ≡ (service_user, token_bytes))
    × (classify_token plain (new_workload_token plain token_bytes) ≡ (plugin_workload, token_bytes))
    × ((classify_token plain (encode_session_token plain token_bytes) ≡ (session, token_bytes)) ↔ (
        (cut_prefix service_user_token_prefix (encode_session_token plain token_bytes) ≡ none)
        × (cut_prefix token_prefix (encode_session_token plain token_bytes) ≡ none)))
unfolding octet_length
issued_token_recognised_example = issued_token_recognised plain token_bytes refl

super_user_admitted_example :
    (◌≡◌ {A = Uuid} internal_system_uuid internal_system_uuid)
    × (settings.super_user_token_hash ≢ "")
    × ((token : String) × ("Bearer root" ≡ "Bearer " <> token)
        × (plain.sha256 token ≡ settings.super_user_token_hash))
unfolding authenticate_super_user cut_prefix
super_user_admitted_example =
    super_user_admitted plain settings "Bearer root" internal_system_uuid (some "root") refl
