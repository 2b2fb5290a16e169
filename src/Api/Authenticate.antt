-- ===== src/Api/Authenticate.antt =====
-- internal/api/authenticate.go: who an external request comes from.
pub mod Tokens
pub mod Cache
pub mod Paths
pub mod Laws
pub mod Revocation
pub mod Workloads
pub mod Issued
pub mod Unauthenticated
use platform_orchestrator_ia.Prelude.{
  String, ◌=~◌, ◌<>◌, Uuid, Bool, true, false, not, ◌&&◌, ◌||◌, Option, none, some, ltb, cut_prefix,
  if◌then◌else◌,
}
use platform_orchestrator_ia.Prelude.Result.{Result, ok, err}
use platform_orchestrator_ia.Model.{Time, Bytes}
use platform_orchestrator_ia.Model.Store.{DbError}
use platform_orchestrator_ia.Shared.UserId.{internal_system_uuid}
use Tokens.{Codec, TokenKind, classify_token, is_service_user}
use Cache.{WrappedToken, TokenCache, TokenReads, get_token_by_hash}
use Paths.{skips_authentication}

-- The headers `From` and `X-Token-Hash` of a response 200, or the challenge of a response 401.
pub data Response : Type 0 where
  admitted : (from : Uuid) (token_hash : Option String) → Response
  rejected : (challenge : String) → Response

-- `InternalAuthenticateParams`.
pub record Params : Type 0 where
  pub session_token : Option String
  pub authorization : Option String

-- What the server is configured with: `SuperUserTokenHash`, empty where there is none, and
-- `PluginWorkloadStaticTokens`.
pub record Settings : Type 0 where
  pub super_user_token_hash : Bytes
  pub plugin_workload_static_tokens : Bool

-- The text after "Bearer " of a header.
abbrev pub bearer : Option String → Option String
bearer none = none
bearer (some header) = cut_prefix "Bearer " header

-- The token: the cookie's, or that of the header.
abbrev pub token_of : Params → Option String
token_of p = elim p.session_token [ some token ↦ some token | none ↦ bearer p.authorization ]

abbrev pub invalid_token : Response
invalid_token = rejected "Cookie, Bearer error=\"invalid_token\""

-- A static token of a service user that is bound to a workload, where those are refused.
abbrev pub refuses_static_token : Settings → TokenKind → WrappedToken → Bool
refuses_static_token settings kind st =
    is_service_user kind
    && st.workload_bound
    && (st.holds_roles || not settings.plugin_workload_static_tokens)

module _ (C : Codec) (settings : Settings) where
  -- What is answered for what the lookup found.
  unfoldable pub answer : Time → TokenKind → Bytes → Result DbError (Option WrappedToken) → Response
  answer now kind hash (err e) = invalid_token
  answer now kind hash (ok none) = invalid_token
  answer now kind hash (ok (some st)) =
      if ltb st.expires_at now
      then invalid_token
      else if refuses_static_token settings kind st
      then invalid_token
      else admitted st.user_id (some (C.encode hash))

  -- `authenticateSuperUser`, of the header `Authorization`, empty where there is none.
  unfoldable pub authenticate_super_user : String → Response
  authenticate_super_user header = elim (cut_prefix "Bearer " header) [
    | none ↦ rejected "Bearer"
    | some token ↦
        if settings.super_user_token_hash =~ ""
        then rejected "Bearer error=\"invalid_token\""
        else if C.sha256 token =~ settings.super_user_token_hash
        then admitted internal_system_uuid (some (C.encode (C.sha256 token)))
        else rejected "Bearer error=\"invalid_token\""
  ]

  module _ (K : TokenCache) where
    -- `InternalAuthenticate`, and the cache after it. The call takes no time.
    unfoldable pub internal_authenticate : TokenReads → Time → K.Cache → Params → Response × K.Cache
    unfolding answer get_token_by_hash classify_token
    internal_authenticate R now c params = elim (token_of params) [
      | none ↦ (rejected "Cookie, Bearer", c)
      | some token ↦
          let (kind, hash) = classify_token C token in
          let (found, c') = get_token_by_hash K C R now c kind hash in
          (answer now kind hash found, c')
    ]

    -- `buildInternalAuthenticateWildcard`, of the path after the first slash, the header
    -- `Authorization` and the cookie.
    unfoldable pub authenticate_wildcard :
        TokenReads → Time → K.Cache → (path header : String) → Option String → Response × K.Cache
    unfolding internal_authenticate authenticate_super_user skips_authentication
    authenticate_wildcard R now c path header cookie =
        if skips_authentication path
        then (admitted 0 none, c)
        else (elim (cut_prefix "admin/" path) [
          | some rest ↦ (authenticate_super_user header, c)
          | none ↦ internal_authenticate R now c (record {
            session_token = cookie;
            authorization = if header =~ "" then none else some header;
          })
        ])
