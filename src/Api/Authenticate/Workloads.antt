-- ===== src/Api/Authenticate/Workloads.antt =====
-- Plugin workload tokens that internal/api/authenticate.go accepts.
use mathlib.Core.Path.{subst}
use platform_orchestrator_ia.Prelude.{String, ◌≡◌, Uuid, Option, some}
use platform_orchestrator_ia.Model.{Time, Db}
use platform_orchestrator_ia.Model.PluginWorkload.Tokens.{Backed, found_token_Backed}
use platform_orchestrator_ia.Api.Authenticate.Tokens.{Codec, plugin_workload, classify_token}
use platform_orchestrator_ia.Api.Authenticate.Cache.{TokenCache, IsTokenCache, TokenReads}
use platform_orchestrator_ia.Api.Authenticate.{
  admitted, Params, Settings, token_of, internal_authenticate,
}
use platform_orchestrator_ia.Api.Authenticate.Laws.{Credential, by_workload, admitted-Credential}
use platform_orchestrator_ia.Api.Authenticate.Revocation.{IsReads}

module _ (K : TokenCache) (C : Codec) (settings : Settings) (R : TokenReads) (now : Time)
    (c c' : K.Cache) (law : IsTokenCache K) where
  -- A plugin workload token that is accepted rests on the tables of that moment: its row is there and
  -- has not expired, its binding is there, and the bound service user is the user that is let in, is
  -- active and holds no role. So revoking the binding, disabling the service user or giving it a role
  -- rejects the next request, whatever the cache holds.
  pub admitted_workload-Backed :
      (db : Db) (user : Uuid) (h : Option String) (params : Params) (token : String)
      → IsReads R now db
      → token_of params ≡ some token
      → (classify_token C token).0 ≡ plugin_workload
      → internal_authenticate C settings K R now c params ≡ (admitted user h, c')
      → Backed now db (classify_token C token).1 user
  admitted_workload-Backed db user h params token reads sent kind e =
      let (token', sent', credential, text) =
        admitted-Credential K C settings R now c params c' user h law e in
      let same : token' ≡ token = cc in
      let own =
        subst
          (λ t. Credential K C settings R now c (classify_token C t).1 user (classify_token C t).0)
          same credential in
      go (subst (Credential K C settings R now c (classify_token C token).1 user) kind own)
    where
      go :
          Credential K C settings R now c (classify_token C token).1 user plugin_workload
          → Backed now db (classify_token C token).1 user
      go (by_workload t there own early) =
          subst (Backed now db _) own (found_token_Backed now db _ t (reads.workloads _ t there))
