-- ===== src/Api/Server.antt =====
-- What the handlers of internal/api use of the other parts: the interface `Authorizer` of
-- internal/authorization, and the queries of the store.
use platform_orchestrator_ia.Prelude.{String, ◌≡◌, UuidText, Uuid, Bool, Option, List, All}
use platform_orchestrator_ia.Prelude.Result.{Result, ok}
use platform_orchestrator_ia.Model.{Db}
use platform_orchestrator_ia.Model.Authorization.{is_known_permission}
use platform_orchestrator_ia.Engine.Casbin.{Casbin}
use platform_orchestrator_ia.Engine.Cache.{Ccache}
use platform_orchestrator_ia.Engine.Authorize.{Check, Answer, AuthorizeError, authorize}
use platform_orchestrator_ia.Engine.Authorize.Known.{IsPlain, Agrees}
use platform_orchestrator_ia.Engine.Authorize.Laws.{AllRight}
use platform_orchestrator_ia.Engine.Authorize.Answers.{Setting, authorize_right}

-- The Go interface, with the state that an implementation keeps.
pub record Authorizer : Type 1 where
  pub State : Type 0
  pub authorize : State → Uuid → List Check → Result AuthorizeError (List Answer) × State

-- What a client may rely on: in a good state, the answers are right for the tables.
abbrev pub IsAuthorizer : (A : Authorizer) → Db → (A.State → Type 0) → Type 0
IsAuthorizer A db Good =
    (s s' : A.State) (subject : Uuid) (checks : List Check) (answers : List Answer)
    → Good s
    → All IsPlain checks
    → A.authorize s subject checks ≡ (ok answers, s')
    → AllRight db subject checks answers × Good s'

-- `CasbinAuthorizer` between two loads of its policy.
abbrev pub casbin_authorizer :
    (K : Ccache) (C : Casbin) → UuidText → (List Check → Option (List Check)) → C.Model → Authorizer
casbin_authorizer K C U list_known m = record {
  State = K.Cache;
  authorize = authorize K C U list_known m;
}

pub casbin_authorizer-IsAuthorizer :
    (K : Ccache) (C : Casbin) (U : UuidText) (db : Db) (m : C.Model)
    (list_known : List Check → Option (List Check))
    → Setting K C U db m list_known
    → IsAuthorizer (casbin_authorizer K C U list_known m) db (Agrees (is_known_permission db) K)
casbin_authorizer-IsAuthorizer K C U db m list_known S s s' subject checks answers =
    authorize_right K C U db m list_known S s s' subject checks answers

-- The fields of `Server` that the checks use; `none` is an error of the store.
pub record Server : Type 1 where
  pub authorizer : Authorizer
  pub platform_permission_holders : String → List Uuid
  pub is_authorization_subject_active : Uuid → Option Bool
  -- Whether `GetPluginWorkloadBindingForServiceUser` finds a row.
  pub plugin_workload_bound : Uuid → Option Bool
