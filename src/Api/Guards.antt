-- ===== src/Api/Guards.antt =====
-- The rest of internal/api/authorize.go, and internal/api/auth.go.
pub mod Admits
use platform_orchestrator_ia.Prelude.{
  String, ◌=~◌, ◌<>◌, ◌==◌, Uuid, Bool, true, false, not, Option, none, some, List, [], ◌∷◌, map,
  if◌then◌else◌,
}
use platform_orchestrator_ia.Prelude.Result.{Result, ok, err, ◌>>=◌}
use platform_orchestrator_ia.Authz.Permissions.{platform_resource}
use platform_orchestrator_ia.Shared.UserId.{internal_system_uuid, is_human_user}
use platform_orchestrator_ia.Engine.Authorize.{Check, Answer, AuthorizeError}
use platform_orchestrator_ia.Api.Server.{Server}
use platform_orchestrator_ia.Api.Authorize.{
  has_resource, holds_platform_permission, internal_authorize_inner,
}

-- What stops a request: a returned error, or 403 with the failed checks.
pub data Denial : Type 0 where
  broken : Denial
  forbidden : List Check → Denial
  service_user_token : Denial

-- The response of the guards where they let the request through.
pub data Passed : Type 0 where
  passed : Passed

-- `InternalAuthorize`: 204, or what stops the request.
abbrev pub respond : Option (Bool × List Check) → Result Denial Passed
respond none = err broken
respond (some (all_passed, [])) = ok passed
respond (some (all_passed, check ∷ checks)) = err (forbidden (check ∷ checks))

abbrev pub admit : Option (Bool × List Check) → Result Denial Passed
admit none = err broken
admit (some (all_passed, checks)) = if all_passed then ok passed else err (forbidden checks)

-- `checkUserIdSelfAuthorization`; the text of the identifier in the response is left out.
unfoldable pub check_user_id_self_authorization : Uuid → Uuid → Result Denial Passed
check_user_id_self_authorization user_id request_user_id =
    if user_id == internal_system_uuid
    then ok passed
    else if not (is_human_user user_id)
    then err service_user_token
    else if user_id == request_user_id
    then ok passed
    else err (forbidden [])

-- The responses of `CheckPermissions`.
pub data Rejection : Type 0 where
  unauthenticated : Rejection
  no_checks : Rejection
  bad_resource : String → Rejection
  bad_permission : Check → Rejection
  check_error : Rejection

-- The loop over the answers: they fill the places that the platform checks left, in order. A place
-- without an answer stays refused, and an answer without a place is an index out of range.
pub fill : List (Check × Option Bool) → List Answer → Result Rejection (List (Check × Bool))
fill [] answers = ok []
fill ((check, some held) ∷ items) answers = do rest ← fill items answers; ok ((check, held) ∷ rest)
fill ((check, none) ∷ items) [] = do rest ← fill items []; ok ((check, false) ∷ rest)
fill ((check, none) ∷ items) (a ∷ answers) =
    let filled = fill items answers in
    if a.invalid
    then err (bad_permission a.check)
    else (filled >>= (λ rest. ok ((check, a.allowed) ∷ rest)))

-- The checks that wait for an answer.
pub waiting : List (Check × Option Bool) → List Check
waiting [] = []
waiting ((check, some held) ∷ items) = waiting items
waiting ((check, none) ∷ items) = check ∷ waiting items

abbrev pub filled_by :
    List (Check × Option Bool)
    → Result AuthorizeError (List Answer)
    → Result Rejection (List (Check × Bool))
filled_by items (err e) = err check_error
filled_by items (ok answers) = fill items answers

module _ (S : Server) where
  -- `InternalAuthorize`.
  unfoldable pub internal_authorize :
      S.authorizer.State → Uuid → List Check → Result Denial Passed × S.authorizer.State
  internal_authorize s subject checks =
      let (answer, s') = internal_authorize_inner S s subject checks in (respond answer, s')

  -- `innerCheck`, without the marks that it leaves on the context of the request.
  unfoldable pub inner_check :
      S.authorizer.State → Uuid → Check → Result Denial Passed × S.authorizer.State
  inner_check s user_id check =
      if user_id == internal_system_uuid
      then (ok passed, s)
      else let (answer, s') = internal_authorize_inner S s user_id (check ∷ []) in
        (admit answer, s')

  -- `checkOrgAuthorization`.
  unfoldable pub check_org_authorization :
      S.authorizer.State → Uuid → String → String → Result Denial Passed × S.authorizer.State
  unfolding inner_check
  check_org_authorization s user_id org_id permission =
      inner_check s user_id
        (record { resource = "organization:" <> org_id; permission = permission })

  -- The loop over the request of `CheckPermissions`: the platform's checks are answered at once.
  pub sort_request : Uuid → List Check → Result Rejection (List (Check × Option Bool))
  sort_request subject [] = ok []
  sort_request subject (check ∷ checks) =
      let rest = sort_request subject checks in
      if check.resource =~ platform_resource
      then (elim (holds_platform_permission S subject check.permission) [
        | none ↦ err check_error
        | some held ↦ rest >>= (λ items. ok ((check, some held) ∷ items))
      ])
      else if has_resource check
      then (rest >>= (λ items. ok ((check, none) ∷ items)))
      else err (bad_resource check.resource)

  -- `CheckPermissions`: the checks of the request, in order, with their answers.
  unfoldable pub check_permissions :
      S.authorizer.State
      → Option Uuid
      → List Check
      → Result Rejection (List (Check × Bool)) × S.authorizer.State
  unfolding sort_request fill waiting
  check_permissions s none checks = (err unauthenticated, s)
  check_permissions s (some subject) [] = (err no_checks, s)
  check_permissions s (some subject) (check ∷ checks) =
      elim (sort_request subject (check ∷ checks)) [
        | err e ↦ (err e, s)
        | ok items ↦
            let (result, s') = S.authorizer.authorize s subject (waiting items) in
            (filled_by items result, s')
      ]
