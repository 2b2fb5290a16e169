-- ===== src/Api/Authorize.antt =====
-- internal/api/authorize.go and auth.go, and `holdsPlatformPermission` of plugin_workload.go.
pub mod Sorting
pub mod Failing
use platform_orchestrator_ia.Prelude.{
  ℕ, String, ◌=~◌, ◌<>◌, ◌==◌, Uuid, Bool, true, false, not, Option, none, some, List, [], ◌∷◌,
  ◌++◌, map, any, if◌then◌else◌,
}
use platform_orchestrator_ia.Prelude.Result.{Result, ok, err}
use platform_orchestrator_ia.Authz.Permissions.{platform_resource}
use platform_orchestrator_ia.Shared.UserId.{internal_system_uuid, is_human_user, is_service_user}
use platform_orchestrator_ia.Engine.Resource.{parse_resource}
use platform_orchestrator_ia.Engine.Authorize.{Check, Answer, AuthorizeError}
use platform_orchestrator_ia.Api.Server.{Server}

infixl 5 ◌>>=◌
abbrev pub ◌>>=◌ {ℓ κ} : {A : Type ℓ} {B : Type κ} → Option A → (A → Option B) → Option B
none >>= f = none
some a >>= f = f a

-- The requests that a response reports as failed, after those of the answers that were refused; an
-- answer with no request is an index out of range.
pub refused : List Answer → List Check → List Check
refused [] originals = []
refused (a ∷ answers) [] = []
refused (a ∷ answers) (original ∷ originals) =
    let rest = refused answers originals in if a.allowed then rest else original ∷ rest

-- The check as `Authorize` gets it: "member" is "read".
abbrev pub normalize_permission : Check → Check
normalize_permission check = record {
  resource = check.resource;
  permission = if check.permission =~ "member" then "read" else check.permission;
}

-- Whether `ParseResource` returns no error.
abbrev pub has_resource : Check → Bool
has_resource check = elim (parse_resource check.resource) [ ok _ ↦ true | err _ ↦ false ]

abbrev pub refused_of : Result AuthorizeError (List Answer) → List Check → Option (List Check)
refused_of (err _) originals = none
refused_of (ok answers) originals = some (refused answers originals)

abbrev pub is_empty : List Check → Bool
is_empty [] = true
is_empty (check ∷ checks) = false

-- The last statement of `InternalAuthorizeInner`: `len(failedChecks) == 0, failedChecks, nil`.
abbrev pub conclude {ℓ} :
    {State : Type ℓ} → Option (List Check) × State → Option (Bool × List Check) × State
conclude (answer, s) = (answer >>= (λ failed. some (is_empty failed, failed)), s)

module _ (S : Server) where
  -- `isPluginWorkload`.
  unfoldable pub is_plugin_workload : Uuid → Option Bool
  is_plugin_workload principal =
      if is_service_user principal then S.plugin_workload_bound principal else some false

  -- `holdsPlatformPermission`.
  unfoldable pub holds_platform_permission : Uuid → String → Option Bool
  unfolding is_plugin_workload
  holds_platform_permission subject permission =
      if any (λ holder. holder == subject) (S.platform_permission_holders permission)
      then (do
        active ← S.is_authorization_subject_active subject
        if active then (is_plugin_workload subject >>= (λ bound. some (not bound))) else some false)
      else some false

  -- The loop over `body.Checks`: the checks that failed already, and those that `Authorize` gets.
  pub sort_checks : Uuid → List Check → Option (List Check × List Check)
  sort_checks subject [] = some ([], [])
  sort_checks subject (check ∷ checks) =
      let rest = sort_checks subject checks in
      if check.resource =~ platform_resource
      then (do
        held ← holds_platform_permission subject check.permission
        (failed, valid) ← rest
        some (if held then (failed, valid) else (check ∷ failed, valid)))
      else (do
        (failed, valid) ← rest
        some (if has_resource check then (failed, check ∷ valid) else (check ∷ failed, valid)))

  -- The call of `Authorize`, where there is a check for it.
  pub ask : S.authorizer.State → Uuid → List Check → Option (List Check) × S.authorizer.State
  ask s subject [] = (some [], s)
  ask s subject (check ∷ valid) =
      let (result, s') =
        S.authorizer.authorize s subject (map normalize_permission (check ∷ valid)) in
      (refused_of result (check ∷ valid), s')

  -- After the subject was found active: the failed checks in the order of the code.
  pub authorize_active :
      S.authorizer.State → Uuid → List Check → Option (List Check) × S.authorizer.State
  authorize_active s subject checks = elim (sort_checks subject checks) [
    | none ↦ (none, s)
    | some (failed, valid) ↦
        let (more, s') = ask s subject valid in (more >>= (λ m. some (failed ++ m)), s')
  ]

  -- `InternalAuthorizeInner`: whether all checks passed, and those that failed; `none` is an error.
  unfoldable pub internal_authorize_inner :
      S.authorizer.State → Uuid → List Check → Option (Bool × List Check) × S.authorizer.State
  unfolding authorize_active ask sort_checks holds_platform_permission refused
  internal_authorize_inner s subject checks =
      let result = conclude (authorize_active s subject checks) in
      if subject == internal_system_uuid
      then result
      else (elim (S.is_authorization_subject_active subject) [
        | none ↦ (none, s)
        | some active ↦ if active then result else (some (false, checks), s)
      ])
