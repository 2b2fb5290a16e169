-- ===== src/Shared/Checks.antt =====
-- shared/authz/authz.go: the checks that other services build.
use mathlib.Core.Path.{subst}
use platform_orchestrator_ia.Prelude.{String, ◌<>◌, ◌≡◌, ◌≢◌, refl, UuidText, Uuid, cut}
use platform_orchestrator_ia.Prelude.Result.{ok}
use platform_orchestrator_ia.Authz.Permissions.{platform_resource}
use platform_orchestrator_ia.Engine.Authorize.{Check}
use platform_orchestrator_ia.Engine.Resource.{normalize_resource, normalize_typed}

-- `OrgCheck`.
abbrev pub org_check : String → String → Check
org_check org_id permission = record {
  resource = "organization:" <> org_id;
  permission = permission;
}

-- `PlatformCheck`.
abbrev pub platform_check : String → Check
platform_check permission = record { resource = platform_resource; permission = permission }

abbrev pub can_read_org_check : String → Check
can_read_org_check org_id = org_check org_id "read"

abbrev pub can_manage_org_check : String → Check
can_manage_org_check org_id = org_check org_id "manage"

abbrev pub can_write_org_check : String → Check
can_write_org_check org_id = org_check org_id "write"

platform_fails : ¬ (normalize_resource platform_resource ≡ ok platform_resource)
unfolding normalize_resource cut
platform_fails e = cc

module _ (U : UuidText) where
  -- `ProjectCheck`.
  abbrev pub project_check : Uuid → String → Check
  project_check project_uuid permission = record {
    resource = "project:" <> U.to_string project_uuid;
    permission = permission;
  }

  -- `EnvironmentCheck`.
  abbrev pub environment_check : Uuid → String → Check
  environment_check env_uuid permission = record {
    resource = "env:" <> U.to_string env_uuid;
    permission = permission;
  }

  abbrev pub can_manage_project_check : Uuid → Check
  can_manage_project_check id = project_check id "manage"

  abbrev pub can_write_project_check : Uuid → Check
  can_write_project_check id = project_check id "write"

  abbrev pub can_read_project_check : Uuid → Check
  can_read_project_check id = project_check id "read"

  abbrev pub can_manage_environment_check : Uuid → Check
  can_manage_environment_check id = environment_check id "manage"

  abbrev pub can_write_environment_check : Uuid → Check
  can_write_environment_check id = environment_check id "write"

  abbrev pub can_read_environment_check : Uuid → Check
  can_read_environment_check id = environment_check id "read"

  -- A check of an organization, a project or an environment whose name is not empty is in normal
  -- form: the authorizer looks up the very resource of the check. An organization's check is never
  -- one of the platform.
  checks_normal :
      (org_id permission : String) (id : Uuid)
      → org_id ≢ ""
      → U.to_string id ≢ ""
      → (normalize_resource (org_check org_id permission).resource
          ≡ ok (org_check org_id permission).resource)
        × (normalize_resource (project_check id permission).resource
            ≡ ok (project_check id permission).resource)
        × (normalize_resource (environment_check id permission).resource
            ≡ ok (environment_check id permission).resource)
        × ((org_check org_id permission).resource ≢ platform_resource)
  checks_normal org_id permission id org some_id = (
    normalize_typed "organization" org_id refl org,
    normalize_typed "project" (U.to_string id) refl some_id,
    normalize_typed "env" (U.to_string id) refl some_id,
    λ e. platform_fails (
        subst (λ x. normalize_resource x ≡ ok x) e
          (normalize_typed "organization" org_id refl org)),
  )
