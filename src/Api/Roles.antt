-- ===== src/Api/Roles.antt =====
-- internal/api/roles.go.
pub mod Validate
pub mod System
use platform_orchestrator_ia.Prelude.{
  String, ◌=~◌, ◌<>◌, ℕ, Uuid, Bool, true, false, not, Option, none, some, List, [], ◌∷◌, map,
  select, if◌then◌else◌,
}
use platform_orchestrator_ia.Prelude.Result.{Result, ok, err}
use platform_orchestrator_ia.Authz.Permissions.{role_read, role_write}
use platform_orchestrator_ia.Shared.UserId.{internal_system_uuid}
use platform_orchestrator_ia.Model.{Time, Role, AuthorizationResource, PluginCapability, Db}
use platform_orchestrator_ia.Model.Authorization.{upsert_resource}
use platform_orchestrator_ia.Model.Store.{
  DbError, Failure, Handler, Done, done, ◌>>=◌, return, fail, require, call, query, transaction,
}
use platform_orchestrator_ia.Model.Roles
use Validate.{RoleWriteBody, validate_role_write}

-- What a handler meets besides the store: the authenticated user, the answer of
-- `checkOrgAuthorization` (`none` is its error), new identifiers, the time, and whether
-- `reloadAuthorizationPolicy` succeeds.
pub record Environment : Type 0 where
  pub user : Option Uuid
  pub check_org_authorization : Uuid → String → String → Option Bool
  pub new_id : ℕ → Uuid
  pub now : Time
  pub reloads : Bool

abbrev pub missing_or_internal : DbError → Failure
missing_or_internal DbError.not_found = Failure.missing
missing_or_internal _ = Failure.internal

abbrev pub conflicting_or_internal : DbError → Failure
conflicting_or_internal DbError.conflict = Failure.conflicting
conflicting_or_internal _ = Failure.internal

abbrev pub always_internal : DbError → Failure
always_internal _ = Failure.internal

-- `Database.ListPluginCapabilities`, of which the handlers use the identifiers.
abbrev pub list_plugin_capability_ids : String → Db → Result DbError (List String)
list_plugin_capability_ids org_id db = ok (
    map (λ (c : PluginCapability). c.id)
      (select (λ (c : PluginCapability). c.org_id =~ org_id) db.plugin_capabilities))

-- `Database.UpsertAuthorizationResource`.
abbrev pub put_resource : AuthorizationResource → Db → Result DbError (Done × Db)
put_resource r db =
    ok (done, record db { authorization_resources = upsert_resource r db.authorization_resources })

abbrev pub organization_resource : String → AuthorizationResource
organization_resource org_id = record {
  resource = "organization:" <> org_id;
  resource_type = "organization";
  resource_id = org_id;
  org_id = org_id;
  parent_resource = none;
}

-- The response to a user's error.
abbrev pub or_bad_request {ℓ} : {A : Type ℓ} → Option A → Handler A
or_bad_request none = fail Failure.bad_request
or_bad_request (some a) = return a

module _ (E : Environment) where
  -- The guard that the handlers start with.
  abbrev pub guard : String → String → Handler Uuid
  guard org_id permission = elim E.user [
    | none ↦ fail Failure.unauthorized
    | some user ↦ elim (E.check_org_authorization user org_id permission) [
      | none ↦ fail Failure.internal
      | some allowed ↦ if allowed then return user else fail Failure.forbidden
    ]
  ]

  -- `validateRoleWriteForOrg`, with the response to a user's error.
  abbrev pub validate_for_org : String → Option RoleWriteBody → Handler (String × List String)
  validate_for_org org_id body =
      query (list_plugin_capability_ids org_id) always_internal
      >>= (λ plugin_permissions. or_bad_request (validate_role_write body plugin_permissions))

  -- `reloadAuthorizationPolicy`, and the response.
  abbrev pub finish {ℓ} : {A : Type ℓ} → A → Handler A
  finish a = if E.reloads then return a else fail Failure.internal

  -- `GetRole`.
  unfoldable pub get_role : String → Uuid → Handler Role
  get_role org_id role_id = do
    user ← guard org_id role_read
    query (Roles.get_role org_id role_id) missing_or_internal

  -- The row that `CreateRole` adds.
  abbrev pub created : Uuid → String → String × List String → Role
  created user org_id valid = record {
    builtin_key = "";
    id = E.new_id 0;
    org_id = org_id;
    display_name = valid.0;
    created_at = E.now;
    created_by = user;
    permissions = valid.1;
    is_system = false;
  }

  -- `CreateRole`.
  unfoldable pub create_role : String → Option RoleWriteBody → Handler Role
  create_role org_id body = do
    user ← guard org_id role_write
    valid ← validate_for_org org_id body
    role ← call (Roles.create_role (created user org_id valid)) conflicting_or_internal
    finish role

  -- The row that `UpdateRole` writes.
  abbrev pub edited : Role → String × List String → Role
  edited existing valid = record {
    builtin_key = existing.builtin_key;
    id = existing.id;
    org_id = existing.org_id;
    display_name = valid.0;
    created_at = existing.created_at;
    created_by = existing.created_by;
    permissions = valid.1;
    is_system = existing.is_system;
  }

  -- `UpdateRole`. A role that vanished in between is a returned error.
  unfoldable pub update_role : String → Uuid → Option RoleWriteBody → Handler Role
  update_role org_id role_id body = do
    user ← guard org_id role_write
    existing ← query (Roles.get_role org_id role_id) missing_or_internal
    mutable ← require (not existing.is_system) Failure.conflicting
    valid ← validate_for_org org_id body
    updated ← call (Roles.update_role (edited existing valid)) conflicting_or_internal
    finish updated

  -- `DeleteRole`.
  unfoldable pub delete_role : String → Uuid → Handler Done
  delete_role org_id role_id = do
    user ← guard org_id role_write
    existing ← query (Roles.get_role org_id role_id) missing_or_internal
    mutable ← require (not existing.is_system) Failure.conflicting
    deleted ← call (Roles.delete_role org_id role_id) conflicting_or_internal
    finish deleted

  abbrev pub builtin : ℕ → String → String → String → Role
  builtin n key name permission = record {
    builtin_key = key;
    id = E.new_id n;
    org_id = "";
    display_name = name;
    created_at = E.now;
    created_by = internal_system_uuid;
    permissions = permission ∷ [];
    is_system = true;
  }

  abbrev pub builtin_roles : List Role
  builtin_roles =
      builtin 0 "admin" "Admin" "manage_all"
      ∷ builtin 1 "deployer" "Deployer" "write_all"
      ∷ builtin 2 "viewer" "Viewer" "read_all"
      ∷ []

  -- `SeedBuiltinOrgRoles`.
  unfoldable pub seed_builtin_org_roles : String → Handler (List Role)
  seed_builtin_org_roles org_id = do
    seeded ← call (Roles.seed_roles org_id builtin_roles) always_internal
    put ← call (put_resource (organization_resource org_id)) always_internal
    return builtin_roles

  -- `listOrSeedRoles`.
  unfoldable pub list_or_seed_roles : String → Handler (List Role)
  unfolding seed_builtin_org_roles
  list_or_seed_roles org_id = do
    roles ← query (Roles.list_roles org_id) always_internal
    elim roles [ [] ↦ seed_builtin_org_roles org_id | r ∷ rs ↦ return (r ∷ rs) ]

  -- `ListRoles`.
  unfoldable pub list_roles : String → Handler (List Role)
  unfolding list_or_seed_roles
  list_roles org_id = do user ← guard org_id role_read; transaction (list_or_seed_roles org_id)
