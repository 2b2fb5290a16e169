-- ===== src/Authz/Catalog.antt =====
-- The permission catalogue: `permissionCatalog` of shared/authz/permissions.go.
use platform_orchestrator_ia.Prelude.{String, List, [], ◌∷◌}
use platform_orchestrator_ia.Authz.Permissions.{
  active_resource_read, deployment_debug_read, deployment_outcome_ack, deployment_read,
  deployment_write, environment_read, environment_type_read, environment_type_write,
  environment_write, invitation_read, invitation_write, membership_read, membership_write,
  metadata_key_read, metadata_key_write, module_archive, module_core_read, module_pin_defective,
  module_provider_read, module_provider_write, module_read, module_rollback_restricted,
  module_rule_read, module_rule_write, module_use_proposed, module_version_defective,
  module_version_deprecate, module_version_pin, module_version_pin_note,
  module_version_pin_override, module_version_pin_restore, module_version_promote,
  module_version_publish, module_version_read, module_version_restore, module_version_unpin,
  module_write, organization_read, plugin_registration_write, project_read, project_write,
  provisioning_read, provisioning_write, resource_graph_read, resource_type_read,
  resource_type_write, role_read, role_write, runner_read, runner_rule_read, runner_rule_write,
  runner_write, service_user_read, service_user_write,
}

pub data PermissionLevel : Type 0 where
  read write manage : PermissionLevel

pub data PermissionScope : Type 0 where
  organization project environment : PermissionScope

pub record PermissionDefinition : Type 0 where
  pub id : String
  pub display_name : String
  pub description : String
  pub category : String
  pub level : PermissionLevel
  pub scopes : List PermissionScope

abbrev organization_scope : List PermissionScope
organization_scope = organization ∷ []

abbrev all_scopes : List PermissionScope
all_scopes = organization ∷ project ∷ environment ∷ []

-- A row of the table, in the order of the fields.
abbrev row :
    String
    → String
    → String
    → String
    → PermissionLevel
    → List PermissionScope
    → PermissionDefinition
row id display_name description category level scopes = record {
  id = id;
  display_name = display_name;
  description = description;
  category = category;
  level = level;
  scopes = scopes;
}

unfoldable pub permission_catalog : List PermissionDefinition
permission_catalog =
    row organization_read "View organization" "View organization details." "Organization" read
      organization_scope
    ∷ row invitation_read "View invitations" "List pending organization invitations." "Access" read
        organization_scope
    ∷ row invitation_write "Manage invitations"
        "Create, inspect, and revoke organization invitations." "Access" manage organization_scope
    ∷ row membership_read "View memberships" "View members and effective access assignments."
        "Access" read all_scopes
    ∷ row membership_write "Manage memberships" "Assign, replace, and remove member roles." "Access"
        manage organization_scope
    ∷ row role_read "View roles" "View built-in and configurable roles." "Access" read
        organization_scope
    ∷ row role_write "Manage roles" "Create, update, and delete configurable roles." "Access" manage
        organization_scope
    ∷ row service_user_read "View service users" "View service users and their role assignments."
        "Access" read organization_scope
    ∷ row service_user_write "Manage service users"
        "Create, update, delete, and rotate credentials for service users." "Access" manage
        organization_scope
    ∷ row plugin_registration_write "Register plugin capabilities"
        "Replace the human-role capability catalog for installed plugins." "Access" manage
        organization_scope
    ∷ row project_read "View projects" "View projects and their configuration."
        "Projects and environments" read all_scopes
    ∷ row project_write "Manage projects" "Create, update, and delete projects."
        "Projects and environments" manage all_scopes
    ∷ row environment_read "View environments" "View environments and their configuration."
        "Projects and environments" read all_scopes
    ∷ row environment_write "Manage environments" "Create, update, and delete environments."
        "Projects and environments" manage all_scopes
    ∷ row environment_type_read "View environment types" "View organization environment types."
        "Projects and environments" read organization_scope
    ∷ row environment_type_write "Manage environment types"
        "Create, update, and delete organization environment types." "Projects and environments"
        manage organization_scope
    ∷ row module_read "View modules" "View modules and module versions." "Modules" read
        organization_scope
    ∷ row module_write "Manage modules" "Create, update, and delete modules." "Modules" manage
        organization_scope
    ∷ row module_provider_read "View module providers" "View module providers." "Modules" read
        organization_scope
    ∷ row module_provider_write "Manage module providers"
        "Create, update, and delete module providers." "Modules" manage organization_scope
    ∷ row module_rule_read "View module rules" "View module selection rules." "Modules" read
        organization_scope
    ∷ row module_rule_write "Manage module rules" "Create and delete module selection rules."
        "Modules" manage organization_scope
    ∷ row module_core_read "View module catalogue"
        "View stable module identities and catalogue metadata." "Module version management" read
        organization_scope
    ∷ row module_archive "Archive modules" "Archive and reactivate shared module catalogue entries."
        "Module version management" manage organization_scope
    ∷ row module_version_read "View module versions"
        "View immutable module versions, lifecycle history, usage, and adoption."
        "Module version management" read organization_scope
    ∷ row module_version_publish "Publish module versions"
        "Publish immutable Proposed module versions." "Module version management" write
        organization_scope
    ∷ row module_version_promote "Promote module versions"
        "Promote an eligible Proposed module version to Default." "Module version management" manage
        organization_scope
    ∷ row module_version_deprecate "Deprecate module versions"
        "Stop new adoption of a Proposed or Default module version." "Module version management"
        manage organization_scope
    ∷ row module_version_defective "Mark module versions defective"
        "Mark an unsafe module version Defective." "Module version management" manage
        organization_scope
    ∷ row module_version_restore "Restore module defaults"
        "Restore the immediately preceding Deprecated Default version." "Module version management"
        manage organization_scope
    ∷ row module_use_proposed "Use Proposed module versions"
        "Explicitly select a Proposed module version for a deployment." "Module version management"
        write all_scopes
    ∷ row module_version_pin "Pin module versions"
        "Pin the exact module version active in an environment." "Module version management" write
        all_scopes
    ∷ row module_version_pin_note "Annotate module-version Pins"
        "Append immutable notes to protected module-version Pins without changing their state."
        "Module version management" write all_scopes
    ∷ row module_version_unpin "Unpin module versions"
        "Remove or permanently discard an environment module-version Pin."
        "Module version management" write all_scopes
    ∷ row module_version_pin_override "Override module-version Pins"
        "Begin and reconcile an operation-bound Pin override without granting direct Unpin rights."
        "Module version management" manage all_scopes
    ∷ row module_version_pin_restore "Restore module-version Pins"
        "Restore an overridden Pin after an authorised operation completes or rolls back."
        "Module version management" manage all_scopes
    ∷ row module_pin_defective "Pin Defective module versions"
        "Explicitly preserve a Defective version with exact confirmation."
        "Module version management" manage all_scopes
    ∷ row module_rollback_restricted "Use restricted rollback versions"
        "Use Deprecated or Defective versions through an authorised rollback."
        "Module version management" manage all_scopes
    ∷ row resource_type_read "View resource types" "View available and configured resource types."
        "Resources" read organization_scope
    ∷ row resource_type_write "Manage resource types" "Create, update, and delete resource types."
        "Resources" manage organization_scope
    ∷ row runner_read "View runners" "View runners and their configuration." "Runners" read
        organization_scope
    ∷ row runner_write "Manage runners" "Create, update, delete, and assign runners." "Runners"
        manage organization_scope
    ∷ row runner_rule_read "View runner rules" "View runner selection rules." "Runners" read
        organization_scope
    ∷ row runner_rule_write "Manage runner rules" "Create and delete runner selection rules."
        "Runners" manage organization_scope
    ∷ row active_resource_read "View active resources" "View active resources in the organization."
        "Deployments" read all_scopes
    ∷ row deployment_read "View deployments"
        "View deployments, logs, outputs, and calculated differences." "Deployments" read all_scopes
    ∷ row deployment_write "Create deployments" "Create deployments and wait for their completion."
        "Deployments" write all_scopes
    ∷ row deployment_debug_read "View deployment debug data"
        "View generated deployment infrastructure code." "Deployments" manage organization_scope
    ∷ row deployment_outcome_ack "Acknowledge deployment outcomes"
        "Record, with a reason, that a failed plugin-dispatched deployment left no running work so the environment can deploy again."
        "Deployments" manage all_scopes
    ∷ row metadata_key_read "View metadata keys" "View deployment metadata key definitions."
        "Deployments" read organization_scope
    ∷ row metadata_key_write "Manage metadata keys"
        "Create, update, and delete deployment metadata key definitions." "Deployments" manage
        organization_scope
    ∷ row resource_graph_read "View resource graphs" "View resources produced by deployments."
        "Deployments" read all_scopes
    ∷ row provisioning_read "View provisioning"
        "Read SCIM provisioning resources (users and groups)." "Provisioning" read
        organization_scope
    ∷ row provisioning_write "Manage provisioning"
        "Create, update, and delete SCIM-provisioned users and groups." "Provisioning" manage
        organization_scope
    ∷ []
