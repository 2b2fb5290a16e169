-- ===== src/Authz/Permissions.antt =====
-- The permission identifiers of shared/authz/permissions.go, each a constant of that file.
use Prim.Native.String.{String}

abbrev pub organization_read : String
organization_read = "organization_read"

abbrev pub invitation_read : String
invitation_read = "invitation_read"

abbrev pub invitation_write : String
invitation_write = "invitation_write"

abbrev pub membership_read : String
membership_read = "membership_read"

abbrev pub membership_write : String
membership_write = "membership_write"

abbrev pub role_read : String
role_read = "role_read"

abbrev pub role_write : String
role_write = "role_write"

abbrev pub service_user_read : String
service_user_read = "service_user_read"

abbrev pub service_user_write : String
service_user_write = "service_user_write"

abbrev pub plugin_registration_write : String
plugin_registration_write = "plugin_registration_write"

abbrev pub project_read : String
project_read = "project_read"

abbrev pub project_write : String
project_write = "project_write"

abbrev pub environment_read : String
environment_read = "environment_read"

abbrev pub environment_write : String
environment_write = "environment_write"

abbrev pub environment_type_read : String
environment_type_read = "environment_type_read"

abbrev pub environment_type_write : String
environment_type_write = "environment_type_write"

abbrev pub module_read : String
module_read = "module_read"

abbrev pub module_write : String
module_write = "module_write"

abbrev pub module_provider_read : String
module_provider_read = "module_provider_read"

abbrev pub module_provider_write : String
module_provider_write = "module_provider_write"

abbrev pub module_rule_read : String
module_rule_read = "module_rule_read"

abbrev pub module_rule_write : String
module_rule_write = "module_rule_write"

abbrev pub module_core_read : String
module_core_read = "module.read"

abbrev pub module_archive : String
module_archive = "module.archive"

abbrev pub module_version_read : String
module_version_read = "module.version.read"

abbrev pub module_version_publish : String
module_version_publish = "module.version.publish"

abbrev pub module_version_promote : String
module_version_promote = "module.version.promote"

abbrev pub module_version_deprecate : String
module_version_deprecate = "module.version.deprecate"

abbrev pub module_version_defective : String
module_version_defective = "module.version.mark-defective"

abbrev pub module_version_restore : String
module_version_restore = "module.version.restore"

abbrev pub module_use_proposed : String
module_use_proposed = "module.version.use-proposed"

abbrev pub module_version_pin : String
module_version_pin = "module.version.pin"

abbrev pub module_version_pin_note : String
module_version_pin_note = "module.version.pin-note"

abbrev pub module_version_unpin : String
module_version_unpin = "module.version.unpin"

abbrev pub module_version_pin_override : String
module_version_pin_override = "module.version.pin-override"

abbrev pub module_version_pin_restore : String
module_version_pin_restore = "module.version.pin-restore"

abbrev pub module_pin_defective : String
module_pin_defective = "module.version.pin-defective"

abbrev pub module_rollback_restricted : String
module_rollback_restricted = "module.version.rollback-restricted"

abbrev pub resource_type_read : String
resource_type_read = "resource_type_read"

abbrev pub resource_type_write : String
resource_type_write = "resource_type_write"

abbrev pub runner_read : String
runner_read = "runner_read"

abbrev pub runner_write : String
runner_write = "runner_write"

abbrev pub runner_rule_read : String
runner_rule_read = "runner_rule_read"

abbrev pub runner_rule_write : String
runner_rule_write = "runner_rule_write"

abbrev pub active_resource_read : String
active_resource_read = "active_resource_read"

abbrev pub deployment_read : String
deployment_read = "deployment_read"

abbrev pub deployment_write : String
deployment_write = "deployment_write"

abbrev pub deployment_debug_read : String
deployment_debug_read = "deployment_debug_read"

abbrev pub deployment_outcome_ack : String
deployment_outcome_ack = "deployment.outcome.acknowledge"

abbrev pub metadata_key_read : String
metadata_key_read = "metadata_key_read"

abbrev pub metadata_key_write : String
metadata_key_write = "metadata_key_write"

abbrev pub resource_graph_read : String
resource_graph_read = "resource_graph_read"

abbrev pub provisioning_read : String
provisioning_read = "provisioning_read"

abbrev pub provisioning_write : String
provisioning_write = "provisioning_write"

abbrev pub plugin_workload_binding_write : String
plugin_workload_binding_write = "plugin_workload_binding_write"

abbrev pub plugin_manager_read : String
plugin_manager_read = "plugin_manager_read"

abbrev pub plugin_manager_write : String
plugin_manager_write = "plugin_manager_write"

-- The resource of a platform-level check.
abbrev pub platform_resource : String
platform_resource = "platform"
