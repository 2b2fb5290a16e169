-- ===== src/Model.antt =====
-- The PostgreSQL tables that internal/model reads and writes, as lists of rows. A time is a number
-- of nanoseconds.
pub mod Authorization
pub mod Store
pub mod Roles
pub mod Memberships
pub mod SessionTokens
pub mod PluginWorkload
pub mod ServiceUsers
pub mod Users
pub mod DeviceLogins
pub mod Invitations
pub mod ScimUsers
use platform_orchestrator_ia.Prelude.{
  String, ◌=~◌, ◌<>◌, Bool, Option, List, ℕ, Uuid, if◌then◌else◌,
}

abbrev pub Time : Type 0
Time = ℕ

-- The bytes of a hash, one character each.
abbrev pub Bytes : Type 0
Bytes = String

-- A row of `memberships`: the struct `Membership`.
pub record Membership : Type 0 where
  pub id : Uuid
  pub created_at : Time
  pub user_id : Uuid
  pub org_id : String
  pub subject_type : String
  pub subject : String
  pub role : Option Uuid
  pub scope : String

-- A row of `roles`: the struct `Role`.
pub record Role : Type 0 where
  pub builtin_key : String
  pub id : Uuid
  pub org_id : String
  pub display_name : String
  pub created_at : Time
  pub created_by : Uuid
  pub permissions : List String
  pub is_system : Bool

-- A row of `service_user_roles`: the struct `ServiceUserRole`.
pub record ServiceUserRole : Type 0 where
  pub service_user_id : Uuid
  pub role_id : Uuid
  pub org_id : String
  pub created_at : Time
  pub scope : String

-- A row of `authorization_resources`: the struct `AuthorizationResource`.
pub record AuthorizationResource : Type 0 where
  pub resource : String
  pub resource_type : String
  pub resource_id : String
  pub org_id : String
  pub parent_resource : Option String

-- The columns of `users` that the queries read and write.
pub record User : Type 0 where
  pub id : Uuid
  pub display_name : String
  pub primary_email_address : Option String
  pub last_logged_in_at : Option Time

-- A row of `service_user_tokens`. The organization is null for a platform principal, and the expiry
-- and the hash for one that holds no static token.
pub record ServiceUserToken : Type 0 where
  pub id : Uuid
  pub org_id : Option String
  pub scope : String
  pub display_name : String
  pub generated_at : Time
  pub generated_by : Uuid
  pub current_token_expires_at : Option Time
  pub current_token_sha256_hash : Option Bytes

-- A row of `session_tokens`: the struct `SessionToken`.
pub record SessionToken : Type 0 where
  pub sha256_hash : Bytes
  pub provider : String
  pub user_id : Uuid
  pub created_at : Time
  pub expires_at : Time
  pub client_ip : Option String
  pub client_city : Option String
  pub client_region : Option String

-- A row of `plugin_workload_bindings`.
pub record WorkloadBinding : Type 0 where
  pub id : Uuid
  pub issuer : String
  pub namespace : String
  pub service_account : String
  pub audience : String
  pub service_user_id : Uuid
  pub plugin_id : String
  pub installation_id : Uuid
  pub created_at : Time
  pub created_by : Uuid

-- A row of `plugin_workload_tokens`.
pub record WorkloadToken : Type 0 where
  pub sha256_hash : Bytes
  pub binding_id : Uuid
  pub issued_at : Time
  pub expires_at : Time

-- A row of `device_login_requests`: the struct `DeviceLoginRequest`.
pub record DeviceLoginRequest : Type 0 where
  pub id : Uuid
  pub verification_code_hash : Bytes
  pub created_at : Time
  pub expires_at : Time
  pub user_agent : String
  pub polling_token_hash : Bytes
  pub decision : Option String
  pub decided_by : Option Uuid
  pub client_ip : Option String
  pub client_city : Option String
  pub client_region : Option String

-- The columns of `plugin_capabilities` that these queries read.
pub record PluginCapability : Type 0 where
  pub org_id : String
  pub id : String
  pub scopes : List String

-- A row of `invitations`. The names of its creator are joined by the reads.
pub record InvitationRow : Type 0 where
  pub id : Uuid
  pub org_id : String
  pub created_at : Time
  pub expires_at : Time
  pub created_by : Uuid
  pub redemption_token_hash : Bytes
  pub email_address : String
  pub membership_subject_type : String
  pub membership_subject : String

-- A row of `scim_users`: the struct `ScimUser`.
pub record ScimUser : Type 0 where
  pub id : Uuid
  pub org_id : String
  pub user_id : Uuid
  pub user_name : String
  pub external_id : Option String
  pub active : Bool
  pub created_at : Time
  pub updated_at : Time
  pub deleted_at : Option Time

-- A row of `scim_group_members`.
pub record ScimGroupMember : Type 0 where
  pub group_id : Uuid
  pub org_id : String
  pub scim_user_id : Uuid

pub record Db : Type 0 where
  pub users : List User
  pub service_user_tokens : List ServiceUserToken
  pub memberships : List Membership
  pub roles : List Role
  pub service_user_roles : List ServiceUserRole
  pub authorization_resources : List AuthorizationResource
  pub plugin_capabilities : List PluginCapability
  pub session_tokens : List SessionToken
  pub plugin_workload_bindings : List WorkloadBinding
  pub plugin_workload_tokens : List WorkloadToken
  pub device_login_requests : List DeviceLoginRequest
  pub invitations : List InvitationRow
  pub scim_users : List ScimUser
  pub scim_group_members : List ScimGroupMember

-- `CASE WHEN scope = '' THEN 'organization:' || org_id ELSE scope END`, the resource that a role
-- binding is held on.
abbrev pub bound_resource : String → String → String
bound_resource org_id scope = if scope =~ "" then "organization:" <> org_id else scope
