-- ===== src/Model/Authorization.antt =====
-- The queries of internal/model/authorization.go over the tables.
pub mod Policies
use platform_orchestrator_ia.Prelude.{
  ℕ, zero, suc, ◌+◌, String, ◌=~◌, ◌<>◌, starts_with, Uuid, Bool, true, false, not, ◌&&◌, ◌||◌,
  Option, none, some, List, [], ◌∷◌, ◌++◌, map, any, all, length, select, concat_map, ltb, ◌==◌,
  if◌then◌else◌,
}
use platform_orchestrator_ia.Model.{
  Time, Membership, Role, ServiceUserRole, AuthorizationResource, PluginCapability, Db,
  bound_resource,
}

pub record AuthorizationPolicy : Type 0 where
  pub subject_id : Uuid
  pub resource : String
  pub permission : String
  pub role_id : Uuid

pub record AuthorizationResourceRelation : Type 0 where
  pub resource : String
  pub parent_resource : String

pub record AuthorizationPermissionCheck : Type 0 where
  pub resource : String
  pub permission : String

pub record EffectiveRoleBinding : Type 0 where
  pub subject_id : Uuid
  pub role_id : Uuid
  pub display_name : String
  pub permissions : List String
  pub scope : String

-- `serviceUserActive`: no static token, or one that has not expired.
abbrev pub service_user_active : Time → Option Time → Bool
service_user_active now none = true
service_user_active now (some expires_at) = ltb now expires_at

-- `IsAuthorizationSubjectActive`: `count(*) = 1 AND bool_and(subject.active)` over both tables.
unfoldable pub is_authorization_subject_active : Time → Db → Uuid → Bool
is_authorization_subject_active now db subject_id =
    let active =
      map (λ u. true) (select (λ u. u.id == subject_id) db.users)
      ++ map (λ t. service_user_active now t.current_token_expires_at)
          (select (λ t. t.id == subject_id) db.service_user_tokens) in
    length active == 1 && all (λ b. b) active

-- `JOIN roles r ON r.id = role AND r.org_id = org_id`.
abbrev pub joined_roles : List Role → Uuid → String → List Role
joined_roles roles role_id org_id = select (λ r. r.id == role_id && r.org_id =~ org_id) roles

-- The roles of a membership: only those with the subject type "role" and a role.
abbrev pub membership_roles : List Role → Membership → List Role
membership_roles roles m =
    if m.subject_type =~ "role"
    then elim m.role [ none ↦ [] | some role_id ↦ joined_roles roles role_id m.org_id ]
    else []

-- `CROSS JOIN LATERAL unnest(r.permissions)`.
abbrev pub role_policies : Uuid → String → Role → List AuthorizationPolicy
role_policies subject_id resource r =
    map
      (λ permission. record {
        subject_id = subject_id;
        resource = resource;
        permission = permission;
        role_id = r.id;
      })
      r.permissions

pub membership_policies : List Role → Membership → List AuthorizationPolicy
membership_policies roles m =
    concat_map (role_policies m.user_id (bound_resource m.org_id m.scope))
      (membership_roles roles m)

pub service_user_policies : List Role → ServiceUserRole → List AuthorizationPolicy
service_user_policies roles s =
    concat_map (role_policies s.service_user_id (bound_resource s.org_id s.scope))
      (joined_roles roles s.role_id s.org_id)

-- `ListAuthorizationPolicies`.
unfoldable pub list_authorization_policies : Db → List AuthorizationPolicy
unfolding membership_policies service_user_policies
list_authorization_policies db =
    concat_map (membership_policies db.roles) db.memberships
    ++ concat_map (service_user_policies db.roles) db.service_user_roles

abbrev pub resource_relation : AuthorizationResource → List AuthorizationResourceRelation
resource_relation r = elim r.parent_resource [
  | none ↦ []
  | some parent ↦ record { resource = r.resource; parent_resource = parent } ∷ []
]

-- `ListAuthorizationResourceRelations`: the rows whose parent is not null.
unfoldable pub list_authorization_resource_relations : Db → List AuthorizationResourceRelation
list_authorization_resource_relations db = concat_map resource_relation db.authorization_resources

-- `CASE resource_type WHEN 'env' THEN 'environment' ELSE resource_type END`.
abbrev scope_name : String → String
scope_name resource_type = if resource_type =~ "env" then "environment" else resource_type

-- The two `EXISTS` of `ListKnownAuthorizationPermissions`, for one joined resource.
known_on_resource : Db → AuthorizationPermissionCheck → AuthorizationResource → Bool
known_on_resource db check r =
    (starts_with check.permission "plugin."
      && any
          (λ c.
            c.org_id =~ r.org_id
            && c.id =~ check.permission
            && any (λ scope. scope_name r.resource_type =~ scope) c.scopes)
          db.plugin_capabilities)
    || (not (starts_with check.permission "plugin.")
        && any
            (λ role. role.org_id =~ r.org_id && any (λ p. check.permission =~ p) role.permissions)
            db.roles)

unfoldable pub is_known_permission : Db → AuthorizationPermissionCheck → Bool
unfolding known_on_resource
is_known_permission db check =
    any (λ r. r.resource =~ check.resource && known_on_resource db check r)
      db.authorization_resources

-- `ListKnownAuthorizationPermissions`; the callers read the result as a set, so that the rows which
-- `DISTINCT` drops are kept.
unfoldable pub list_known_authorization_permissions :
    Db → List AuthorizationPermissionCheck → List AuthorizationPermissionCheck
unfolding is_known_permission
list_known_authorization_permissions db checks = select (is_known_permission db) checks

-- `UpsertAuthorizationResource`: the row with that name is overwritten, or a new one is added.
unfoldable pub upsert_resource :
    AuthorizationResource → List AuthorizationResource → List AuthorizationResource
upsert_resource new [] = new ∷ []
upsert_resource new (r ∷ rs) =
    if r.resource =~ new.resource then new ∷ rs else r ∷ upsert_resource new rs

-- The parents of the rows: `JOIN authorization_resources parent ON parent.resource = a.parent_resource`.
abbrev pub parents_of :
    List AuthorizationResource → AuthorizationResource → List AuthorizationResource
parents_of resources a = elim a.parent_resource [
  | none ↦ []
  | some parent ↦ select (λ r. r.resource =~ parent) resources
]

-- The recursive query `ancestors`, for the rows of one depth and the depths that are left.
pub ancestors :
    List AuthorizationResource → ℕ → List AuthorizationResource → List AuthorizationResource
ancestors resources zero rows = rows
ancestors resources (suc left) rows =
    rows ++ ancestors resources left (concat_map (parents_of resources) rows)

abbrev pub max_authorization_resource_depth : ℕ
max_authorization_resource_depth = 3

-- `effective_scopes`: the ancestors' names, and the resource itself.
unfoldable pub effective_scopes : List AuthorizationResource → String → List String
unfolding ancestors
effective_scopes resources resource =
    map (λ (r : AuthorizationResource). r.resource)
      (ancestors resources max_authorization_resource_depth
        (select (λ r. r.resource =~ resource) resources))
    ++ (resource ∷ [])

abbrev pub role_binding : Uuid → String → Role → EffectiveRoleBinding
role_binding subject_id scope r = record {
  subject_id = subject_id;
  role_id = r.id;
  display_name = r.display_name;
  permissions = r.permissions;
  scope = scope;
}

abbrev pub in_scopes : List String → String → Bool
in_scopes scopes scope = any (λ s. s =~ scope) scopes

-- `ListEffectiveRoleBindings`.
unfoldable pub list_effective_role_bindings : Db → String → List EffectiveRoleBinding
unfolding effective_scopes
list_effective_role_bindings db resource =
    let scopes = effective_scopes db.authorization_resources resource in
    concat_map
      (λ (m : Membership).
        map (role_binding m.user_id (bound_resource m.org_id m.scope))
          (membership_roles db.roles m))
      (select (λ m. in_scopes scopes (bound_resource m.org_id m.scope)) db.memberships)
    ++ concat_map
        (λ (s : ServiceUserRole).
          map (role_binding s.service_user_id (bound_resource s.org_id s.scope))
            (joined_roles db.roles s.role_id s.org_id))
        (select (λ s. in_scopes scopes (bound_resource s.org_id s.scope)) db.service_user_roles)
