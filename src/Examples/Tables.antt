-- ===== src/Examples/Tables.antt =====
-- A small state of the tables: an organization, a project in it, one administrator of the
-- organization, and what the authorizer answers there.
use platform_orchestrator_ia.Prelude.{String, ◌≡◌, refl, false, Option, none, some, List, [], ◌∷◌}
use platform_orchestrator_ia.Model.{Role, Membership, Db}
use platform_orchestrator_ia.Model.Authorization.{
  AuthorizationPolicy, list_authorization_policies, list_authorization_resource_relations,
  list_known_authorization_permissions,
}
use platform_orchestrator_ia.Engine.Policy.{load_policy}
use platform_orchestrator_ia.Engine.Authorize.{Check}
use platform_orchestrator_ia.Examples.Packages.{uuids, casbin}

abbrev pub operator : Role
operator = record {
  builtin_key = "";
  id = 1;
  org_id = "acme";
  display_name = "Operator";
  created_at = 0;
  created_by = 0;
  permissions = "read" ∷ "deploy" ∷ [];
  is_system = false;
}

abbrev pub member : Membership
member = record {
  id = 7;
  created_at = 0;
  user_id = 2;
  org_id = "acme";
  subject_type = "role";
  subject = "Operator";
  role = some 1;
  scope = "";
}

abbrev pub tables : Db
tables = record {
  users =
      record {
        id = 2;
        display_name = "Ada";
        primary_email_address = none;
        last_logged_in_at = none;
      }
      ∷ [];
  service_user_tokens = [];
  memberships = member ∷ [];
  roles = operator ∷ [];
  service_user_roles = [];
  authorization_resources =
      record {
        resource = "organization:acme";
        resource_type = "organization";
        resource_id = "acme";
        org_id = "acme";
        parent_resource = none;
      }
      ∷ record {
        resource = "project:shop";
        resource_type = "project";
        resource_id = "shop";
        org_id = "acme";
        parent_resource = some "organization:acme";
      }
      ∷ [];
  plugin_capabilities = [];
  session_tokens = [];
  plugin_workload_bindings = [];
  plugin_workload_tokens = [];
  device_login_requests = [];
  invitations = [];
  scim_users = [];
  scim_group_members = [];
}

abbrev pub policies : List AuthorizationPolicy
policies =
    record { subject_id = 2; resource = "organization:acme"; permission = "read"; role_id = 1 }
    ∷ record { subject_id = 2; resource = "organization:acme"; permission = "deploy"; role_id = 1 }
    ∷ []

pub policies_lem : list_authorization_policies tables ≡ policies
unfolding list_authorization_policies
policies_lem = refl

abbrev pub checks : List Check
checks =
    record { resource = "project:shop"; permission = "deploy" }
    ∷ record { resource = "org:acme"; permission = "write" }
    ∷ record { resource = "project:shop"; permission = "destroy" }
    ∷ []

abbrev pub rules : List (List String)
rules =
    ("g2" ∷ "project:shop" ∷ "organization:acme" ∷ [])
    ∷ ("p" ∷ "role:a@organization:acme" ∷ "organization:acme" ∷ "deploy" ∷ [])
    ∷ ("p" ∷ "role:a@organization:acme" ∷ "organization:acme" ∷ "read" ∷ [])
    ∷ ("g" ∷ "aa" ∷ "role:a@organization:acme" ∷ [])
    ∷ []

pub loaded :
    load_policy casbin uuids
      (list_authorization_policies tables)
      (list_authorization_resource_relations tables)
    ≡ some rules
unfolding load_policy list_authorization_policies list_authorization_resource_relations
loaded = refl

abbrev pub list_known : List Check → Option (List Check)
list_known checks = some (list_known_authorization_permissions tables checks)
