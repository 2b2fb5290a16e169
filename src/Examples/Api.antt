-- ===== src/Examples/Api.antt =====
-- The properties of the handlers and of the helpers at concrete inputs.
use mathlib.Core.List.Memᴰ
use platform_orchestrator_ia.Prelude.{
  String, ◌≡◌, ◌≢◌, ◌↔◌, ◌⊎◌, ◌/◌, ap, refl, sym, ◌∙◌, Bool, true, false, none, some, List, [], ◌∷◌,
  Memᴰ, All, Lacks, length, arith, cut, inl, inr,
}
use platform_orchestrator_ia.Model.{Role}
use platform_orchestrator_ia.Model.Authorization.{
  is_known_permission, list_known_authorization_permissions,
}
use platform_orchestrator_ia.Model.Store.{Session}
use platform_orchestrator_ia.Authz.{find_permission}
use platform_orchestrator_ia.Engine.Match.{match_texts, is_custom_permission}
use platform_orchestrator_ia.Engine.Resource.{normalize_resource, parse_resource}
use platform_orchestrator_ia.Engine.Cache.{bounded_get, bounded_set}
use platform_orchestrator_ia.Engine.Authorize.{Check, authorize}
use platform_orchestrator_ia.Engine.Authorize.Known.{Agrees}
use platform_orchestrator_ia.Shared.UserId.{
  byte_6, is_human_user, is_service_user, new_human_user_id, new_service_user_token_id,
  new_ids_disjoint,
}
use platform_orchestrator_ia.Shared.Pagination.{generate, parse, generate-parse}
use platform_orchestrator_ia.Api.Server.{Server, casbin_authorizer, casbin_authorizer-IsAuthorizer}
use platform_orchestrator_ia.Api.Authorize.{internal_authorize_inner}
use platform_orchestrator_ia.Api.Authorize.Sorting.{Splits, Active, Permitted}
use platform_orchestrator_ia.Api.Authorize.Failing.{internal_authorize_inner-Splits}
use platform_orchestrator_ia.Api.Roles.{Environment, create_role, update_role, delete_role}
use platform_orchestrator_ia.Api.Roles.System.{IsKeyed, system_roles_kept}
use platform_orchestrator_ia.Prelude.{◌<>◌, Uuid}
use platform_orchestrator_ia.Prelude.Result.{ok}
use platform_orchestrator_ia.Shared.UserId.{internal_system_uuid}
use platform_orchestrator_ia.Api.Guards.{
  passed, check_org_authorization, check_user_id_self_authorization,
}
use platform_orchestrator_ia.Api.Guards.Admits.{
  check_org_authorization_admits, self_authorization_iff,
}
use platform_orchestrator_ia.Prelude.{◌==◌, any}
use platform_orchestrator_ia.Model.{Membership}
use platform_orchestrator_ia.Model.Store.{done}
use platform_orchestrator_ia.Model.Memberships.{
  create_membership, get_membership, delete_memberships_by_ids, role_exists, with_memberships,
}
use platform_orchestrator_ia.Model.Memberships.Laws.{create-get, delete_memberships_by_ids_iff}
use platform_orchestrator_ia.Prelude.{◌≤◌}
use platform_orchestrator_ia.Authz.{is_assignable_role_permission}
use platform_orchestrator_ia.Api.Roles.Validate.{
  RoleWriteBody, trim_space, byte_length, validate_role_write,
}
use platform_orchestrator_ia.Api.Roles.Validate.Permissions.{Identifier, Assignable}
use platform_orchestrator_ia.Api.Roles.Validate.Laws.{validate_role_write_sound}
use platform_orchestrator_ia.Examples.Packages.{uuids, ccache, casbin}
use platform_orchestrator_ia.Examples.Tables.{member, operator, tables, rules, list_known}
use platform_orchestrator_ia.Examples.Engine.{setting, nothing_cached}

abbrev server : Server
server = record {
  authorizer = casbin_authorizer ccache casbin uuids list_known rules;
  platform_permission_holders = λ permission. 2 ∷ [];
  is_authorization_subject_active = λ subject. some true;
  plugin_workload_bound = λ subject. some false;
}

abbrev asked_checks : List Check
asked_checks =
    record { resource = "platform"; permission = "plugin_manager_write" }
    ∷ record { resource = "project:shop"; permission = "deploy" }
    ∷ record { resource = "project:shop"; permission = "write" }
    ∷ record { resource = "app:shop"; permission = "read" }
    ∷ []

abbrev failed_checks : List Check
failed_checks =
    record { resource = "app:shop"; permission = "read" }
    ∷ record { resource = "project:shop"; permission = "write" }
    ∷ []

abbrev cached : List (String × Bool)
cached = ("permission$$project:shop$$deploy", true) ∷ []

authorize_run :
    internal_authorize_inner server [] 2 asked_checks ≡ (some (false, failed_checks), cached)
unfolding internal_authorize_inner authorize match_texts is_custom_permission bounded_get
    bounded_set is_known_permission normalize_resource parse_resource cut find_permission
    list_known_authorization_permissions is_service_user
authorize_run = refl

internal_authorize_inner-Splits_example :
    Splits (λ c. Active server tables 2 × Permitted server tables 2 c) asked_checks failed_checks
    × ((false ≡ true) ↔ (Active server tables 2 × (failed_checks ≡ [])))
    × Agrees (is_known_permission tables) ccache cached
internal_authorize_inner-Splits_example =
    internal_authorize_inner-Splits server tables 2 (Agrees (is_known_permission tables) ccache)
      (casbin_authorizer-IsAuthorizer ccache casbin uuids tables rules list_known setting) [] cached
      asked_checks failed_checks false nothing_cached
      (omega arith, (omega arith, (omega arith, (omega arith, tt)))) authorize_run

abbrev admin : Role
admin = record {
  builtin_key = "admin";
  id = 9;
  org_id = "acme";
  display_name = "Admin";
  created_at = 0;
  created_by = 0;
  permissions = "manage_all" ∷ [];
  is_system = true;
}

abbrev session : Session
session = record {
  tables = record {
    users = [];
    service_user_tokens = [];
    memberships = [];
    roles = operator ∷ admin ∷ [];
    service_user_roles = [];
    authorization_resources = [];
    plugin_capabilities = [];
    session_tokens = [];
    plugin_workload_bindings = [];
    plugin_workload_tokens = [];
    device_login_requests = [];
    invitations = [];
    scim_users = [];
    scim_group_members = [];
  };
  faults = false ∷ false ∷ true ∷ [];
}

abbrev environment : Environment
environment = record {
  user = some 2;
  check_org_authorization = λ user org_id permission. some true;
  new_id = λ n. 20;
  now = 0;
  reloads = true;
}

keyed : IsKeyed session.tables
keyed a b m m' id org = elim (row a m) [
  | inl ea ↦ elim (row b m') [
    | inl eb ↦ ea ∙ sym eb
    | inr eb ↦ absurd (ground (arith, ap (λ r. r.id) ea, ap (λ r. r.id) eb))
  ]
  | inr ea ↦ elim (row b m') [
    | inl eb ↦ absurd (ground (arith, ap (λ r. r.id) ea, ap (λ r. r.id) eb))
    | inr eb ↦ ea ∙ sym eb
  ]
]
  where
    row : (r : Role) → Memᴰ r session.tables.roles → (r ≡ operator) ⊎ (r ≡ admin)
    row r m = elim (Memᴰ.cases_cons m) [
      | inl e ↦ inl e
      | inr n ↦ elim (Memᴰ.cases_cons n) [ inl e ↦ inr e | inr k ↦ elim k [ ] ]
    ]

system_roles_kept_example :
    Memᴰ admin (create_role environment "acme" none session).1.tables.roles
    × Memᴰ admin (update_role environment "acme" 9 none session).1.tables.roles
    × Memᴰ admin (delete_role environment "acme" 9 session).1.tables.roles
system_roles_kept_example =
    system_roles_kept environment admin session "acme" 9 none keyed refl
      (Memᴰ.tail (Memᴰ.head refl))

new_ids_disjoint_example :
    (is_human_user (new_human_user_id 33056565380087516495872) ≡ true)
    × (is_service_user (new_human_user_id 33056565380087516495872) ≡ false)
    × (is_human_user (new_service_user_token_id 33056565380087516495872) ≡ false)
    × (is_service_user (new_service_user_token_id 33056565380087516495872) ≡ true)
    × (byte_6 (new_human_user_id 33056565380087516495872) / 16
        ≡ byte_6 33056565380087516495872 / 16)
    × (byte_6 (new_service_user_token_id 33056565380087516495872) / 16
        ≡ byte_6 33056565380087516495872 / 16)
new_ids_disjoint_example = new_ids_disjoint 33056565380087516495872

generate-parse_example :
    ((parts : List String)
      → length parts ≡ 2
      → All (Lacks b',') parts
      → (token : String) × (generate 2 parts ≡ some token) × (parse 2 token ≡ some parts))
    × ((token : String) (parts : List String)
        → parse 2 token ≡ some parts
        → (length parts ≡ 2) × (token ≢ "" → generate 2 parts ≡ some token))
generate-parse_example = generate-parse 2

acme_run : check_org_authorization server [] 2 "acme" "read" ≡ (ok passed, [])
unfolding check_org_authorization internal_authorize_inner authorize match_texts
    is_custom_permission bounded_get bounded_set is_known_permission normalize_resource
    parse_resource cut find_permission list_known_authorization_permissions
acme_run = refl

check_org_authorization_admits_example :
    (2 ≡ internal_system_uuid)
    ⊎ (Active server tables 2
        × Permitted server tables 2
            (record { resource = "organization:" <> "acme"; permission = "read" }))
check_org_authorization_admits_example =
    check_org_authorization_admits server tables (Agrees (is_known_permission tables) ccache)
      (casbin_authorizer-IsAuthorizer ccache casbin uuids tables rules list_known setting) 2 [] []
      "acme" "read" nothing_cached (omega arith) acme_run

abbrev person : Uuid
person = 4722366482869645213696

self_authorization_iff_example :
    (check_user_id_self_authorization person 7 ≡ ok passed)
    ↔ ((person ≡ internal_system_uuid) ⊎ ((is_human_user person ≡ true) × (person ≡ 7)))
self_authorization_iff_example = self_authorization_iff person 7

abbrev second : Membership
second = record {
  id = 8;
  created_at = 1;
  user_id = 2;
  org_id = "acme";
  subject_type = "role";
  subject = "a";
  role = some 1;
  scope = "project:shop";
}

create_run :
    create_membership second tables ≡ ok (second, with_memberships tables (member ∷ second ∷ []))
unfolding create_membership
create_run = refl

create-get_example :
    (second ≡ second)
    × (get_membership 8 (with_memberships tables (member ∷ second ∷ [])) ≡ ok second)
    × (role_exists second tables ≡ true)
    × ((q : Membership) → Memᴰ q (member ∷ []) → Memᴰ q (member ∷ second ∷ []))
create-get_example =
    create-get second second tables (with_memberships tables (member ∷ second ∷ [])) create_run

delete_run :
    delete_memberships_by_ids "globex" (7 ∷ []) tables
    ≡ ok (done, with_memberships tables (member ∷ []))
unfolding delete_memberships_by_ids
delete_run = refl

delete_memberships_by_ids_iff_example : Memᴰ member (member ∷ []) ↔ (
    Memᴰ member (member ∷ [])
    × (member.org_id ≡ "globex" → any (λ id. id == member.id) (7 ∷ []) ≡ false))
delete_memberships_by_ids_iff_example =
    delete_memberships_by_ids_iff "globex" (7 ∷ []) tables (with_memberships tables (member ∷ []))
      done member delete_run

abbrev body : RoleWriteBody
body = record {
  display_name = " Release managers ";
  permissions = "shop.deploy" ∷ "read" ∷ "shop.deploy" ∷ [];
}

validate_run :
    validate_role_write (some body) ("shop.deploy" ∷ [])
    ≡ some ("Release managers", "read" ∷ "shop.deploy" ∷ [])
unfolding validate_role_write is_assignable_role_permission find_permission
validate_run = refl

validate_role_write_sound_example :
    ("Release managers" ≡ trim_space " Release managers ")
    × (2 ≤ byte_length "Release managers")
    × (byte_length "Release managers" ≤ 100)
    × (◌≢◌ {A = String} "Release managers" "Admin")
    × (◌≢◌ {A = String} "Release managers" "Deployer")
    × (◌≢◌ {A = String} "Release managers" "Viewer")
    × (¬ (body.permissions ≡ []))
    × ((p : String) → Memᴰ p ("read" ∷ "shop.deploy" ∷ []) ↔ Memᴰ p body.permissions)
    × ((p : String)
        → Memᴰ p ("read" ∷ "shop.deploy" ∷ [])
        → Identifier p × Assignable ("shop.deploy" ∷ []) p)
validate_role_write_sound_example =
    validate_role_write_sound body ("shop.deploy" ∷ []) ("read" ∷ "shop.deploy" ∷ [])
      "Release managers" validate_run
