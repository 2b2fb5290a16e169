-- ===== src/Model/ServiceUsers.antt =====
-- internal/model/service_user_tokens.go and service_user_roles.go over the tables, with their
-- constraints: an identifier is given once; a role row names a role of its organization and a service
-- user of it, and is given once in a scope. The expiry and the hash are set for the service users of
-- an organization. The listing by pages is left out.
use platform_orchestrator_ia.Prelude.{
  ℕ, String, ◌=~◌, ◌==◌, ltb, Uuid, Bool, true, false, not, ◌&&◌, ◌||◌, Option, none, some, List,
  [], ◌∷◌, ◌++◌, length, map, any, select, first, if◌then◌else◌,
}
use platform_orchestrator_ia.Prelude.Result.{Result, ok, err, ◌>>=◌}
use platform_orchestrator_ia.Model.{
  Time, Bytes, ServiceUserToken, ServiceUserRole, WorkloadBinding, WorkloadToken, Db,
}
use platform_orchestrator_ia.Model.Store.{DbError, Done, done}
use platform_orchestrator_ia.Model.PluginWorkload.{is_org}
use platform_orchestrator_ia.Model.Roles.{is_role}

-- `ServiceUserToken` of Go: the organization is empty where the column is null. Of the roles, the reads
-- return the identifiers.
pub record ServiceUser : Type 0 where
  pub id : Uuid
  pub org_id : String
  pub display_name : String
  pub generated_at : Time
  pub generated_by : Uuid
  pub current_token_expires_at : Time
  pub current_token_sha256_hash : Bytes
  pub service_user_roles : List Uuid

-- The row of `CreateServiceUserToken`.
abbrev pub organization_row : String → ServiceUser → ServiceUserToken
organization_row org_id u = record {
  id = u.id;
  org_id = some org_id;
  scope = "organization";
  display_name = u.display_name;
  generated_at = u.generated_at;
  generated_by = u.generated_by;
  current_token_expires_at = some u.current_token_expires_at;
  current_token_sha256_hash = some u.current_token_sha256_hash;
}

abbrev pub has_id : Uuid → ServiceUserToken → Bool
has_id id t = t.id == id

-- `CreateServiceUserToken`, for a name that is not blank.
unfoldable pub create_service_user_token :
    String → ServiceUser → Db → Result DbError (ServiceUser × Db)
create_service_user_token org_id u db =
    if any (has_id u.id) db.service_user_tokens
      || not (ltb u.generated_at u.current_token_expires_at)
    then err DbError.failed
    else ok (
      u,
      record db {
        service_user_tokens = db.service_user_tokens ++ (organization_row org_id u ∷ []);
      },
    )

-- The `LEFT JOIN` of the roles, which does not compare the organization.
abbrev pub role_ids : Db → Uuid → List Uuid
role_ids db id =
    map (λ (r : ServiceUserRole). r.role_id)
      (select (λ (r : ServiceUserRole). r.service_user_id == id) db.service_user_roles)

-- `Scan` of a row: a null expiry does not fit the field.
abbrev pub scan_service_user : Db → Bytes → ServiceUserToken → Result DbError ServiceUser
scan_service_user db hash t = elim t.current_token_expires_at [
  | none ↦ err DbError.failed
  | some expires_at ↦ ok (record {
    id = t.id;
    org_id = elim t.org_id [ none ↦ "" | some org_id ↦ org_id ];
    display_name = t.display_name;
    generated_at = t.generated_at;
    generated_by = t.generated_by;
    current_token_expires_at = expires_at;
    current_token_sha256_hash = hash;
    service_user_roles = role_ids db t.id;
  })
]

abbrev pub hash_of : ServiceUserToken → Bytes
hash_of t = elim t.current_token_sha256_hash [ none ↦ "" | some hash ↦ hash ]

-- `GetServiceUserToken`.
unfoldable pub get_service_user_token : Uuid → Db → Result DbError ServiceUser
get_service_user_token id db =
    elim (first (λ (t : ServiceUserToken). t.id == id && t.scope =~ "organization")
      db.service_user_tokens) [
        | none ↦ err DbError.not_found
        | some t ↦ scan_service_user db (hash_of t) t
      ]

abbrev pub has_token_hash : Bytes → ServiceUserToken → Bool
has_token_hash hash t = elim t.current_token_sha256_hash [ none ↦ false | some h ↦ h =~ hash ]

-- `GetServiceUserTokenByHash`.
unfoldable pub get_service_user_token_by_hash : Bytes → Db → Result DbError ServiceUser
get_service_user_token_by_hash hash db = elim (first (has_token_hash hash) db.service_user_tokens) [
  | none ↦ err DbError.not_found
  | some t ↦ scan_service_user db hash t
]

-- `UpdateServiceUserToken`. No row to return is an error of another kind than not found.
unfoldable pub update_service_user_token : ServiceUser → Db → Result DbError (ServiceUser × Db)
update_service_user_token u db =
    if any (has_id u.id) db.service_user_tokens && ltb u.generated_at u.current_token_expires_at
    then ok (
      u,
      record db {
        service_user_tokens =
            map
              (λ (t : ServiceUserToken).
                if has_id u.id t
                then record t {
                  display_name = u.display_name;
                  generated_at = u.generated_at;
                  generated_by = u.generated_by;
                  current_token_expires_at = some u.current_token_expires_at;
                  current_token_sha256_hash = some u.current_token_sha256_hash;
                }
                else t)
              db.service_user_tokens;
      },
    )
    else err DbError.failed

abbrev pub in_org : String → Uuid → ServiceUserToken → Bool
in_org org_id id t = is_org org_id t.org_id && has_id id t

-- What goes with a service user by `ON DELETE CASCADE`: its roles, its binding, and the tokens of
-- that.
abbrev pub without_service_user : Uuid → Db → Db
without_service_user id db = record db {
  service_user_tokens = select (λ (t : ServiceUserToken). not (has_id id t)) db.service_user_tokens;
  service_user_roles =
      select (λ (r : ServiceUserRole). not (r.service_user_id == id)) db.service_user_roles;
  plugin_workload_bindings =
      select (λ (b : WorkloadBinding). not (b.service_user_id == id)) db.plugin_workload_bindings;
  plugin_workload_tokens =
      select
        (λ (t : WorkloadToken). not (
          any (λ (b : WorkloadBinding). b.id == t.binding_id && b.service_user_id == id)
            db.plugin_workload_bindings))
        db.plugin_workload_tokens;
}

-- `DeleteServiceUserToken`.
unfoldable pub delete_service_user_token : String → Uuid → Db → Result DbError (Done × Db)
delete_service_user_token org_id id db =
    if any (in_org org_id id) db.service_user_tokens
    then ok (done, without_service_user id db)
    else err DbError.not_found

-- `BulkExpireAllServiceUserTokens`, with the number of rows.
unfoldable pub bulk_expire_all_service_user_tokens : Time → String → Db → Result DbError (ℕ × Db)
bulk_expire_all_service_user_tokens now org_id db = ok (
  length (select (λ (t : ServiceUserToken). is_org org_id t.org_id) db.service_user_tokens),
  record db {
    service_user_tokens =
        map
          (λ (t : ServiceUserToken).
            if is_org org_id t.org_id then record t { current_token_expires_at = some now } else t)
          db.service_user_tokens;
  },
)

-- The primary key of `service_user_roles`.
abbrev pub same_role : ServiceUserRole → ServiceUserRole → Bool
same_role a b =
    a.org_id =~ b.org_id
    && a.service_user_id == b.service_user_id
    && a.role_id == b.role_id
    && a.scope =~ b.scope

-- One row of the `INSERT`, which all rows of a statement share the fate of.
pub insert_role : ServiceUserRole → Db → Result DbError Db
insert_role r db =
    if any (same_role r) db.service_user_roles
    then err DbError.conflict
    else if not (any (is_role r.org_id r.role_id) db.roles)
    then err DbError.not_found
    else if any (in_org r.org_id r.service_user_id) db.service_user_tokens
    then ok (record db { service_user_roles = db.service_user_roles ++ (r ∷ []) })
    else err DbError.failed

pub insert_roles : List ServiceUserRole → Db → Result DbError Db
insert_roles [] db = ok db
insert_roles (r ∷ rs) db = do db' ← insert_role r db; insert_roles rs db'

-- `CreateServiceUserRoles`.
unfoldable pub create_service_user_roles : List ServiceUserRole → Db → Result DbError (Done × Db)
unfolding insert_roles insert_role
create_service_user_roles rs db = do db' ← insert_roles rs db; ok (done, db')

-- A filter that applies where it is given.
abbrev pub given_id : Option Uuid → Uuid → Bool
given_id none id = true
given_id (some wanted) id = id == wanted

abbrev pub given_text : Option String → String → Bool
given_text none text = true
given_text (some wanted) text = text =~ wanted

-- `ListServiceUserRoles`, as the database reads the condition: `AND` binds tighter than `OR`, so that
-- the service user would be compared only where the organization is null, which it is not. The tables hold the rows in the
-- order of their creation.
unfoldable pub list_service_user_roles :
    Option String → Option Uuid → Db → Result DbError (List ServiceUserRole)
list_service_user_roles none service_user db = err DbError.failed
list_service_user_roles (some org_id) service_user db = ok (
    select
      (λ (r : ServiceUserRole).
        r.org_id =~ org_id || (false && given_id service_user r.service_user_id))
      db.service_user_roles)

-- `BulkDeleteServiceUserRolesParams`.
pub record BulkDeleteServiceUserRolesParams : Type 0 where
  pub service_user_id : Option Uuid
  pub org_id : Option String
  pub scope : Option String

abbrev pub selected : BulkDeleteServiceUserRolesParams → ServiceUserRole → Bool
selected p r =
    given_id p.service_user_id r.service_user_id
    && given_text p.org_id r.org_id
    && given_text p.scope r.scope

-- `BulkDeleteServiceUserRoles`, with the number of rows.
unfoldable pub bulk_delete_service_user_roles :
    BulkDeleteServiceUserRolesParams → Db → Result DbError (ℕ × Db)
bulk_delete_service_user_roles p db = ok (
  length (select (selected p) db.service_user_roles),
  record db {
    service_user_roles = select (λ (r : ServiceUserRole). not (selected p r)) db.service_user_roles;
  },
)
