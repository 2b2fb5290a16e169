-- ===== src/Model/Roles.antt =====
-- internal/model/roles.go over the table of roles, with the constraints of its migrations: an
-- identifier is unique in an organization, and so is a display name; a role that a membership or a
-- service user holds cannot be deleted. The order of `ListRoles` and the rows that a deletion takes
-- with it in other tables are left out.
use platform_orchestrator_ia.Prelude.{
  String, ◌=~◌, ◌==◌, Uuid, Bool, false, not, ◌&&◌, ◌||◌, Option, none, some, List, [], ◌∷◌, ◌++◌,
  map, any, select, first, if◌then◌else◌,
}
use platform_orchestrator_ia.Prelude.Result.{Result, ok, err}
use platform_orchestrator_ia.Model.{Role, Membership, ServiceUserRole, Db}
use platform_orchestrator_ia.Model.Store.{DbError, Done, done}

abbrev pub with_roles : Db → List Role → Db
with_roles db roles = record db { roles = roles }

-- `WHERE id = $1 AND org_id = $2`.
abbrev pub is_role : String → Uuid → Role → Bool
is_role org_id id r = r.id == id && r.org_id =~ org_id

-- The columns that `GetRole` and `ListRoles` read.
abbrev pub without_key : Role → Role
without_key r = record {
  builtin_key = "";
  id = r.id;
  org_id = r.org_id;
  display_name = r.display_name;
  created_at = r.created_at;
  created_by = r.created_by;
  permissions = r.permissions;
  is_system = r.is_system;
}

-- `GetRole`.
unfoldable pub get_role : String → Uuid → Db → Result DbError Role
get_role org_id id db = elim (first (is_role org_id id) db.roles) [
  | none ↦ err DbError.not_found
  | some r ↦ ok (without_key r)
]

-- `ListRoles`.
unfoldable pub list_roles : String → Db → Result DbError (List Role)
list_roles org_id db = ok (map without_key (select (λ r. r.org_id =~ org_id) db.roles))

-- The constraints `unique_display_name` and `unique_roles`.
abbrev pub name_taken : Role → Role → Bool
name_taken new r = r.org_id =~ new.org_id && r.display_name =~ new.display_name

-- `CreateRole`. A clash of identifiers is another error.
unfoldable pub create_role : Role → Db → Result DbError (Role × Db)
create_role role db =
    if any (is_role role.org_id role.id) db.roles
    then err DbError.failed
    else if any (name_taken role) db.roles
    then err DbError.conflict
    else ok (role, with_roles db (db.roles ++ (role ∷ [])))

abbrev pub rewrite : Role → Role → Role
rewrite new r =
    if is_role new.org_id new.id r
    then record {
      builtin_key = r.builtin_key;
      id = r.id;
      org_id = r.org_id;
      display_name = new.display_name;
      created_at = r.created_at;
      created_by = r.created_by;
      permissions = new.permissions;
      is_system = r.is_system;
    }
    else r

-- What `UpdateRole` returns: the role that it was given, with the columns of the row.
abbrev pub returned : Role → Role → Role
returned new r = record {
  builtin_key = new.builtin_key;
  id = new.id;
  org_id = new.org_id;
  display_name = new.display_name;
  created_at = r.created_at;
  created_by = r.created_by;
  permissions = new.permissions;
  is_system = r.is_system;
}

-- `UpdateRole`: only the display name and the permissions change.
unfoldable pub update_role : Role → Db → Result DbError (Role × Db)
update_role new db = elim (first (is_role new.org_id new.id) db.roles) [
  | none ↦ err DbError.not_found
  | some r ↦
      if any (λ q. not (is_role new.org_id new.id q) && name_taken new q) db.roles
      then err DbError.conflict
      else ok (returned new r, with_roles db (map (rewrite new) db.roles))
]

-- The foreign keys that keep a role from being deleted.
abbrev pub is_assigned : String → Uuid → Db → Bool
is_assigned org_id id db =
    any
      (λ (m : Membership).
        m.org_id =~ org_id && (elim m.role [ none ↦ false | some role ↦ role == id ]))
      db.memberships
    || any (λ (s : ServiceUserRole). s.org_id =~ org_id && s.role_id == id) db.service_user_roles

-- `DeleteRole`.
unfoldable pub delete_role : String → Uuid → Db → Result DbError (Done × Db)
delete_role org_id id db =
    if any (is_role org_id id) db.roles
    then if is_assigned org_id id db
      then err DbError.conflict
      else ok (done, with_roles db (select (λ r. not (is_role org_id id r)) db.roles))
    else err DbError.not_found

-- `INSERT` of one seeded role; a clash of any constraint is an error.
abbrev pub seed_role : String → Role → Db → Option Db
seed_role org_id r db =
    let row : Role = record {
      builtin_key = r.builtin_key;
      id = r.id;
      org_id = org_id;
      display_name = r.display_name;
      created_at = r.created_at;
      created_by = r.created_by;
      permissions = r.permissions;
      is_system = r.is_system;
    } in
    if any (λ q. is_role org_id row.id q || name_taken row q) db.roles
    then none
    else some (with_roles db (db.roles ++ (row ∷ [])))

abbrev pub seed_each : String → List Role → Db → Option Db
seed_each org_id [] db = some db
seed_each org_id (r ∷ rs) db = elim (seed_role org_id r db) [
  | none ↦ none
  | some db' ↦ seed_each org_id rs db'
]

-- `SeedRoles`, one statement for all of them.
unfoldable pub seed_roles : String → List Role → Db → Result DbError (Done × Db)
seed_roles org_id [] db = err DbError.failed
seed_roles org_id (r ∷ rs) db = elim (seed_each org_id (r ∷ rs) db) [
  | none ↦ err DbError.failed
  | some db' ↦ ok (done, db')
]
