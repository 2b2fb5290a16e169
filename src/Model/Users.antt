-- ===== src/Model/Users.antt =====
-- The reads and the update of users of internal/model/users.go over the tables. The identities and
-- the dismissed prompts are left out.
use platform_orchestrator_ia.Prelude.{
  ◌==◌, Uuid, Bool, none, some, List, map, any, select, first, if◌then◌else◌,
}
use platform_orchestrator_ia.Prelude.Result.{Result, ok, err}
use platform_orchestrator_ia.Model.{User, Db}
use platform_orchestrator_ia.Model.Store.{DbError}

abbrev pub is_user : Uuid → User → Bool
is_user id u = u.id == id

-- `GetUser`.
unfoldable pub get_user : Uuid → Db → Result DbError User
get_user id db = elim (first (is_user id) db.users) [ none ↦ err DbError.not_found | some u ↦ ok u ]

-- `GetUsersByIds`.
unfoldable pub get_users_by_ids : List Uuid → Db → Result DbError (List User)
get_users_by_ids ids db = ok (select (λ (u : User). any (λ id. id == u.id) ids) db.users)

-- `UpdateUser`.
unfoldable pub update_user : User → Db → Result DbError (User × Db)
update_user request db =
    if any (is_user request.id) db.users
    then ok (
      request,
      record db {
        users =
            map
              (λ (u : User).
                if is_user request.id u
                then record u {
                  display_name = request.display_name;
                  last_logged_in_at = request.last_logged_in_at;
                  primary_email_address = request.primary_email_address;
                }
                else u)
              db.users;
      },
    )
    else err DbError.not_found
