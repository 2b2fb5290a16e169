-- ===== src/Model/ScimUsers.antt =====
-- internal/model/scim_users.go over the tables: among the rows that are not deleted, a name, folded,
-- and a user are given once in an organization. The locks of the rows and the look-up by e-mail are
-- left out. `LOWER` of the database is a parameter.
pub mod Laws
use platform_orchestrator_ia.Prelude.{
  ℕ, zero, suc, String, ◌=~◌, ◌==◌, ltb, Uuid, Bool, true, false, not, ◌&&◌, ◌||◌, Option, none,
  some, List, [], ◌∷◌, ◌++◌, length, map, any, select, first, if◌then◌else◌,
}
use platform_orchestrator_ia.Prelude.Result.{Result, ok, err}
use platform_orchestrator_ia.Model.{Time, ScimUser, ScimGroupMember, User, Db}
use platform_orchestrator_ia.Model.Store.{DbError, Done, done}

abbrev pub is_set {ℓ} : {A : Type ℓ} → Option A → Bool
is_set none = false
is_set (some a) = true

-- `deleted_at IS NULL`.
abbrev pub is_live : ScimUser → Bool
is_live u = not (is_set u.deleted_at)

-- `Deprovisioned`.
abbrev pub deprovisioned : ScimUser → Bool
deprovisioned u = is_set u.deleted_at || not u.active

-- The live row of an organization and an identifier.
abbrev pub is_row : String → Uuid → ScimUser → Bool
is_row org_id id u = u.org_id =~ org_id && u.id == id && is_live u

-- `ErrNotFound` where no row is selected.
abbrev pub or_not_found {ℓ} : {A : Type ℓ} → Option A → Result DbError A
or_not_found none = err DbError.not_found
or_not_found (some a) = ok a

-- `GetScimUser`.
unfoldable pub get_scim_user : String → Uuid → Db → Result DbError ScimUser
get_scim_user org_id id db = or_not_found (first (is_row org_id id) db.scim_users)

-- `LockScimUser`, for the version that was read.
unfoldable pub lock_scim_user : String → Uuid → Time → Db → Result DbError Done
lock_scim_user org_id id expected_updated_at db = elim (first (is_row org_id id) db.scim_users) [
  | none ↦ err DbError.not_found
  | some u ↦ if u.updated_at == expected_updated_at then ok done else err DbError.conflict
]

-- The unique index on the users of an organization.
abbrev pub same_user : ScimUser → ScimUser → Bool
same_user u v = v.org_id =~ u.org_id && v.user_id == u.user_id && is_live v

-- `FindScimUserByExternalId`.
unfoldable pub find_scim_user_by_external_id : String → String → Db → Result DbError ScimUser
find_scim_user_by_external_id org_id external_id db = or_not_found (
    first
      (λ (u : ScimUser).
        u.org_id =~ org_id
        && (elim u.external_id [ none ↦ false | some e ↦ e =~ external_id ])
        && is_live u)
      db.scim_users)

abbrev pub in_org : String → ScimUser → Bool
in_org org_id u = u.org_id =~ org_id && is_live u

-- `GetScimUsersByIds`, where the tables hold the rows in the order of their identifiers.
unfoldable pub get_scim_users_by_ids : String → List Uuid → Db → Result DbError (List ScimUser)
get_scim_users_by_ids org_id ids db =
    ok (select (λ (u : ScimUser). in_org org_id u && any (λ id. id == u.id) ids) db.scim_users)

-- `LIMIT` and `OFFSET`.
pub skip : ℕ → List ScimUser → List ScimUser
skip zero us = us
skip (suc n) [] = []
skip (suc n) (u ∷ us) = skip n us

pub keep : ℕ → List ScimUser → List ScimUser
keep zero us = []
keep (suc n) [] = []
keep (suc n) (u ∷ us) = u ∷ keep n us

-- `ListScimUsers`, where the tables hold the rows in the order of their creation.
unfoldable pub list_scim_users : String → ℕ → ℕ → Db → Result DbError (List ScimUser)
unfolding skip keep
list_scim_users org_id limit offset db =
    ok (keep limit (skip offset (select (in_org org_id) db.scim_users)))

-- `CountLiveScimUsersForUser`.
unfoldable pub count_live_scim_users_for_user : Uuid → Db → Result DbError ℕ
count_live_scim_users_for_user user_id db =
    ok (length (select (λ (u : ScimUser). u.user_id == user_id && is_live u) db.scim_users))

-- `CountScimUsers`.
unfoldable pub count_scim_users : String → Db → Result DbError ℕ
count_scim_users org_id db = ok (length (select (in_org org_id) db.scim_users))

-- The row that `TombstoneScimUser` leaves.
abbrev pub tombstone : Time → String → Uuid → ScimUser → ScimUser
tombstone now org_id id u =
    if is_row org_id id u
    then record u { active = false; deleted_at = some now; updated_at = now }
    else u

-- `TombstoneScimUser`.
unfoldable pub tombstone_scim_user : Time → String → Uuid → Db → Result DbError (Done × Db)
tombstone_scim_user now org_id id db =
    if any (is_row org_id id) db.scim_users
    then ok (
      done,
      record db {
        scim_users = map (tombstone now org_id id) db.scim_users;
        scim_group_members =
            select (λ (m : ScimGroupMember). not (m.org_id =~ org_id && m.scim_user_id == id))
              db.scim_group_members;
      },
    )
    else err DbError.not_found

-- The rows of a user in an organization, the deleted ones included.
abbrev pub governs : String → Uuid → ScimUser → Bool
governs org_id user_id u = u.org_id =~ org_id && u.user_id == user_id

-- Whether a row comes before another one by `(deleted_at IS NULL) DESC, deleted_at DESC`.
abbrev pub sooner : Option Time → Option Time → Bool
sooner none none = false
sooner none (some b) = true
sooner (some a) none = false
sooner (some a) (some b) = ltb b a

-- The first row in that order, the earlier one of two that are equal.
pub foremost : ScimUser → List ScimUser → ScimUser
foremost best [] = best
foremost best (u ∷ us) = foremost (if sooner u.deleted_at best.deleted_at then u else best) us

unfoldable pub foremost_of : List ScimUser → Option ScimUser
unfolding foremost
foremost_of [] = none
foremost_of (u ∷ us) = some (foremost u us)

-- `FindScimUserByUserId`.
unfoldable pub find_scim_user_by_user_id : String → Uuid → Db → Result DbError ScimUser
unfolding foremost_of foremost
find_scim_user_by_user_id org_id user_id db =
    or_not_found (foremost_of (select (governs org_id user_id) db.scim_users))

module _ (lower : String → String) where
  -- The unique index on the names of an organization.
  abbrev pub same_name : ScimUser → ScimUser → Bool
  same_name u v = v.org_id =~ u.org_id && lower v.user_name =~ lower u.user_name && is_live v

  -- `CreateScimUser`, which writes no deletion.
  unfoldable pub create_scim_user : ScimUser → Db → Result DbError (Done × Db)
  create_scim_user u db =
      if any (λ (v : ScimUser). v.id == u.id) db.scim_users
        || not (any (λ (p : User). p.id == u.user_id) db.users)
      then err DbError.failed
      else if any (same_name u) db.scim_users || any (same_user u) db.scim_users
      then err DbError.conflict
      else ok
          (done, record db { scim_users = db.scim_users ++ (record u { deleted_at = none } ∷ []) })

  -- `FindScimUserByUserName`.
  unfoldable pub find_scim_user_by_user_name : String → String → Db → Result DbError ScimUser
  find_scim_user_by_user_name org_id user_name db = or_not_found (
      first
        (λ (u : ScimUser). u.org_id =~ org_id && lower u.user_name =~ lower user_name && is_live u)
        db.scim_users)

  -- The row that `UpdateScimUser` leaves.
  abbrev pub rewrite_user : ScimUser → ScimUser → ScimUser
  rewrite_user u v =
      if is_row u.org_id u.id v
      then record v {
        user_name = u.user_name;
        external_id = u.external_id;
        active = u.active;
        updated_at = u.updated_at;
      }
      else v

  -- `UpdateScimUser`.
  unfoldable pub update_scim_user : ScimUser → Db → Result DbError (Done × Db)
  update_scim_user u db =
      if not (any (is_row u.org_id u.id) db.scim_users)
      then err DbError.not_found
      else if any (λ (v : ScimUser). same_name u v && not (v.id == u.id)) db.scim_users
      then err DbError.conflict
      else ok (done, record db { scim_users = map (rewrite_user u) db.scim_users })
