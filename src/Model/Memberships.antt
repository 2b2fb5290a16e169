-- ===== src/Model/Memberships.antt =====
-- internal/model/memberships.go over the tables, with the constraints of its migrations: an identifier
-- is unique, a membership's role belongs to its organization, and a subject is given once in a scope.
pub mod Laws
pub mod Listing
pub mod Counting
use platform_orchestrator_ia.Prelude.{
  ℕ, String, ◌=~◌, ◌==◌, leb, Uuid, Bool, true, false, not, ◌&&◌, ◌||◌, Option, none, some, List,
  [], ◌∷◌, ◌++◌, map, any, select, first, concat_map, if◌then◌else◌,
}
use platform_orchestrator_ia.Prelude.Result.{Result, ok, err}
use platform_orchestrator_ia.Model.{Membership, User, Db}
use platform_orchestrator_ia.Model.Store.{DbError, Done, done}
use platform_orchestrator_ia.Model.Roles.{is_role}

abbrev pub with_memberships : Db → List Membership → Db
with_memberships db memberships = record db { memberships = memberships }

-- The foreign key `fk_memberships_role_org_id`, which a null role satisfies.
abbrev pub role_exists : Membership → Db → Bool
role_exists m db = elim m.role [ none ↦ true | some role ↦ any (is_role m.org_id role) db.roles ]

-- The constraint `unique_membership_scope`.
abbrev pub same_grant : Membership → Membership → Bool
same_grant a b =
    a.user_id == b.user_id
    && a.org_id =~ b.org_id
    && a.subject_type =~ b.subject_type
    && a.subject =~ b.subject
    && a.scope =~ b.scope

-- `CreateMembership`. A clash of identifiers is another error.
unfoldable pub create_membership : Membership → Db → Result DbError (Membership × Db)
create_membership m db =
    if any (λ (q : Membership). q.id == m.id) db.memberships
    then err DbError.failed
    else if any (same_grant m) db.memberships
    then err DbError.conflict
    else if role_exists m db
    then ok (m, with_memberships db (db.memberships ++ (m ∷ [])))
    else err DbError.not_found

-- `GetMembership`.
unfoldable pub get_membership : Uuid → Db → Result DbError Membership
get_membership id db = elim (first (λ (m : Membership). m.id == id) db.memberships) [
  | none ↦ err DbError.not_found
  | some m ↦ ok m
]

-- `HasMemberships`.
unfoldable pub has_memberships : String → Db → Result DbError Bool
has_memberships org_id db = ok (any (λ (m : Membership). m.org_id =~ org_id) db.memberships)

-- `ListMembershipsParams`.
pub record ListMembershipsParams : Type 0 where
  pub user_id : Option Uuid
  pub org_id : Option String
  pub subject_type : Option String
  pub subject : Option String

-- `$1 IS NULL OR column = $1`.
abbrev pub matches : Option String → String → Bool
matches none column = true
matches (some value) column = column =~ value

abbrev pub matches_id : Option Uuid → Uuid → Bool
matches_id none column = true
matches_id (some value) column = column == value

abbrev pub is_set {ℓ} : {A : Type ℓ} → Option A → Bool
is_set none = false
is_set (some a) = true

-- `MembershipWithUserMetadata`.
pub record MembershipWithUserMetadata : Type 0 where
  pub membership : Membership
  pub user_display_name : String
  pub user_primary_email_address : Option String

-- `INNER JOIN users u ON m.user_id = u.id`.
abbrev pub with_user : List User → Membership → List MembershipWithUserMetadata
with_user users m =
    map
      (λ u. record {
        membership = m;
        user_display_name = u.display_name;
        user_primary_email_address = u.primary_email_address;
      })
      (select (λ u. u.id == m.user_id) users)

-- `ORDER BY created_at ASC`, where rows of one time keep their order.
unfoldable pub insert_by_time :
    MembershipWithUserMetadata → List MembershipWithUserMetadata → List MembershipWithUserMetadata
insert_by_time m [] = m ∷ []
insert_by_time m (q ∷ qs) =
    let rest = insert_by_time m qs in
    if leb m.membership.created_at q.membership.created_at then m ∷ q ∷ qs else q ∷ rest

unfoldable pub by_time : List MembershipWithUserMetadata → List MembershipWithUserMetadata
by_time [] = []
by_time (m ∷ ms) = insert_by_time m (by_time ms)

-- `ListMemberships`.
unfoldable pub list_memberships :
    ListMembershipsParams → Db → Result DbError (List MembershipWithUserMetadata)
unfolding by_time insert_by_time
list_memberships params db =
    let rows = by_time (
      concat_map (with_user db.users) (
        select
          (λ (m : Membership).
            matches_id params.user_id m.user_id
            && matches params.org_id m.org_id
            && matches params.subject_type m.subject_type
            && matches params.subject m.subject)
          db.memberships)) in
    if not (is_set params.user_id) && not (is_set params.org_id)
    then err DbError.failed
    else if is_set params.subject && not (is_set params.subject_type)
    then err DbError.failed
    else ok rows

-- `DeleteMembershipsByIds`.
unfoldable pub delete_memberships_by_ids : String → List Uuid → Db → Result DbError (Done × Db)
delete_memberships_by_ids org_id ids db = ok (
  done,
  with_memberships db (
      select (λ (m : Membership). not (m.org_id =~ org_id && any (λ id. id == m.id) ids))
        db.memberships),
)

-- `DeleteMembership`.
unfoldable pub delete_membership : Uuid → Db → Result DbError (Done × Db)
delete_membership id db =
    if any (λ (m : Membership). m.id == id) db.memberships
    then ok
        (done, with_memberships db (select (λ (m : Membership). not (m.id == id)) db.memberships))
    else err DbError.not_found
