-- ===== src/Api/Memberships.antt =====
-- `DeleteOrgMembership`, `ListOrgMemberships` and `getRoleByDisplayName` of
-- internal/api/memberships.go.
pub mod Counted
pub mod Admins
use platform_orchestrator_ia.Prelude.{
  String, ◌=~◌, ◌==◌, UuidText, Uuid, Bool, false, not, Option, none, some, List, [], ◌∷◌, first,
  if◌then◌else◌,
}
use platform_orchestrator_ia.Authz.Permissions.{membership_read, membership_write}
use platform_orchestrator_ia.Model.{Role, Membership}
use platform_orchestrator_ia.Model.Store.{
  DbError, Failure, Handler, Done, done, ◌>>=◌, return, fail, require, call, query, transaction,
}
use platform_orchestrator_ia.Model.Roles.{get_role}
use platform_orchestrator_ia.Model.Memberships.{
  MembershipWithUserMetadata, get_membership, list_memberships, delete_membership,
}
use platform_orchestrator_ia.Api.Roles.{
  Environment, guard, finish, missing_or_internal, always_internal,
}

-- `getRoleByDisplayName`.
abbrev pub get_role_by_display_name : List Role → String → Option Role
get_role_by_display_name roles name = first (λ (r : Role). r.display_name =~ name) roles

-- A role that is missing stops the deletion with 409.
abbrev pub missing_role : DbError → Failure
missing_role DbError.not_found = Failure.conflicting
missing_role _ = Failure.internal

-- The error of `DeleteMembership`, as the code has it: a row that is missing is a returned error, and
-- every other error is 404.
abbrev pub delete_error : DbError → Failure
delete_error DbError.not_found = Failure.internal
delete_error _ = Failure.missing

-- `len(page) == 1 && page[0].Id == membership.Id`.
abbrev pub is_only : Uuid → List MembershipWithUserMetadata → Bool
is_only id (m ∷ []) = m.membership.id == id
is_only id _ = false

-- An administrator's membership may go only where another one stays.
abbrev pub check_admin : String → Membership → Role → Handler Done
check_admin org_id m role =
    if role.display_name =~ "Admin"
    then (query
          (list_memberships (record {
            user_id = none;
            org_id = some org_id;
            subject_type = some m.subject_type;
            subject = some m.subject;
          }))
          always_internal
        >>= (λ page. require (not (is_only m.id page)) Failure.conflicting))
    else return done

module _ (U : UuidText) (E : Environment) where
  -- The test before a role's membership is deleted; `MustParse` panics on another subject.
  unfoldable pub check_remaining_admin : String → Membership → Handler Done
  check_remaining_admin org_id m =
      if m.subject_type =~ "role"
      then (elim (U.parse m.subject) [
        | none ↦ fail Failure.internal
        | some role_id ↦
            query (get_role org_id role_id) missing_role >>= (λ role. check_admin org_id m role)
      ])
      else return done

  -- The transaction of `DeleteOrgMembership`.
  unfoldable pub delete_in_org : String → Uuid → Handler Done
  unfolding check_remaining_admin
  delete_in_org org_id membership_id = do
    m ← query (get_membership membership_id) missing_or_internal
    own ← require (m.org_id =~ org_id) Failure.missing
    checked ← check_remaining_admin org_id m
    call (delete_membership membership_id) delete_error

  -- `DeleteOrgMembership`.
  unfoldable pub delete_org_membership : String → Uuid → Handler Done
  unfolding delete_in_org
  delete_org_membership org_id membership_id = do
    user ← guard E org_id membership_write
    deleted ← transaction (delete_in_org org_id membership_id)
    finish E deleted

  -- `ListOrgMemberships`.
  unfoldable pub list_org_memberships :
      String → Option Uuid → Handler (List MembershipWithUserMetadata)
  list_org_memberships org_id user_id = do
    user ← guard E org_id membership_read
    query
        (list_memberships
          (record { user_id = user_id; org_id = some org_id; subject_type = none; subject = none }))
        always_internal
