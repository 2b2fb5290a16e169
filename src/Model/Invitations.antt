-- ===== src/Model/Invitations.antt =====
-- internal/model/invitations.go over the tables: an identifier is given once. `LOWER` of the database
-- is a parameter.
pub mod Laws
use platform_orchestrator_ia.Prelude.{
  ℕ, String, ◌=~◌, ◌==◌, ltb, cut, Uuid, Bool, true, false, not, ◌&&◌, ◌||◌, Option, none, some,
  List, [], ◌∷◌, ◌++◌, length, map, any, select, first, if◌then◌else◌,
}
use platform_orchestrator_ia.Prelude.Result.{Result, ok, err}
use platform_orchestrator_ia.Shared.UserId.{generate_display_name_for_user_id}
use platform_orchestrator_ia.Model.{Time, InvitationRow, User, Db}
use platform_orchestrator_ia.Model.Store.{DbError, Done, done}

-- `Invitation`: a row, and the names of its creator.
pub record Invitation : Type 0 where
  pub row : InvitationRow
  pub created_by_display_name : String
  pub created_by_primary_email_address : Option String

abbrev pub has_id : Uuid → InvitationRow → Bool
has_id id i = i.id == id

-- `CreateInvitation`.
unfoldable pub create_invitation : Invitation → Db → Result DbError (Invitation × Db)
create_invitation request db =
    if any (has_id request.row.id) db.invitations
    then err DbError.failed
    else ok (request, record db { invitations = db.invitations ++ (request.row ∷ []) })

-- `LEFT JOIN users u ON i.created_by = u.id`, and the name of a creator who is no user.
unfoldable pub with_creator : List User → InvitationRow → Invitation
with_creator users i = elim (first (λ (u : User). u.id == i.created_by) users) [
  | none ↦ record {
    row = i;
    created_by_display_name = generate_display_name_for_user_id i.created_by;
    created_by_primary_email_address = none;
  }
  | some u ↦ record {
    row = i;
    created_by_display_name = u.display_name;
    created_by_primary_email_address = u.primary_email_address;
  }
]

-- `GetInvitation`.
unfoldable pub get_invitation : Uuid → Db → Result DbError Invitation
unfolding with_creator
get_invitation id db = elim (first (has_id id) db.invitations) [
  | none ↦ err DbError.not_found
  | some i ↦ ok (with_creator db.users i)
]

-- `ListInvitations`, where the tables hold the rows in the order of their creation.
unfoldable pub list_invitations : String → Db → Result DbError (List Invitation)
unfolding with_creator
list_invitations org_id db = ok (
    map (with_creator db.users) (select (λ (i : InvitationRow). i.org_id =~ org_id) db.invitations))

-- `DeleteInvitation`.
unfoldable pub delete_invitation : Uuid → Db → Result DbError (Done × Db)
delete_invitation id db =
    if any (has_id id) db.invitations
    then ok (
      done,
      record db { invitations = select (λ (i : InvitationRow). not (has_id id i)) db.invitations },
    )
    else err DbError.not_found

-- `DeleteExpiredInvitations`, with the number of rows.
unfoldable pub delete_expired_invitations : Time → Db → Result DbError (ℕ × Db)
delete_expired_invitations now db = ok (
  length (select (λ (i : InvitationRow). ltb i.expires_at now) db.invitations),
  record db {
    invitations = select (λ (i : InvitationRow). not (ltb i.expires_at now)) db.invitations;
  },
)

-- `STRPOS(name, '@') > 1`: something stands before the first "@".
abbrev pub is_email_shaped : String → Bool
is_email_shaped name = elim (cut b'@' name) [
  | none ↦ false
  | some (before, after) ↦ not (before =~ "")
]

module _ (lower : String → String) where
  -- An invitation to the user's address, or to a name that is one.
  abbrev pub addressed : String → String → User → InvitationRow → Bool
  addressed org_id user_name u i =
      i.org_id =~ org_id
      && ((elim u.primary_email_address [
        | none ↦ false
        | some address ↦ lower i.email_address =~ lower address
      ])
          || (is_email_shaped user_name && lower i.email_address =~ lower user_name))

  -- `DeleteInvitationsForScimUser`, with the number of rows.
  unfoldable pub delete_invitations_for_scim_user :
      String → Uuid → String → Db → Result DbError (ℕ × Db)
  delete_invitations_for_scim_user org_id user_id user_name db =
      let gone = λ (i : InvitationRow).
        any (λ (u : User). u.id == user_id && addressed org_id user_name u i) db.users in
      ok (
        length (select gone db.invitations),
        record db { invitations = select (λ (i : InvitationRow). not (gone i)) db.invitations },
      )
