-- ===== src/Api/Invitations.antt =====
-- `ListInvitations`, `RevokeInvitation`, `GetInvitation` and `RedeemInvitation` of
-- internal/api/invitations.go, with `findScimUserForOrg` of internal/api/scim_service.go.
pub mod Granting
pub mod Redeeming
use platform_orchestrator_ia.Prelude.{
  String, ◌=~◌, ltb, UuidText, Uuid, Bool, true, not, Option, none, some, List, [], ◌∷◌, map,
  if◌then◌else◌,
}
use platform_orchestrator_ia.Prelude.Result.{Result, ok, err}
use platform_orchestrator_ia.Authz.Permissions.{invitation_read, invitation_write}
use platform_orchestrator_ia.Shared.UserId.{is_human_user}
use platform_orchestrator_ia.Model.{Time, Bytes, InvitationRow, ScimUser, Membership, Db}
use platform_orchestrator_ia.Model.Store.{
  DbError, Failure, Handler, Done, done, ◌>>=◌, return, fail, require, call, query, transaction,
}
use platform_orchestrator_ia.Model.Memberships.{
  ListMembershipsParams, MembershipWithUserMetadata, create_membership, list_memberships,
}
use platform_orchestrator_ia.Model.ScimUsers.{deprovisioned, find_scim_user_by_user_id}
use platform_orchestrator_ia.Model.Invitations
use platform_orchestrator_ia.Model.Invitations.{Invitation, delete_invitation}
use platform_orchestrator_ia.Api.Authenticate.Tokens.{Codec, RawCodec}
use platform_orchestrator_ia.Api.Roles.{
  Environment, guard, finish, missing_or_internal, always_internal,
}

-- `InvitationSummary`.
pub record InvitationSummary : Type 0 where
  pub id : Uuid
  pub created_at : Time
  pub expires_at : Time
  pub created_by : Uuid
  pub created_by_display_name : String
  pub created_by_primary_email_address : Option String
  pub email_address : String
  pub membership_subject_type : String
  pub membership_subject : String

-- `inviteModelToSummary`.
abbrev pub invite_model_to_summary : Invitation → InvitationSummary
invite_model_to_summary item = record {
  id = item.row.id;
  created_at = item.row.created_at;
  expires_at = item.row.expires_at;
  created_by = item.row.created_by;
  created_by_display_name = item.created_by_display_name;
  created_by_primary_email_address = item.created_by_primary_email_address;
  email_address = item.row.email_address;
  membership_subject_type = item.row.membership_subject_type;
  membership_subject = item.row.membership_subject;
}

abbrev pub or_none : Result DbError ScimUser → Result DbError (Option ScimUser)
or_none (ok u) = ok (some u)
or_none (err DbError.not_found) = ok none
or_none (err DbError.conflict) = err DbError.conflict
or_none (err DbError.failed) = err DbError.failed

-- `findScimUserForOrg`.
abbrev pub find_scim_user_for_org : String → Uuid → Db → Result DbError (Option ScimUser)
find_scim_user_for_org org_id user_id db = or_none (find_scim_user_by_user_id org_id user_id db)

-- A person without a row may redeem, and one whose row is not deprovisioned.
abbrev pub may_redeem : Option ScimUser → Bool
may_redeem none = true
may_redeem (some u) = not (deprovisioned u)

-- A role that is missing stops the redemption with 409.
abbrev pub creation_error : DbError → Failure
creation_error DbError.not_found = Failure.conflicting
creation_error _ = Failure.internal

-- The memberships of a user that an invitation would repeat.
abbrev pub same_subject : Uuid → InvitationRow → ListMembershipsParams
same_subject user invite = record {
  user_id = some user;
  org_id = some invite.org_id;
  subject_type = some invite.membership_subject_type;
  subject = some invite.membership_subject;
}

module _ (E : Environment) where
  -- `ListInvitations`.
  unfoldable pub list_invitations : String → Handler (List InvitationSummary)
  list_invitations org_id = do
    user ← guard E org_id invitation_read
    page ← query (Invitations.list_invitations org_id) always_internal
    return (map invite_model_to_summary page)

  -- The transaction of `RevokeInvitation`.
  unfoldable pub revoke_in_org : String → Uuid → Handler Done
  revoke_in_org org_id invitation_id = do
    invite ← query (Invitations.get_invitation invitation_id) missing_or_internal
    own ← require (invite.row.org_id =~ org_id) Failure.missing
    call (delete_invitation invite.row.id) always_internal

  -- `RevokeInvitation`.
  unfoldable pub revoke_invitation : String → Uuid → Handler Done
  unfolding revoke_in_org
  revoke_invitation org_id invitation_id = do
    user ← guard E org_id invitation_write
    transaction (revoke_in_org org_id invitation_id)

module _ (C : Codec) (W : RawCodec) where
  -- `hashRedemptionToken`: a text that decodes to no bytes comes to no hash and to no error, since
  -- `errors.Wrap` makes no error from none.
  unfoldable pub hash_redemption_token : String → Option Bytes
  hash_redemption_token encoded_token =
      let (raw, complete) = W.decode encoded_token in
      if not complete then none else if raw =~ "" then some "" else some (C.sha256 raw)

  -- A token that was given must be the invitation's.
  abbrev pub check_token : InvitationRow → Option Bytes → Handler Done
  check_token invite none = fail Failure.bad_request
  check_token invite (some hash) =
      require (hash =~ invite.redemption_token_hash) Failure.bad_request

  abbrev pub check_given_token : InvitationRow → Option String → Handler Done
  check_given_token invite none = return done
  check_given_token invite (some token) = check_token invite (hash_redemption_token token)

  module _ (E : Environment) where
    abbrev pub allow : Option Uuid → Handler Done
    allow none = fail Failure.unauthorized
    allow (some user) = return done

    -- Without a token the right to change invitations is needed; with one, only a user.
    abbrev pub guard_reader : String → Option String → Handler Done
    guard_reader org_id none = guard E org_id invitation_write >>= (λ user. return done)
    guard_reader org_id (some token) = allow E.user

    -- The invitation is one of the organization and has not expired.
    abbrev pub check_current : String → InvitationRow → Handler Done
    check_current org_id invite =
        if not (invite.org_id =~ org_id)
        then fail Failure.missing
        else if ltb invite.expires_at E.now
        then fail Failure.bad_request
        else return done

    -- `GetInvitation`.
    unfoldable pub get_invitation : String → Uuid → Option String → Handler InvitationSummary
    unfolding hash_redemption_token
    get_invitation org_id invitation_id redemption_token = do
      allowed ← guard_reader org_id redemption_token
      invite ← query (Invitations.get_invitation invitation_id) missing_or_internal
      current ← check_current org_id invite.row
      fits ← check_given_token invite.row redemption_token
      return (invite_model_to_summary invite)

    module _ (U : UuidText) where
      -- The membership that an invitation promises.
      abbrev pub promised : Uuid → InvitationRow → Option Uuid → Membership
      promised user invite role = record {
        id = E.new_id 0;
        created_at = E.now;
        user_id = user;
        org_id = invite.org_id;
        subject_type = invite.membership_subject_type;
        subject = invite.membership_subject;
        role = role;
        scope = "";
      }

      abbrev pub create_with_role : Uuid → InvitationRow → Option Uuid → Handler Membership
      create_with_role user invite role =
          call (create_membership (promised user invite role)) creation_error

      -- `MustParse` panics on a subject that is no identifier.
      abbrev pub create_with_parsed : Uuid → InvitationRow → Option Uuid → Handler Membership
      create_with_parsed user invite none = fail Failure.internal
      create_with_parsed user invite (some role) = create_with_role user invite (some role)

      abbrev pub existing_or_new :
          Uuid → InvitationRow → List MembershipWithUserMetadata → Handler Membership
      existing_or_new user invite (m ∷ ms) = return m.membership
      existing_or_new user invite [] =
          if invite.membership_subject_type =~ "role"
          then create_with_parsed user invite (U.parse invite.membership_subject)
          else create_with_role user invite none

      abbrev pub find_or_create : Uuid → InvitationRow → Handler Membership
      find_or_create user invite =
          query (list_memberships (same_subject user invite)) always_internal
          >>= existing_or_new user invite

      abbrev pub use_up : InvitationRow → Membership → Handler Membership
      use_up invite m = call (delete_invitation invite.id) always_internal >>= (λ gone. return m)

      abbrev pub redeem_allowed : Uuid → InvitationRow → Option ScimUser → Handler Membership
      redeem_allowed user invite scim_user =
          require (may_redeem scim_user) Failure.conflicting
          >>= (λ allowed. find_or_create user invite >>= use_up invite)

      abbrev pub redeem_fitting : Uuid → InvitationRow → Handler Membership
      redeem_fitting user invite =
          query (find_scim_user_for_org invite.org_id user) always_internal
          >>= redeem_allowed user invite

      abbrev pub redeem_current : Uuid → Bytes → InvitationRow → Handler Membership
      redeem_current user hash invite =
          check_token invite (some hash) >>= (λ fits. redeem_fitting user invite)

      abbrev pub redeem_found : String → Uuid → Bytes → Invitation → Handler Membership
      redeem_found org_id user hash invite =
          check_current org_id invite.row >>= (λ current. redeem_current user hash invite.row)

      -- The transaction of `RedeemInvitation`.
      unfoldable pub redeem_in_org : String → Uuid → Uuid → Bytes → Handler Membership
      redeem_in_org org_id user invitation_id hash =
          query (Invitations.get_invitation invitation_id) missing_or_internal
          >>= redeem_found org_id user hash

      abbrev pub redeem_hashed : String → Uuid → Uuid → Option Bytes → Handler Membership
      redeem_hashed org_id user invitation_id none = fail Failure.bad_request
      redeem_hashed org_id user invitation_id (some hash) =
          transaction (redeem_in_org org_id user invitation_id hash) >>= finish E

      abbrev pub redeem_as : String → Uuid → String → Option Uuid → Handler Membership
      redeem_as org_id invitation_id token none = fail Failure.unauthorized
      redeem_as org_id invitation_id token (some user) =
          if is_human_user user
          then redeem_hashed org_id user invitation_id (hash_redemption_token token)
          else fail Failure.bad_request

      -- `RedeemInvitation`.
      unfoldable pub redeem_invitation : String → Uuid → String → Handler Membership
      unfolding redeem_in_org hash_redemption_token
      redeem_invitation org_id invitation_id redemption_token =
          redeem_as org_id invitation_id redemption_token E.user
