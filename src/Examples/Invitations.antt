-- ===== src/Examples/Invitations.antt =====
-- The theorem of Api/Invitations/Redeeming at a concrete invitation.
use platform_orchestrator_ia.Prelude.{Uuid, ◌≡◌, refl, some, [], ◌∷◌}
use platform_orchestrator_ia.Prelude.Result.{ok}
use platform_orchestrator_ia.Model.{InvitationRow, Membership}
use platform_orchestrator_ia.Model.Store.{Session}
use platform_orchestrator_ia.Model.Memberships.{
  create_membership, list_memberships, by_time, insert_by_time,
}
use platform_orchestrator_ia.Model.ScimUsers.{find_scim_user_by_user_id, foremost_of}
use platform_orchestrator_ia.Model.Invitations.{get_invitation, with_creator, delete_invitation}
use platform_orchestrator_ia.Shared.UserId.{is_human_user}
use platform_orchestrator_ia.Api.Roles.{Environment}
use platform_orchestrator_ia.Api.Invitations.{
  hash_redemption_token, redeem_in_org, redeem_invitation,
}
use platform_orchestrator_ia.Api.Invitations.Redeeming.{Outcome, redemption_right}
use platform_orchestrator_ia.Examples.Packages.{uuids}
use platform_orchestrator_ia.Examples.Tables.{tables}
use platform_orchestrator_ia.Examples.Authenticate.{plain}
use platform_orchestrator_ia.Examples.Sessions.{raw_codec, environment}

-- A person.
abbrev bob : Uuid
bob = 4722366482869645213696

abbrev at_work : Environment
at_work = record environment { user = some bob }

-- An invitation by Ada, with the role of the tables.
abbrev pending : InvitationRow
pending = record {
  id = 21;
  org_id = "acme";
  created_at = 10;
  expires_at = 90;
  created_by = 2;
  redemption_token_hash = "t0ken";
  email_address = "bob@acme.example";
  membership_subject_type = "role";
  membership_subject = "R";
}

abbrev invited : Session
invited = record { tables = record tables { invitations = pending ∷ [] }; faults = [] }

abbrev joined : Session
joined = (redeem_invitation plain raw_codec at_work uuids "acme" 21 "t0ken" invited).1

abbrev granted : Membership
granted = record {
  id = 0;
  created_at = 50;
  user_id = bob;
  org_id = "acme";
  subject_type = "role";
  subject = "R";
  role = some 1;
  scope = "";
}

redeemed_ok :
    redeem_invitation plain raw_codec at_work uuids "acme" 21 "t0ken" invited ≡ (ok granted, joined)
unfolding redeem_invitation redeem_in_org hash_redemption_token get_invitation with_creator
    find_scim_user_by_user_id foremost_of list_memberships by_time insert_by_time create_membership
    delete_invitation is_human_user
redeemed_ok = refl

redemption_right_example :
    Outcome plain raw_codec at_work uuids "acme" 21 "t0ken" invited.tables granted joined.tables
redemption_right_example =
    redemption_right plain raw_codec at_work uuids "acme" 21 "t0ken" invited joined granted
      redeemed_ok
