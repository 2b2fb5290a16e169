-- ===== src/Examples/Memberships.antt =====
-- The theorem of Api/Memberships/Admins at an organization with two administrators.
use Prim.{tt}
use platform_orchestrator_ia.Prelude.{◌≡◌, ◌==◌, refl, true, none, [], ◌∷◌, any, arith, All-mem}
use platform_orchestrator_ia.Prelude.Result.{ok}
use platform_orchestrator_ia.Model.{Role, Membership, User, Db}
use platform_orchestrator_ia.Model.Store.{Session, done}
use platform_orchestrator_ia.Model.Roles.{get_role}
use platform_orchestrator_ia.Model.Memberships.{
  get_membership, list_memberships, by_time, insert_by_time, delete_membership,
}
use platform_orchestrator_ia.Api.Memberships.{
  check_remaining_admin, delete_in_org, delete_org_membership,
}
use platform_orchestrator_ia.Api.Memberships.Admins.{Another, admin_kept}
use platform_orchestrator_ia.Api.Memberships.Counted.{Keyed}
use platform_orchestrator_ia.Examples.Packages.{uuids}
use platform_orchestrator_ia.Examples.Tables.{operator, member, tables}
use platform_orchestrator_ia.Examples.Sessions.{environment}

abbrev admin : Role
admin = record operator { display_name = "Admin" }

abbrev ada_admin : Membership
ada_admin = record member { subject = "R" }

abbrev bob_admin : Membership
bob_admin = record member { id = 8; user_id = 3; subject = "R" }

abbrev bob : User
bob = record {
  id = 3;
  display_name = "Bob";
  primary_email_address = none;
  last_logged_in_at = none;
}

abbrev two_admins : Db
two_admins = record tables {
  users = bob ∷ tables.users;
  roles = admin ∷ [];
  memberships = ada_admin ∷ bob_admin ∷ [];
}

two_admins-Keyed : Keyed two_admins
two_admins-Keyed = (
  λ id. ground arith,
  λ id. ground arith,
  λ m t.
      All-mem (λ (m : Membership). any (λ (u : User). u.id == m.user_id) two_admins.users ≡ true) t
        (refl, (refl, tt)),
)

abbrev before : Session
before = record { tables = two_admins; faults = [] }

abbrev after : Session
after = (delete_org_membership uuids environment "acme" 7 before).1

deleted_ok : delete_org_membership uuids environment "acme" 7 before ≡ (ok done, after)
unfolding delete_org_membership delete_in_org check_remaining_admin get_membership get_role
    list_memberships by_time insert_by_time delete_membership
deleted_ok = refl

found_ok : get_membership 7 two_admins ≡ ok ada_admin
unfolding get_membership
found_ok = refl

role_ok : get_role "acme" 1 two_admins ≡ ok admin
unfolding get_role
role_ok = refl

admin_kept_example : Another "acme" ada_admin after.tables
admin_kept_example =
    admin_kept uuids environment "acme" 7 1 ada_admin admin before after done found_ok refl refl
      role_ok refl two_admins-Keyed deleted_ok
