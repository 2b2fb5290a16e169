-- ===== src/Api/Memberships/Admins.antt =====
-- What `DeleteOrgMembership` of internal/api/memberships.go leaves to an organization.
use mathlib.Core.Path.{subst}
use platform_orchestrator_ia.Prelude.{
  String, ◌≡◌, ◌∙◌, ◌==◌, eq_iff, ◌=~◌, inl, inr, sym, UuidText, Uuid, false, not, some, Memᴰ,
  arith, Bool-cases, Option-cases,
}
use platform_orchestrator_ia.Prelude.Result.{ok}
use platform_orchestrator_ia.Authz.Permissions.{membership_write}
use platform_orchestrator_ia.Model.{Role, Membership, Db}
use platform_orchestrator_ia.Model.Store.{
  Failure, Handler, Session, Done, ◌>>=◌, require, call, query, after_call, transaction,
}
use platform_orchestrator_ia.Model.Store.Inversion.{
  bind_ok, call_ok, query_ok, require_ok, transaction_ok,
}
use platform_orchestrator_ia.Model.Roles.{get_role}
use platform_orchestrator_ia.Model.Memberships.{get_membership, list_memberships, delete_membership}
use platform_orchestrator_ia.Model.Memberships.Listing.{list_memberships_sound}
use platform_orchestrator_ia.Api.Roles.{
  Environment, guard, finish, missing_or_internal, always_internal,
}
use platform_orchestrator_ia.Api.Memberships.{
  is_only, missing_role, delete_error, check_admin, check_remaining_admin, delete_in_org,
  delete_org_membership,
}
use platform_orchestrator_ia.Api.Memberships.Counted.{
  other_listed, Keyed, holders, listed_once, deleted_keeps, get_membership_sound, fits-holders,
}

-- A membership with the grant of another one, in the organization.
abbrev pub Another : String → Membership → Db → Type 0
Another org_id m db =
    (q : Membership) × Memᴰ q db.memberships
    × ((q.id == m.id) ≡ false)
    × (q.org_id ≡ org_id)
    × (q.subject_type ≡ m.subject_type)
    × (q.subject ≡ m.subject)

module _ (U : UuidText) (E : Environment) where
  checked_ok :
      (org_id : String) (m : Membership) (role : Role) (s s' : Session) (d : Done)
      → role.display_name ≡ "Admin"
      → Keyed s.tables
      → Memᴰ m s.tables.memberships
      → m.org_id ≡ org_id
      → check_admin org_id m role s ≡ (ok d, s')
      → Another org_id m s.tables × (s'.tables ≡ s.tables)
  checked_ok org_id m role s s' d admin keyed there own e =
      let test = (eq_iff role.display_name "Admin").1 admin in
      let (page, t, listed, e') =
        bind_ok (query (list_memberships (holders org_id m)) always_internal)
          (λ page. require (not (is_only m.id page)) Failure.conflicting) s s' d (rw test at e) in
      let (rows, same) =
        query_ok (list_memberships (holders org_id m)) always_internal s t page listed in
      let (several, same') = require_ok (not (is_only m.id page)) Failure.conflicting t s' d e' in
      let (x, in_page, other) =
        other_listed m.id page (listed_once org_id m s.tables page keyed there own rows)
          (ground arith) in
      let (kept, fit) = list_memberships_sound (holders org_id m) s.tables page x rows in_page in
      let (in_org, of_type, of_subject) = fits-holders org_id m x.membership fit in
      ((x.membership, kept, other, in_org, of_type, of_subject), rw same' same)

  remaining_ok :
      (org_id : String) (m : Membership) (role_id : Uuid) (role : Role) (s s' : Session) (d : Done)
      → m.subject_type ≡ "role"
      → U.parse m.subject ≡ some role_id
      → get_role org_id role_id s.tables ≡ ok role
      → role.display_name ≡ "Admin"
      → Keyed s.tables
      → Memᴰ m s.tables.memberships
      → m.org_id ≡ org_id
      → check_remaining_admin U E org_id m s ≡ (ok d, s')
      → Another org_id m s.tables × (s'.tables ≡ s.tables)
  unfolding check_remaining_admin
  remaining_ok org_id m role_id role s s' d of_role parsed named admin keyed there own e =
      let test = (eq_iff m.subject_type "role").1 of_role in
      let (found, t, looked, e') =
        bind_ok (query (get_role org_id role_id) missing_role) (λ role. check_admin org_id m role) s
          s' d (rw (test, parsed) at e) in
      let (row, same) = query_ok (get_role org_id role_id) missing_role s t found looked in
      let this : found ≡ role = ground arith in
      let (another, kept) =
        checked_ok org_id m found t s' d (rw this admin) (rw same keyed) (rw same there) own e' in
      (subst (Another org_id m) same another, kept ∙ same)

  guard_ok :
      (org_id permission : String) (s s' : Session) (user : Uuid)
      → guard E org_id permission s ≡ (ok user, s')
      → s' ≡ s
  guard_ok org_id permission s s' user e = elim (Option-cases E.user) [
    | inl nobody ↦ absurd (ground arith)
    | inr (u, known) ↦ elim (Option-cases (E.check_org_authorization u org_id permission)) [
      | inl broken ↦ absurd (ground arith)
      | inr (answer, asked) ↦ elim (Bool-cases answer) [
        | inl allowed ↦ ground arith
        | inr refused ↦ absurd (ground arith)
      ]
    ]
  ]

  finish_ok : (s s' : Session) (a d : Done) → finish E a s ≡ (ok d, s') → s' ≡ s
  finish_ok s s' a d e = elim (Bool-cases E.reloads) [
    | inl fresh ↦ ground arith
    | inr stale ↦ absurd (ground arith)
  ]

  -- `DeleteOrgMembership` once it has read the membership.
  abbrev delete_read : String → Uuid → Membership → Handler Done
  delete_read org_id id m = require (m.org_id =~ org_id) Failure.missing >>= (λ own.
      check_remaining_admin U E org_id m >>= (λ checked. call (delete_membership id) delete_error))

  read_keeps :
      (org_id : String) (id role_id : Uuid) (m : Membership) (role : Role) (s s' : Session)
      (d : Done)
      → get_membership id s.tables ≡ ok m
      → m.subject_type ≡ "role"
      → U.parse m.subject ≡ some role_id
      → get_role org_id role_id s.tables ≡ ok role
      → role.display_name ≡ "Admin"
      → Keyed s.tables
      → delete_read org_id id m s ≡ (ok d, s')
      → Another org_id m s'.tables
  read_keeps org_id id role_id m role s s' d found of_role parsed named admin keyed e =
      let (d', t, passed, e') =
        bind_ok (require (m.org_id =~ org_id) Failure.missing)
          (λ own.
            check_remaining_admin U E org_id m
            >>= (λ checked. call (delete_membership id) delete_error))
          s s' d e in
      let (own, same) = require_ok (m.org_id =~ org_id) Failure.missing s t d' passed in
      let (d'', t', checked, e'') =
        bind_ok (check_remaining_admin U E org_id m)
          (λ checked. call (delete_membership id) delete_error) t s' d e' in
      let (there, is_id) = get_membership_sound id s.tables m found in
      let (another, stays) =
        remaining_ok org_id m role_id role s t' d'' of_role parsed named admin keyed there
          ((eq_iff m.org_id org_id).0 own)
          (subst (λ z. check_remaining_admin U E org_id m z ≡ (ok d'', t')) same checked) in
      let (q, kept, other, in_org, of_type, of_subject) = another in
      (
        q,
        deleted_keeps id t'.tables s'.tables d q
            (call_ok (delete_membership id) delete_error t' s' d e'')
            (subst (λ i. (q.id == i) ≡ false) is_id other)
            (subst (λ db. Memᴰ q db.memberships) (sym stays) kept),
        other,
        in_org,
        of_type,
        of_subject,
      )

  in_org_keeps :
      (org_id : String) (id role_id : Uuid) (m : Membership) (role : Role) (s s' : Session)
      (d : Done)
      → get_membership id s.tables ≡ ok m
      → m.subject_type ≡ "role"
      → U.parse m.subject ≡ some role_id
      → get_role org_id role_id s.tables ≡ ok role
      → role.display_name ≡ "Admin"
      → Keyed s.tables
      → delete_in_org U E org_id id s ≡ (ok d, s')
      → Another org_id m s'.tables
  unfolding delete_in_org
  in_org_keeps org_id id role_id m role s s' d found of_role parsed named admin keyed e =
      let (m', t, looked, e') =
        bind_ok (query (get_membership id) missing_or_internal) (delete_read org_id id) s s' d e in
      let (row, same) = query_ok (get_membership id) missing_or_internal s t m' looked in
      let this : m' ≡ m = ground arith in
      read_keeps org_id id role_id m role t s' d (rw same found) of_role parsed (rw same named)
        admin (rw same keyed) (subst (λ z. delete_read org_id id z t ≡ (ok d, s')) this e')

  -- `DeleteOrgMembership` deletes the membership of an administrator only where, in tables that keep
  -- their keys, another membership with the same role and in the same organization stays.
  pub admin_kept :
      (org_id : String) (id role_id : Uuid) (m : Membership) (role : Role) (s s' : Session)
      (d : Done)
      → get_membership id s.tables ≡ ok m
      → m.subject_type ≡ "role"
      → U.parse m.subject ≡ some role_id
      → get_role org_id role_id s.tables ≡ ok role
      → role.display_name ≡ "Admin"
      → Keyed s.tables
      → delete_org_membership U E org_id id s ≡ (ok d, s')
      → Another org_id m s'.tables
  unfolding delete_org_membership
  admin_kept org_id id role_id m role s s' d found of_role parsed named admin keyed e =
      let (user, t, allowed, e') =
        bind_ok (guard E org_id membership_write)
          (λ user. transaction (delete_in_org U E org_id id) >>= (λ deleted. finish E deleted)) s s'
          d e in
      let same = guard_ok org_id membership_write s t user allowed in
      let (deleted, t', committed, e'') =
        bind_ok (transaction (delete_in_org U E org_id id)) (λ deleted. finish E deleted) t s' d
          e' in
      let (t'', inside, kept) =
        transaction_ok (delete_in_org U E org_id id) t t' deleted committed in
      let last = finish_ok t' s' deleted d e'' in
      rw (last, kept)
        (in_org_keeps org_id id role_id m role (after_call t t.tables) t'' deleted (rw same found)
          of_role parsed (rw same named) admin (rw same keyed) inside)
