-- ===== src/Api/Invitations/Redeeming.antt =====
-- What a redeemed invitation of internal/api/invitations.go was, and what it leaves in the tables.
use mathlib.Core.Path.{subst}
use platform_orchestrator_ia.Prelude.{
  ◌≡◌, ◌≤◌, inl, inr, refl, sym, String, ◌=~◌, eq_iff, ltb, UuidText, Uuid, true, false, Option,
  none, some, arith, Bool-cases,
}
use platform_orchestrator_ia.Prelude.Result.{ok, err}
use platform_orchestrator_ia.Shared.UserId.{is_human_user}
use platform_orchestrator_ia.Model.{Bytes, InvitationRow, ScimUser, Membership, Db}
use platform_orchestrator_ia.Model.Store.{
  DbError, Failure, Session, Done, ◌>>=◌, require, query, after_call, transaction,
}
use platform_orchestrator_ia.Model.Store.Inversion.{bind_ok, query_ok, require_ok, transaction_ok}
use platform_orchestrator_ia.Model.Invitations
use platform_orchestrator_ia.Model.Invitations.{Invitation, delete_invitation}
use platform_orchestrator_ia.Model.Invitations.Laws.{get-id}
use platform_orchestrator_ia.Model.ScimUsers.{deprovisioned, find_scim_user_by_user_id}
use platform_orchestrator_ia.Api.Authenticate.Tokens.{Codec, RawCodec}
use platform_orchestrator_ia.Api.Roles.{Environment, finish, missing_or_internal, always_internal}
use platform_orchestrator_ia.Api.Invitations.Granting.{Holds, found-Holds, used_up}
use platform_orchestrator_ia.Api.Invitations.{
  find_scim_user_for_org, may_redeem, hash_redemption_token, check_token, check_current,
  find_or_create, use_up, redeem_allowed, redeem_fitting, redeem_current, redeem_found,
  redeem_in_org, redeem_hashed, redeem_as, redeem_invitation,
}

module _ (C : Codec) (W : RawCodec) (E : Environment) (U : UuidText) where
  check_current_ok :
      (org_id : String) (invite : InvitationRow) (s s' : Session) (d : Done)
      → check_current C W E org_id invite s ≡ (ok d, s')
      → (invite.org_id ≡ org_id) × (E.now ≤ invite.expires_at) × (s' ≡ s)
  check_current_ok org_id invite s s' d e = elim (Bool-cases (invite.org_id =~ org_id)) [
    | inr other ↦ absurd (ground arith)
    | inl own ↦ elim (Bool-cases (ltb invite.expires_at E.now)) [
      | inl expired ↦ absurd (ground arith)
      | inr current ↦ ((eq_iff _ _).0 own, ground arith, ground arith)
    ]
  ]

  -- What a redemption within its transaction comes to, from the tables before to those after.
  abbrev pub Redeemed : String → Uuid → Uuid → Bytes → Db → Membership → Db → Type 0
  Redeemed org_id user id hash before m after =
      (invite : Invitation) × (Invitations.get_invitation id before ≡ ok invite)
      × (invite.row.org_id ≡ org_id)
      × (E.now ≤ invite.row.expires_at)
      × (hash ≡ invite.row.redemption_token_hash)
      × ((u : ScimUser)
          → find_scim_user_by_user_id org_id user before ≡ ok u
          → deprovisioned u ≡ false)
      × Holds user invite.row m after
      × (Invitations.get_invitation id after ≡ err DbError.not_found)

  allowed_ok :
      (user : Uuid) (invite : InvitationRow) (scim_user : Option ScimUser) (s s' : Session)
      (m : Membership)
      → redeem_allowed C W E U user invite scim_user s ≡ (ok m, s')
      → (may_redeem scim_user ≡ true)
        × Holds user invite m s'.tables
        × (Invitations.get_invitation invite.id s'.tables ≡ err DbError.not_found)
  allowed_ok user invite scim_user s s' m e =
      let (d, t, allowed, e') =
        bind_ok (require (may_redeem scim_user) Failure.conflicting)
          (λ allowed. find_or_create C W E U user invite >>= use_up C W E U invite) s s' m e in
      let (may, same) = require_ok (may_redeem scim_user) Failure.conflicting s t d allowed in
      let (given, t', created, e'') =
        bind_ok (find_or_create C W E U user invite) (use_up C W E U invite) t s' m e' in
      let (holds, gone) =
        used_up C W E U user invite given m t' s'
          (found-Holds C W E U user invite t t' given created) e'' in
      (may, holds, gone)

  not_deprovisioned :
      (org_id : String) (user : Uuid) (db : Db) (scim_user : Option ScimUser) (u : ScimUser)
      → find_scim_user_for_org org_id user db ≡ ok scim_user
      → may_redeem scim_user ≡ true
      → find_scim_user_by_user_id org_id user db ≡ ok u
      → deprovisioned u ≡ false
  not_deprovisioned org_id user db none u e may found = absurd (ground arith)
  not_deprovisioned org_id user db (some v) u e may found =
      let same : v ≡ u = ground arith in rw (← same) (ground arith)

  fitting_ok :
      (user : Uuid) (invite : InvitationRow) (s s' : Session) (m : Membership)
      → redeem_fitting C W E U user invite s ≡ (ok m, s')
      → ((u : ScimUser)
          → find_scim_user_by_user_id invite.org_id user s.tables ≡ ok u
          → deprovisioned u ≡ false)
        × Holds user invite m s'.tables
        × (Invitations.get_invitation invite.id s'.tables ≡ err DbError.not_found)
  fitting_ok user invite s s' m e =
      let (scim_user, t, looked, e') =
        bind_ok (query (find_scim_user_for_org invite.org_id user) always_internal)
          (redeem_allowed C W E U user invite) s s' m e in
      let (row, same) =
        query_ok (find_scim_user_for_org invite.org_id user) always_internal s t scim_user looked in
      let (may, holds, gone) = allowed_ok user invite scim_user t s' m e' in
      (λ u. not_deprovisioned invite.org_id user s.tables scim_user u row may, holds, gone)

  found_ok :
      (org_id : String) (user id : Uuid) (hash : Bytes) (invite : Invitation) (s s' : Session)
      (m : Membership)
      → Invitations.get_invitation id s.tables ≡ ok invite
      → redeem_found C W E U org_id user hash invite s ≡ (ok m, s')
      → Redeemed org_id user id hash s.tables m s'.tables
  found_ok org_id user id hash invite s s' m found e =
      let row = invite.row in
      let (d, t, current, e') =
        bind_ok (check_current C W E org_id row) (λ current. redeem_current C W E U user hash row) s
          s' m e in
      let (own, in_time, same) = check_current_ok org_id row s t d current in
      let (d', t', fits, e'') =
        bind_ok (check_token C W row (some hash)) (λ fits. redeem_fitting C W E U user row) t s' m
          e' in
      let (fit, same') =
        require_ok (hash =~ row.redemption_token_hash) Failure.bad_request t t' d' fits in
      let (active, holds, gone) = fitting_ok user row s s' m (rw (← same, ← same') e'') in
      (
        invite,
        found,
        own,
        in_time,
        (eq_iff _ _).0 fit,
        subst
            (λ o.
              (u : ScimUser)
              → find_scim_user_by_user_id o user s.tables ≡ ok u
              → deprovisioned u ≡ false)
            own active,
        holds,
        subst (λ i. Invitations.get_invitation i s'.tables ≡ err DbError.not_found)
            (get-id id s.tables invite found) gone,
      )

  in_org_ok :
      (org_id : String) (user id : Uuid) (hash : Bytes) (s s' : Session) (m : Membership)
      → redeem_in_org C W E U org_id user id hash s ≡ (ok m, s')
      → Redeemed org_id user id hash s.tables m s'.tables
  unfolding redeem_in_org
  in_org_ok org_id user id hash s s' m e =
      let (invite, t, read, e') =
        bind_ok (query (Invitations.get_invitation id) missing_or_internal)
          (redeem_found C W E U org_id user hash) s s' m e in
      let (found, same) =
        query_ok (Invitations.get_invitation id) missing_or_internal s t invite read in
      subst (λ db. Redeemed org_id user id hash db m s'.tables) same
        (found_ok org_id user id hash invite t s' m
          (subst (λ db. Invitations.get_invitation id db ≡ ok invite) (sym same) found) e')

  -- A redemption of a person with a token that could be decoded.
  abbrev pub Outcome : String → Uuid → String → Db → Membership → Db → Type 0
  Outcome org_id id token before m after =
      (user : Uuid) × (hash : Bytes) × (E.user ≡ some user)
      × (is_human_user user ≡ true)
      × (hash_redemption_token C W token ≡ some hash)
      × Redeemed org_id user id hash before m after

  hashed_ok :
      (org_id : String) (user id : Uuid) (hash : Option Bytes) (s s' : Session) (m : Membership)
      → redeem_hashed C W E U org_id user id hash s ≡ (ok m, s')
      → (h : Bytes) × (hash ≡ some h) × Redeemed org_id user id h s.tables m s'.tables
  hashed_ok org_id user id none s s' m e = absurd (ground arith)
  hashed_ok org_id user id (some hash) s s' m e =
      let (given, t, committed, e') =
        bind_ok (transaction (redeem_in_org C W E U org_id user id hash)) (finish E) s s' m e in
      let (t', inside, kept) =
        transaction_ok (redeem_in_org C W E U org_id user id hash) s t given committed in
      let redeemed = in_org_ok org_id user id hash (after_call s s.tables) t' given inside in
      elim (Bool-cases E.reloads) [
        | inr stale ↦ absurd (ground arith)
        | inl fresh ↦
            let same : given ≡ m = ground arith in
            let last : t ≡ s' = ground arith in (hash, refl, rw (← same, ← last, kept) redeemed)
      ]

  as_ok :
      (org_id : String) (id : Uuid) (token : String) (user : Option Uuid) (s s' : Session)
      (m : Membership)
      → E.user ≡ user
      → redeem_as C W E U org_id id token user s ≡ (ok m, s')
      → Outcome org_id id token s.tables m s'.tables
  as_ok org_id id token none s s' m known e = absurd (ground arith)
  as_ok org_id id token (some user) s s' m known e = elim (Bool-cases (is_human_user user)) [
    | inr machine ↦ absurd (ground arith)
    | inl human ↦
        let (hash, decoded, redeemed) =
          hashed_ok org_id user id (hash_redemption_token C W token) s s' m (rw human at e) in
        (user, hash, known, human, decoded, redeemed)
  ]

  -- `RedeemInvitation` succeeds only for a person who is not deprovisioned in the organization, and with
  -- the token of an invitation of the organization that is there and has not expired. Then a membership
  -- with the subject of the invitation is the person's in that organization, and the invitation is gone.
  pub redemption_right :
      (org_id : String) (id : Uuid) (token : String) (s s' : Session) (m : Membership)
      → redeem_invitation C W E U org_id id token s ≡ (ok m, s')
      → Outcome org_id id token s.tables m s'.tables
  unfolding redeem_invitation
  redemption_right org_id id token s s' m e = as_ok org_id id token E.user s s' m refl e
