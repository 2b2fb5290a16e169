-- ===== src/Api/Invitations/Granting.antt =====
-- The membership that `RedeemInvitation` of internal/api/invitations.go finds or creates.
use mathlib.Core.Path.{subst}
use platform_orchestrator_ia.Prelude.{
  ==_iff, eq_iff, ◌≡◌, ◌∙◌, inl, inr, refl, sym, ap, ◌=~◌, ◌==◌, UuidText, Uuid, Option, none, some,
  List, [], ◌∷◌, Memᴰ, first_sound, arith, Bool-cases,
}
use platform_orchestrator_ia.Prelude.Result.{ok, err}
use platform_orchestrator_ia.Model.{InvitationRow, Membership, Db}
use platform_orchestrator_ia.Model.Store.{DbError, Session, return, call, query}
use platform_orchestrator_ia.Model.Store.Inversion.{bind_ok, call_ok, query_ok}
use platform_orchestrator_ia.Model.Memberships.{
  MembershipWithUserMetadata, create_membership, get_membership, list_memberships,
}
use platform_orchestrator_ia.Model.Memberships.Laws.{create-get}
use platform_orchestrator_ia.Model.Memberships.Listing.{list_memberships_sound}
use platform_orchestrator_ia.Model.Invitations
use platform_orchestrator_ia.Model.Invitations.{Invitation, delete_invitation}
use platform_orchestrator_ia.Model.Invitations.Laws.{delete-get}
use platform_orchestrator_ia.Api.Authenticate.Tokens.{Codec, RawCodec}
use platform_orchestrator_ia.Api.Roles.{Environment, always_internal}
use platform_orchestrator_ia.Api.Invitations.{
  same_subject, creation_error, promised, create_with_role, create_with_parsed, existing_or_new,
  find_or_create, use_up,
}

-- A membership of the table that is the one an invitation promises to a user.
abbrev pub Holds : Uuid → InvitationRow → Membership → Db → Type 0
Holds user invite m db =
    Memᴰ m db.memberships
    × (m.user_id ≡ user)
    × (m.org_id ≡ invite.org_id)
    × (m.subject_type ≡ invite.membership_subject_type)
    × (m.subject ≡ invite.membership_subject)

module _ (C : Codec) (W : RawCodec) (E : Environment) (U : UuidText) where
  created-Holds :
      (user : Uuid) (invite : InvitationRow) (role : Option Uuid) (s s' : Session) (m : Membership)
      → create_with_role C W E U user invite role s ≡ (ok m, s')
      → Holds user invite m s'.tables
  unfolding get_membership
  created-Holds user invite role s s' m e =
      let new = promised C W E U user invite role in
      let (same, found, exists, others) =
        create-get new m s.tables s'.tables
          (call_ok (create_membership new) creation_error s s' m e) in
      let present =
        first_sound (λ (q : Membership). q.id == new.id) s'.tables.memberships (ground arith) in
      (
        subst (λ q. Memᴰ q s'.tables.memberships) (sym same) present.0,
        ap (λ (q : Membership). q.user_id) same,
        ap (λ (q : Membership). q.org_id) same,
        ap (λ (q : Membership). q.subject_type) same,
        ap (λ (q : Membership). q.subject) same,
      )

  parsed-Holds :
      (user : Uuid) (invite : InvitationRow) (role : Option Uuid) (s s' : Session) (m : Membership)
      → create_with_parsed C W E U user invite role s ≡ (ok m, s')
      → Holds user invite m s'.tables
  parsed-Holds user invite none s s' m e = absurd (ground arith)
  parsed-Holds user invite (some role) s s' m e = created-Holds user invite (some role) s s' m e

  pub found-Holds :
      (user : Uuid) (invite : InvitationRow) (s s' : Session) (m : Membership)
      → find_or_create C W E U user invite s ≡ (ok m, s')
      → Holds user invite m s'.tables
  found-Holds user invite s s' m e =
      let (page, t, listed, e') =
        bind_ok (query (list_memberships (same_subject user invite)) always_internal)
          (existing_or_new C W E U user invite) s s' m e in
      let (rows, same) =
        query_ok (list_memberships (same_subject user invite)) always_internal s t page listed in
      chosen page t (rows, same) e'
    where
      chosen :
          (page : List MembershipWithUserMetadata) (t : Session)
          → (list_memberships (same_subject user invite) s.tables ≡ ok page) × (t.tables ≡ s.tables)
          → existing_or_new C W E U user invite page t ≡ (ok m, s')
          → Holds user invite m s'.tables
      chosen [] t (rows, same) e' = elim (Bool-cases (invite.membership_subject_type =~ "role")) [
        | inl of_role ↦
            parsed-Holds user invite (U.parse invite.membership_subject) t s' m (rw of_role at e')
        | inr other ↦ created-Holds user invite none t s' m (rw other at e')
      ]
      chosen (x ∷ page) t (rows, same) e' =
          let mine : x.membership ≡ m = ground arith in
          let kept : s.tables ≡ s'.tables = sym same ∙ ground arith in
          let (there, fit) =
            list_memberships_sound (same_subject user invite) s.tables (x ∷ page) x rows
              (Memᴰ.head refl) in
          subst (λ q. Holds user invite q s'.tables) mine
            (subst (λ db. Holds user invite x.membership db) kept
              (
                there,
                (==_iff _ _).0 (ground arith),
                (eq_iff _ _).0 (ground arith),
                (eq_iff _ _).0 (ground arith),
                (eq_iff _ _).0 (ground arith),
              ))

  pub used_up :
      (user : Uuid) (invite : InvitationRow) (m m' : Membership) (s s' : Session)
      → Holds user invite m s.tables
      → use_up C W E U invite m s ≡ (ok m', s')
      → Holds user invite m' s'.tables
        × (Invitations.get_invitation invite.id s'.tables ≡ err DbError.not_found)
  used_up user invite m m' s s' holds e =
      let (d, t, deleted, e') =
        bind_ok (call (delete_invitation invite.id) always_internal) (λ gone. return m) s s' m' e in
      let (gone, kept) =
        delete-get invite.id s.tables t.tables d
          (call_ok (delete_invitation invite.id) always_internal s t d deleted) in
      let same : m ≡ m' = ground arith in
      let last : t ≡ s' = ground arith in
      subst
        (λ (z : Session).
          Holds user invite m' z.tables
          × (Invitations.get_invitation invite.id z.tables ≡ err DbError.not_found))
        last (rw (← same, kept) holds, gone)
