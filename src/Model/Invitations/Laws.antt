-- ===== src/Model/Invitations/Laws.antt =====
-- What the reads and the deletion of internal/model/invitations.go find and keep.
use platform_orchestrator_ia.Prelude.{
  ◌≡◌, refl, inl, inr, Uuid, not, any, select, first-select-not, arith, Bool-cases, Option-cases,
  first, first_sound, ◌==◌, ==_iff,
}
use platform_orchestrator_ia.Prelude.Result.{ok, err}
use platform_orchestrator_ia.Model.{InvitationRow, User, Db}
use platform_orchestrator_ia.Model.Store.{DbError, Done}
use platform_orchestrator_ia.Model.Invitations.{
  Invitation, has_id, with_creator, get_invitation, delete_invitation,
}

-- A deleted invitation is found no more, and no membership goes with it.
pub delete-get :
    (id : Uuid) (db db' : Db) (d : Done)
    → delete_invitation id db ≡ ok (d, db')
    → (get_invitation id db' ≡ err DbError.not_found) × (db'.memberships ≡ db.memberships)
unfolding delete_invitation get_invitation
delete-get id db db' d e = elim (Bool-cases (any (has_id id) db.invitations)) [
  | inr missing ↦ absurd (ground arith)
  | inl there ↦
      let rows : select (λ (i : InvitationRow). not (has_id id i)) db.invitations
          ≡ db'.invitations =
        ground arith in
      (rw (← rows, get_invitation, first-select-not (has_id id) db.invitations) refl, ground arith)
]

-- An invitation that is found has the identifier that was asked for.
pub get-id : (id : Uuid) (db : Db) (i : Invitation) → get_invitation id db ≡ ok i → i.row.id ≡ id
unfolding get_invitation with_creator
get-id id db i e = elim (Option-cases (first (has_id id) db.invitations)) [
  | inl missing ↦ absurd (ground arith)
  | inr (row, found) ↦
      let (there, own) = first_sound (has_id id) db.invitations found in
      elim (Option-cases (first (λ (u : User). u.id == row.created_by) db.users)) [
        | inl nobody ↦ (==_iff _ _).0 (ground arith)
        | inr (u, known) ↦ (==_iff _ _).0 (ground arith)
      ]
]
