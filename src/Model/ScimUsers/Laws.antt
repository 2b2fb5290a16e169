-- ===== src/Model/ScimUsers/Laws.antt =====
-- What the deletion of internal/model/scim_users.go leaves behind.
use platform_orchestrator_ia.Prelude.{
  ◌≡◌, refl, inl, inr, String, ◌=~◌, ◌==◌, Uuid, not, ◌&&◌, none, List, [], ◌∷◌, any, map, first,
  select, first-select-not, arith, Bool-cases,
}
use platform_orchestrator_ia.Prelude.Result.{ok, err}
use platform_orchestrator_ia.Model.{Time, ScimUser, ScimGroupMember, Db}
use platform_orchestrator_ia.Model.Store.{DbError, Done}
use platform_orchestrator_ia.Model.ScimUsers.{is_row, tombstone, get_scim_user, tombstone_scim_user}

first-tombstone :
    (now : Time) (org_id : String) (id : Uuid) (us : List ScimUser)
    → first (is_row org_id id) (map (tombstone now org_id id) us) ≡ none
first-tombstone now org_id id [] = refl
first-tombstone now org_id id (u ∷ us) =
    let rest = first-tombstone now org_id id us in
    elim (Bool-cases (is_row org_id id u)) [
      | inl live ↦ rw (live, rest) (ground arith)
      | inr other ↦ rw (other, other) rest
    ]

-- A user who is deleted is found no more, is a member of no group, and no membership goes with the row.
pub tombstone-get :
    (now : Time) (org_id : String) (id : Uuid) (db db' : Db) (d : Done)
    → tombstone_scim_user now org_id id db ≡ ok (d, db')
    → (get_scim_user org_id id db' ≡ err DbError.not_found)
      × (first
            (λ (m : ScimGroupMember). m.org_id =~ org_id && m.scim_user_id == id)
            db'.scim_group_members
          ≡ none)
      × (db'.memberships ≡ db.memberships)
unfolding tombstone_scim_user get_scim_user
tombstone-get now org_id id db db' d e = elim (Bool-cases (any (is_row org_id id) db.scim_users)) [
  | inr missing ↦ absurd (ground arith)
  | inl there ↦
      let rows : map (tombstone now org_id id) db.scim_users ≡ db'.scim_users = ground arith in
      let members : select
            (λ (m : ScimGroupMember). not (m.org_id =~ org_id && m.scim_user_id == id))
            db.scim_group_members
          ≡ db'.scim_group_members =
        ground arith in
      (
        rw (← rows, get_scim_user, first-tombstone now org_id id db.scim_users) refl,
        rw
            (
              ← members,
              first-select-not (λ (m : ScimGroupMember). m.org_id =~ org_id && m.scim_user_id == id)
                  db.scim_group_members,
            )
            refl,
        ground arith,
      )
]
