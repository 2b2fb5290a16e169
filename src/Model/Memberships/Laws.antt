-- ===== src/Model/Memberships/Laws.antt =====
-- What the changes of the table of memberships, internal/model/memberships.go, keep and add.
use mathlib.Core.List.Memᴰ
use mathlib.Core.Path.{subst}
use platform_orchestrator_ia.Prelude.{
  String, ◌≡◌, ◌↔◌, ◌==◌, ==_refl, eq_iff, ◌=~◌, inl, inr, refl, sym, Uuid, true, false, not, ◌&&◌,
  List, [], ◌∷◌, ◌++◌, any, select, first-append, Memᴰ, mem-select, mem-select_intro, arith,
  Bool-cases,
}
use platform_orchestrator_ia.Prelude.Result.{ok}
use platform_orchestrator_ia.Model.{Membership, Db}
use platform_orchestrator_ia.Model.Store.{Done}
use platform_orchestrator_ia.Model.Memberships.{
  create_membership, get_membership, delete_memberships_by_ids, same_grant, role_exists,
}

-- A created membership is the one that was asked for and is found under its identifier; its role
-- belongs to its organization; and every earlier membership stays.
pub create-get :
    (m m' : Membership) (db db' : Db)
    → create_membership m db ≡ ok (m', db')
    → (m' ≡ m)
      × (get_membership m.id db' ≡ ok m)
      × (role_exists m db ≡ true)
      × ((q : Membership) → Memᴰ q db.memberships → Memᴰ q db'.memberships)
unfolding create_membership get_membership
create-get m m' db db' e =
    elim (Bool-cases (any (λ (q : Membership). q.id == m.id) db.memberships)) [
      | inl clash ↦ absurd (ground arith)
      | inr fresh ↦ elim (Bool-cases (any (same_grant m) db.memberships)) [
        | inl twice ↦ absurd (ground arith)
        | inr once ↦ elim (Bool-cases (role_exists m db)) [
          | inr missing ↦ absurd (ground arith)
          | inl exists ↦
              let same : m ≡ m' = ground arith in
              let rows : db.memberships ++ (m ∷ []) ≡ db'.memberships = ground arith in
              (
                sym same,
                rw
                    (
                      ← rows,
                      get_membership,
                      first-append (λ (q : Membership). q.id == m.id) db.memberships m fresh
                          (==_refl m.id),
                    )
                    refl,
                exists,
                λ q there. subst (Memᴰ q) rows (Memᴰ.append_left (m ∷ []) there),
              )
        ]
      ]
    ]

-- `DeleteMembershipsByIds` removes exactly the memberships of the organization with one of the
-- identifiers; those of other organizations stay.
pub delete_memberships_by_ids_iff :
    (org_id : String) (ids : List Uuid) (db db' : Db) (d : Done) (m : Membership)
    → delete_memberships_by_ids org_id ids db ≡ ok (d, db')
    → Memᴰ m db'.memberships
      ↔ (Memᴰ m db.memberships × (m.org_id ≡ org_id → any (λ id. id == m.id) ids ≡ false))
unfolding delete_memberships_by_ids
delete_memberships_by_ids_iff org_id ids db db' d m e =
    let rows : select (λ (m : Membership). not (m.org_id =~ org_id && any (λ id. id == m.id) ids))
          db.memberships
        ≡ db'.memberships =
      ground arith in
    (
      λ there.
          let (before, kept) = mem-select _ db.memberships (subst (Memᴰ m) (sym rows) there) in
          (before, λ own. ground (arith, eq_iff m.org_id org_id)),
      λ h. subst (Memᴰ m) rows (
          mem-select_intro _ h.0 (elim (Bool-cases (m.org_id =~ org_id)) [
            | inl own ↦ let gone = h.1 ((eq_iff _ _).0 own) in ground arith
            | inr other ↦ ground arith
          ])),
    )
