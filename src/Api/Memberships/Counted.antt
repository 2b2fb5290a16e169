-- ===== src/Api/Memberships/Counted.antt =====
-- The memberships that `DeleteOrgMembership` of internal/api/memberships.go counts.
use mathlib.Core.Path.{subst}
use platform_orchestrator_ia.Prelude.{
  ◌≤◌, String, ◌≡◌, ◌∙◌, ◌==◌, eq_iff, inl, inr, refl, sym, ap, Uuid, true, false, not, none, some,
  List, [], ◌∷◌, Memᴰ, any, any_sound, select, first_sound, mem-select_intro, mem-map_intro,
  mem-concat_map_intro, concat_map, length, arith, Bool-cases, Option-cases, first, ==_iff,
}
use platform_orchestrator_ia.Prelude.Result.{ok}
use platform_orchestrator_ia.Model.{Membership, User, Db}
use platform_orchestrator_ia.Model.Store.{Done}
use platform_orchestrator_ia.Model.Memberships.{
  ListMembershipsParams, MembershipWithUserMetadata, with_user, get_membership, list_memberships,
  delete_membership,
}
use platform_orchestrator_ia.Model.Memberships.Counting.{
  count_of, count_of-by_time, count_of_bound, select-select, count_positive,
}
use platform_orchestrator_ia.Model.Memberships.Listing.{fits, list_memberships_rows}
use platform_orchestrator_ia.Api.Memberships.{is_only}

-- Where a listing has one row with the identifier, and it is not the only row, another row is there.
pub other_listed :
    (id : Uuid) (page : List MembershipWithUserMetadata)
    → count_of id page ≡ 1
    → is_only id page ≡ false
    → (x : MembershipWithUserMetadata) × Memᴰ x page × ((x.membership.id == id) ≡ false)
other_listed id [] one several = absurd (ground arith)
other_listed id (x ∷ []) one several = (x, Memᴰ.head refl, several)
other_listed id (x ∷ y ∷ page) one several = elim (Bool-cases (x.membership.id == id)) [
  | inr other ↦ (x, Memᴰ.head refl, other)
  | inl own ↦ elim (Bool-cases (y.membership.id == id)) [
    | inr other ↦ (y, Memᴰ.tail (Memᴰ.head refl), other)
    | inl own' ↦ absurd (ground arith)
  ]
]

-- The keys of the tables: an identifier is given once, and each membership is a user's.
abbrev pub Keyed : Db → Type 0
Keyed db =
    ((id : Uuid) → length (select (λ (m : Membership). m.id == id) db.memberships) ≤ 1)
    × ((id : Uuid) → length (select (λ (u : User). u.id == id) db.users) ≤ 1)
    × ((m : Membership)
        → Memᴰ m db.memberships
        → any (λ (u : User). u.id == m.user_id) db.users ≡ true)

-- The memberships that `DeleteOrgMembership` counts.
abbrev pub holders : String → Membership → ListMembershipsParams
holders org_id m = record {
  user_id = none;
  org_id = some org_id;
  subject_type = some m.subject_type;
  subject = some m.subject;
}

pub listed_once :
    (org_id : String) (m : Membership) (db : Db) (page : List MembershipWithUserMetadata)
    → Keyed db
    → Memᴰ m db.memberships
    → m.org_id ≡ org_id
    → list_memberships (holders org_id m) db ≡ ok page
    → count_of m.id page ≡ 1
listed_once org_id m db page (ids, users, owned) there own e =
    let chosen = select (fits (holders org_id m)) db.memberships in
    let rows = concat_map (with_user db.users) chosen in
    let same : count_of m.id page ≡ count_of m.id rows =
      ap (count_of m.id) (sym (list_memberships_rows (holders org_id m) db page e))
      ∙ count_of-by_time m.id rows in
    let few = count_of_bound m.id db.users chosen users in
    let fewer =
      select-select (λ (q : Membership). q.id == m.id) (fits (holders org_id m)) db.memberships in
    let one = ids m.id in
    let (u, known, is_user) =
      any_sound (λ (u : User). u.id == m.user_id) db.users (owned m there) in
    let counted =
      count_positive m.id _ rows
        (mem-concat_map_intro (with_user db.users)
          (mem-select_intro (fits (holders org_id m)) there (
            ground (
              arith,
              (eq_iff m.org_id org_id).1 own,
              (eq_iff m.subject_type m.subject_type).1 refl,
              (eq_iff m.subject m.subject).1 refl,
            )))
          (mem-map_intro _ (mem-select_intro (λ (u : User). u.id == m.user_id) known is_user)))
        refl in
    ground arith

pub deleted_keeps :
    (id : Uuid) (db db' : Db) (d : Done) (q : Membership)
    → delete_membership id db ≡ ok (d, db')
    → (q.id == id) ≡ false
    → Memᴰ q db.memberships
    → Memᴰ q db'.memberships
unfolding delete_membership
deleted_keeps id db db' d q e other there =
    elim (Bool-cases (any (λ (m : Membership). m.id == id) db.memberships)) [
      | inr missing ↦ absurd (ground arith)
      | inl found ↦
          let rows : select (λ (m : Membership). not (m.id == id)) db.memberships
              ≡ db'.memberships =
            ground arith in
          subst (Memᴰ q) rows
            (mem-select_intro (λ (m : Membership). not (m.id == id)) there (ground arith))
    ]

pub get_membership_sound :
    (id : Uuid) (db : Db) (m : Membership)
    → get_membership id db ≡ ok m
    → Memᴰ m db.memberships × (m.id ≡ id)
unfolding get_membership
get_membership_sound id db m e =
    elim (Option-cases (first (λ (q : Membership). q.id == id) db.memberships)) [
      | inl missing ↦ absurd (ground arith)
      | inr (q, found) ↦
          let same : q ≡ m = ground arith in
          let (there, own) = first_sound (λ (q : Membership). q.id == id) db.memberships found in
          (subst (λ q. Memᴰ q db.memberships) same there, (==_iff _ _).0 (rw same at own))
    ]

pub fits-holders :
    (org_id : String) (m q : Membership)
    → fits (holders org_id m) q ≡ true
    → (q.org_id ≡ org_id) × (q.subject_type ≡ m.subject_type) × (q.subject ≡ m.subject)
fits-holders org_id m q fit =
    ((eq_iff _ _).0 (ground arith), (eq_iff _ _).0 (ground arith), (eq_iff _ _).0 (ground arith))
