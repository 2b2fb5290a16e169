-- ===== src/Model/Memberships/Listing.antt =====
-- What `ListMemberships` of internal/model/memberships.go returns.
use mathlib.Core.List.Memᴰ
use mathlib.Core.Path.{subst}
use platform_orchestrator_ia.Prelude.{
  ◌≡◌, ◌⊎◌, ◌==◌, leb, Bool, true, not, inl, inr, sym, ap, List, [], ◌∷◌, ◌&&◌, Memᴰ, concat_map,
  select, mem-select, mem-map, mem-concat_map, arith, Bool-cases,
}
use platform_orchestrator_ia.Prelude.Result.{ok}
use platform_orchestrator_ia.Model.{Membership, User, Db}
use platform_orchestrator_ia.Model.Memberships.{
  ListMembershipsParams, matches, matches_id, is_set, MembershipWithUserMetadata, insert_by_time,
  by_time, with_user, list_memberships,
}

mem-insert_by_time :
    (x m : MembershipWithUserMetadata) (qs : List MembershipWithUserMetadata)
    → Memᴰ x (insert_by_time m qs)
    → (x ≡ m) ⊎ Memᴰ x qs
unfolding insert_by_time
mem-insert_by_time x m [] t = Memᴰ.cases_cons t
mem-insert_by_time x m (q ∷ qs) t =
    elim (Bool-cases (leb m.membership.created_at q.membership.created_at)) [
      | inl early ↦ Memᴰ.cases_cons (rw early at t)
      | inr late ↦ elim (Memᴰ.cases_cons (rw late at t)) [
        | inl e ↦ inr (Memᴰ.head e)
        | inr there ↦ elim (mem-insert_by_time x m qs there) [
          | inl e ↦ inl e
          | inr rest ↦ inr (Memᴰ.tail rest)
        ]
      ]
    ]

mem-by_time :
    (x : MembershipWithUserMetadata) (ms : List MembershipWithUserMetadata)
    → Memᴰ x (by_time ms)
    → Memᴰ x ms
unfolding by_time
mem-by_time x [] t = t
mem-by_time x (m ∷ ms) t = elim (mem-insert_by_time x m (by_time ms) t) [
  | inl e ↦ Memᴰ.head e
  | inr there ↦ Memᴰ.tail (mem-by_time x ms there)
]

mem-with_user :
    (x : MembershipWithUserMetadata) (users : List User) (m : Membership)
    → Memᴰ x (with_user users m)
    → x.membership ≡ m
mem-with_user x users m t =
    let (u, there, e) = mem-map _ (select (λ u. u.id == m.user_id) users) t in
    ap (λ (q : MembershipWithUserMetadata). q.membership) e

-- The rows that the parameters select.
abbrev pub fits : ListMembershipsParams → Membership → Bool
fits params m =
    matches_id params.user_id m.user_id
    && matches params.org_id m.org_id
    && matches params.subject_type m.subject_type
    && matches params.subject m.subject

pub list_memberships_rows :
    (params : ListMembershipsParams) (db : Db) (page : List MembershipWithUserMetadata)
    → list_memberships params db ≡ ok page
    → by_time (concat_map (with_user db.users) (select (fits params) db.memberships)) ≡ page
unfolding list_memberships
list_memberships_rows params db page e =
    elim (Bool-cases (not (is_set params.user_id) && not (is_set params.org_id))) [
      | inl unbounded ↦ absurd (ground arith)
      | inr bounded ↦
          elim (Bool-cases (is_set params.subject && not (is_set params.subject_type))) [
            | inl untyped ↦ absurd (ground arith)
            | inr typed ↦ ground arith
          ]
    ]

-- A membership that is listed is in the table, and is one that the parameters select.
pub list_memberships_sound :
    (params : ListMembershipsParams) (db : Db) (page : List MembershipWithUserMetadata)
    (x : MembershipWithUserMetadata)
    → list_memberships params db ≡ ok page
    → Memᴰ x page
    → Memᴰ x.membership db.memberships × (fits params x.membership ≡ true)
list_memberships_sound params db page x e t =
    let sorted = subst (Memᴰ x) (sym (list_memberships_rows params db page e)) t in
    let (m, there, own) =
      mem-concat_map (with_user db.users) (select (fits params) db.memberships) (
        mem-by_time x (concat_map (with_user db.users) (select (fits params) db.memberships))
          sorted) in
    let same = mem-with_user x db.users m own in
    let (in_table, test) = mem-select (fits params) db.memberships there in
    (subst (λ q. Memᴰ q db.memberships) (sym same) in_table, rw same test)
