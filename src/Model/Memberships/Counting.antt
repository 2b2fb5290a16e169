-- ===== src/Model/Memberships/Counting.antt =====
-- How often `ListMemberships` of internal/model/memberships.go returns a membership.
use platform_orchestrator_ia.Prelude.{
  ℕ, ◌+◌, ◌≤◌, ◌≡◌, ◌==◌, ==_refl, leb, inl, inr, refl, Uuid, Bool, List, [], ◌∷◌, ◌++◌, Memᴰ, map,
  select, length, concat_map, arith, Bool-cases, if◌then◌else◌,
}
use platform_orchestrator_ia.Model.{Membership, User}
use platform_orchestrator_ia.Model.Memberships.{
  MembershipWithUserMetadata, insert_by_time, by_time, with_user,
}

abbrev pub of_id : Uuid → MembershipWithUserMetadata → Bool
of_id id x = x.membership.id == id

-- The number of rows with a membership's identifier.
abbrev pub count_of : Uuid → List MembershipWithUserMetadata → ℕ
count_of id xs = length (select (of_id id) xs)

count_of-insert_by_time :
    (id : Uuid) (m : MembershipWithUserMetadata) (qs : List MembershipWithUserMetadata)
    → count_of id (insert_by_time m qs) ≡ count_of id (m ∷ qs)
unfolding insert_by_time
count_of-insert_by_time id m [] = refl
count_of-insert_by_time id m (q ∷ qs) =
    let rest = count_of-insert_by_time id m qs in
    elim (Bool-cases (leb m.membership.created_at q.membership.created_at)) [
      | inl early ↦ rw early refl
      | inr late ↦ ground arith
    ]

pub count_of-by_time :
    (id : Uuid) (ms : List MembershipWithUserMetadata) → count_of id (by_time ms) ≡ count_of id ms
unfolding by_time
count_of-by_time id [] = refl
count_of-by_time id (m ∷ ms) =
    let rest = count_of-by_time id ms in
    let one = count_of-insert_by_time id m (by_time ms) in ground arith

count_of-append :
    (id : Uuid) (xs ys : List MembershipWithUserMetadata)
    → count_of id (xs ++ ys) ≡ count_of id xs + count_of id ys
count_of-append id [] ys = omega arith
count_of-append id (x ∷ xs) ys = let rest = count_of-append id xs ys in ground arith

abbrev metadata : Membership → User → MembershipWithUserMetadata
metadata m u = record {
  membership = m;
  user_display_name = u.display_name;
  user_primary_email_address = u.primary_email_address;
}

count_of-map :
    (id : Uuid) (m : Membership) (us : List User)
    → count_of id (map (metadata m) us) ≤ (if m.id == id then length us else 0)
count_of-map id m [] = ground arith
count_of-map id m (u ∷ us) = let rest = count_of-map id m us in ground arith

-- Where each user is given once, a membership is counted at most once.
pub count_of_bound :
    (id : Uuid) (users : List User) (ms : List Membership)
    → ((user : Uuid) → length (select (λ (u : User). u.id == user) users) ≤ 1)
    → count_of id (concat_map (with_user users) ms)
      ≤ length (select (λ (m : Membership). m.id == id) ms)
count_of_bound id users [] once = omega arith
count_of_bound id users (m ∷ ms) once =
    let rest = count_of_bound id users ms once in
    let one = count_of-map id m (select (λ u. u.id == m.user_id) users) in
    let split = count_of-append id (with_user users m) (concat_map (with_user users) ms) in
    let few = once m.user_id in ground arith

pub select-select :
    (p fits : Membership → Bool) (ms : List Membership)
    → length (select p (select fits ms)) ≤ length (select p ms)
select-select p fits [] = omega arith
select-select p fits (m ∷ ms) = let rest = select-select p fits ms in ground arith

pub count_positive :
    (id : Uuid) (x : MembershipWithUserMetadata) (xs : List MembershipWithUserMetadata)
    → Memᴰ x xs
    → x.membership.id ≡ id
    → 1 ≤ count_of id xs
count_positive id x [] t own = elim t [ ]
count_positive id x (y ∷ ys) (Memᴰ.head e) own = rw (← e, own, ==_refl id) (omega arith)
count_positive id x (y ∷ ys) (Memᴰ.tail t) own =
    let rest = count_positive id x ys t own in ground arith
