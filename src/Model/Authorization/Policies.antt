-- ===== src/Model/Authorization/Policies.antt =====
-- What the join of `ListAuthorizationPolicies` returns.
use mathlib.Core.List.Memᴰ
use platform_orchestrator_ia.Prelude.{
  String, ◌=~◌, ◌≡◌, ◌↔◌, inl, inr, refl, ◌∙◌, Uuid, some, List, [], Memᴰ, arith, eq_iff, ==_iff,
  concat_map, mem-select, mem-select_intro, mem-concat_map, mem-concat_map_intro, mem-map,
  mem-map_intro, Bool-cases, Option-cases,
}
use platform_orchestrator_ia.Model.{Membership, Role, ServiceUserRole, Db, bound_resource}
use platform_orchestrator_ia.Model.Authorization.{
  AuthorizationPolicy, joined_roles, membership_roles, role_policies, membership_policies,
  service_user_policies, list_authorization_policies,
}

-- A subject holds a role on a resource: by a membership of a user, or as a service user. The role
-- belongs to the same organization.
pub data Holds (db : Db) (subject : Uuid) (resource : String) (r : Role) : Type 0 where
  as_member :
      (m : Membership)
      → Memᴰ m db.memberships
      → m.subject_type ≡ "role"
      → m.role ≡ some r.id
      → r.org_id ≡ m.org_id
      → subject ≡ m.user_id
      → resource ≡ bound_resource m.org_id m.scope
      → Holds db subject resource r
  as_service_user :
      (s : ServiceUserRole)
      → Memᴰ s db.service_user_roles
      → r.id ≡ s.role_id
      → r.org_id ≡ s.org_id
      → subject ≡ s.service_user_id
      → resource ≡ bound_resource s.org_id s.scope
      → Holds db subject resource r

pub joined_roles_iff :
    (roles : List Role) (role_id : Uuid) (org_id : String) (r : Role)
    → Memᴰ r (joined_roles roles role_id org_id)
      ↔ (Memᴰ r roles × (r.id ≡ role_id) × (r.org_id ≡ org_id))
joined_roles_iff roles role_id org_id r = (
  λ m.
      let (there, e) = mem-select _ roles m in
      (there, ground (arith, ==_iff r.id role_id), ground (arith, eq_iff r.org_id org_id)),
  λ h. mem-select_intro _ h.0 (ground (arith, ==_iff r.id role_id, eq_iff r.org_id org_id)),
)

pub membership_roles_iff :
    (roles : List Role) (m : Membership) (r : Role)
    → Memᴰ r (membership_roles roles m)
      ↔ ((m.subject_type ≡ "role") × (m.role ≡ some r.id) × Memᴰ r roles × (r.org_id ≡ m.org_id))
membership_roles_iff roles m r = (to, from)
  where
    to :
        Memᴰ r (membership_roles roles m)
        → (m.subject_type ≡ "role") × (m.role ≡ some r.id) × Memᴰ r roles × (r.org_id ≡ m.org_id)
    to k = elim (Bool-cases (m.subject_type =~ "role")) [
      | inl e ↦ elim (Option-cases m.role) [
        | inl e' ↦ absurd (nowhere (rw (e, e') at k))
        | inr (role_id, e') ↦
            let (there, same, org) =
              (joined_roles_iff roles role_id m.org_id r).0 (rw (e, e') at k) in
            ((eq_iff _ _).0 e, cc, there, org)
      ]
      | inr e ↦ absurd (nowhere (rw e at k))
    ]
      where
        nowhere : Memᴰ r [] → ⊥
        nowhere k' = elim k' [ ]

    from :
        (m.subject_type ≡ "role") × (m.role ≡ some r.id) × Memᴰ r roles × (r.org_id ≡ m.org_id)
        → Memᴰ r (membership_roles roles m)
    from (e, e', there, org) =
        rw ((eq_iff _ _).1 e, e') ((joined_roles_iff roles r.id m.org_id r).1 (there, refl, org))

role_policies_to :
    (subject : Uuid) (resource : String) (r : Role) (p : AuthorizationPolicy)
    → Memᴰ p (role_policies subject resource r)
    → (p.subject_id ≡ subject)
      × (p.resource ≡ resource)
      × Memᴰ p.permission r.permissions
      × (p.role_id ≡ r.id)
role_policies_to subject resource r p m =
    let (permission, there, e) = mem-map _ r.permissions m in
    (rw e refl, rw e refl, rw e there, rw e refl)

role_policies_from :
    (subject : Uuid) (resource : String) (r : Role) (p : AuthorizationPolicy)
    → p.subject_id ≡ subject
    → p.resource ≡ resource
    → Memᴰ p.permission r.permissions
    → p.role_id ≡ r.id
    → Memᴰ p (role_policies subject resource r)
role_policies_from subject resource r p e₁ e₂ m e₃ =
    let same : p ≡ record {
      subject_id = subject;
      resource = resource;
      permission = p.permission;
      role_id = r.id;
    } =
      ground arith in
    rw same (
      mem-map_intro
        (λ (permission : String). record {
          subject_id = subject;
          resource = resource;
          permission = permission;
          role_id = r.id;
        })
        m)

-- The rows of the query are the permissions of the roles that subjects hold, and nothing else.
pub list_authorization_policies_iff :
    (db : Db) (p : AuthorizationPolicy)
    → Memᴰ p (list_authorization_policies db) ↔ (
        (r : Role) × Memᴰ r db.roles
        × Holds db p.subject_id p.resource r
        × Memᴰ p.permission r.permissions
        × (p.role_id ≡ r.id))
unfolding list_authorization_policies membership_policies service_user_policies
list_authorization_policies_iff db p = (to, from)
  where
    Row : Type 0
    Row =
        (r : Role) × Memᴰ r db.roles
        × Holds db p.subject_id p.resource r
        × Memᴰ p.permission r.permissions
        × (p.role_id ≡ r.id)

    to : Memᴰ p (list_authorization_policies db) → Row
    to k = elim (Memᴰ.append_cases (concat_map (membership_policies db.roles) db.memberships) k) [
      | inl k' ↦
          let (m, here, k₁) = mem-concat_map (membership_policies db.roles) db.memberships k' in
          let (r, k₂, k₃) = mem-concat_map _ (membership_roles db.roles m) k₁ in
          let (e, e', there, org) = (membership_roles_iff db.roles m r).0 k₂ in
          let (subject, resource, permission, role) = role_policies_to _ _ r p k₃ in
          (r, there, as_member m here e e' org subject resource, permission, role)
      | inr k' ↦
          let (s, here, k₁) =
            mem-concat_map (service_user_policies db.roles) db.service_user_roles k' in
          let (r, k₂, k₃) = mem-concat_map _ (joined_roles db.roles s.role_id s.org_id) k₁ in
          let (there, e, org) = (joined_roles_iff db.roles s.role_id s.org_id r).0 k₂ in
          let (subject, resource, permission, role) = role_policies_to _ _ r p k₃ in
          (r, there, as_service_user s here e org subject resource, permission, role)
    ]

    by_holding :
        (r : Role) {subject : Uuid} {resource : String}
        → Memᴰ r db.roles
        → Holds db subject resource r
        → p.subject_id ≡ subject
        → p.resource ≡ resource
        → Memᴰ p.permission r.permissions
        → p.role_id ≡ r.id
        → Memᴰ p (list_authorization_policies db)
    by_holding r there (as_member m here e e' org own at) same same' permission role =
        Memᴰ.append_left _ (
          mem-concat_map_intro (membership_policies db.roles) here (
            mem-concat_map_intro _ ((membership_roles_iff db.roles m r).1 (e, e', there, org))
              (role_policies_from _ _ r p (same ∙ own) (same' ∙ at) permission role)))
    by_holding r there (as_service_user s here e org own at) same same' permission role =
        Memᴰ.append_right (concat_map (membership_policies db.roles) db.memberships) (
          mem-concat_map_intro (service_user_policies db.roles) here (
            mem-concat_map_intro _
              ((joined_roles_iff db.roles s.role_id s.org_id r).1 (there, e, org))
              (role_policies_from _ _ r p (same ∙ own) (same' ∙ at) permission role)))

    from : Row → Memᴰ p (list_authorization_policies db)
    from (r, there, held, permission, role) = by_holding r there held refl refl permission role
