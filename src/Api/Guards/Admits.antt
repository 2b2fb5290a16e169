-- ===== src/Api/Guards/Admits.antt =====
-- Whom the guards of internal/api/authorize.go let through.
use platform_orchestrator_ia.Prelude.{
  String, ◌<>◌, ◌≡◌, ◌==◌, ==_iff, ◌↔◌, ◌⊎◌, inl, inr, refl, Uuid, true, [], ◌∷◌, Memᴰ, arith,
  Bool-cases, Option-cases,
}
use platform_orchestrator_ia.Prelude.Result.{ok}
use platform_orchestrator_ia.Model.{Db}
use platform_orchestrator_ia.Shared.UserId.{internal_system_uuid, is_human_user}
use platform_orchestrator_ia.Engine.Authorize.{Check}
use platform_orchestrator_ia.Engine.Authorize.Known.{IsPlain}
use platform_orchestrator_ia.Api.Server.{Server, IsAuthorizer}
use platform_orchestrator_ia.Api.Authorize.{normalize_permission, internal_authorize_inner}
use platform_orchestrator_ia.Api.Authorize.Sorting.{Active, Permitted}
use platform_orchestrator_ia.Api.Authorize.Failing.{internal_authorize_inner-Splits}
use platform_orchestrator_ia.Api.Guards.{
  passed, inner_check, check_org_authorization, check_user_id_self_authorization,
}

module _ (S : Server) (db : Db) (Good : S.authorizer.State → Type 0)
    (L : IsAuthorizer S.authorizer db Good) (user : Uuid) where
  inner_check_admits :
      (s s' : S.authorizer.State) (check : Check)
      → Good s
      → IsPlain (normalize_permission check)
      → inner_check S s user check ≡ (ok passed, s')
      → (user ≡ internal_system_uuid) ⊎ (Active S db user × Permitted S db user check)
  unfolding inner_check
  inner_check_admits s s' check good plain e = elim (Bool-cases (user == internal_system_uuid)) [
    | inl system ↦ inl ((==_iff _ _).0 system)
    | inr other ↦ elim (Option-cases (internal_authorize_inner S s user (check ∷ [])).0) [
      | inl broken ↦ absurd (ground arith)
      | inr ((all_passed, failed), answer) ↦
          let admitted : all_passed ≡ true = elim (Bool-cases all_passed) [
            | inl fine ↦ fine
            | inr refused ↦ absurd (ground arith)
          ] in
          let after = (internal_authorize_inner S s user (check ∷ [])).1 in
          let (splits, allowed, _) =
            internal_authorize_inner-Splits S db user Good L s after (check ∷ []) failed all_passed
              good (plain, tt) (λ i. (answer i, after)) in
          let nothing : failed ≡ [] = (allowed.0 admitted).1 in
          elim (splits.complete check (Memᴰ.head refl)) [
            | inl m ↦ let m' : Memᴰ check [] = rw nothing at m in elim m' [ ]
            | inr permitted ↦ inr permitted
          ]
    ]
  ]

  -- `checkOrgAuthorization` lets through only the system user, and an active subject that a role
  -- grants the permission on the organization. The permission holds no "$", and the authorizer is in
  -- a good state.
  pub check_org_authorization_admits :
      (s s' : S.authorizer.State) (org_id permission : String)
      → Good s
      → IsPlain (
          normalize_permission
            (record { resource = "organization:" <> org_id; permission = permission }))
      → check_org_authorization S s user org_id permission ≡ (ok passed, s')
      → (user ≡ internal_system_uuid)
        ⊎ (Active S db user
            × Permitted S db user
                (record { resource = "organization:" <> org_id; permission = permission }))
  unfolding check_org_authorization
  check_org_authorization_admits s s' org_id permission good plain e =
      inner_check_admits s s' _ good plain e

-- `checkUserIdSelfAuthorization` lets through exactly the system user, and a user whose identifier has
-- the bit of a person and who asks about themselves.
pub self_authorization_iff :
    (user request : Uuid)
    → (check_user_id_self_authorization user request ≡ ok passed)
      ↔ ((user ≡ internal_system_uuid) ⊎ ((is_human_user user ≡ true) × (user ≡ request)))
unfolding check_user_id_self_authorization
self_authorization_iff user request = (
  λ e. ground (arith, ==_iff user internal_system_uuid, ==_iff user request),
  λ h. ground (arith, ==_iff user internal_system_uuid, ==_iff user request),
)
