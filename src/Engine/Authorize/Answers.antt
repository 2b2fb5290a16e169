-- ===== src/Engine/Authorize/Answers.antt =====
-- The answers of `Authorize` of internal/authorization/authorization.go, on a policy that is up to date.
use mathlib.Core.Path.{subst}
use platform_orchestrator_ia.Prelude.{
  String, ◌≡◌, ◌↔◌, inl, inr, refl, ◌∙◌, ap, UuidText, Uuid, true, not, ◌&&◌, Option, some, List,
  [], ◌∷◌, map, Memᴰ, All, arith, Bool-cases, Option-cases,
}
use platform_orchestrator_ia.Prelude.Result.{ok, Result-cases}
use platform_orchestrator_ia.Model.{Db}
use platform_orchestrator_ia.Model.Authorization.{
  is_known_permission, list_authorization_policies, list_authorization_resource_relations,
}
use platform_orchestrator_ia.Engine.Match.{is_custom_permission}
use platform_orchestrator_ia.Engine.Resource.{normalize_resource}
use platform_orchestrator_ia.Engine.Casbin.{Casbin, IsCasbin}
use platform_orchestrator_ia.Engine.Policy.{load_policy}
use platform_orchestrator_ia.Engine.Policy.Loading.{Clean}
use platform_orchestrator_ia.Engine.Policy.Access.{enforce-Access}
use platform_orchestrator_ia.Engine.Cache.{Ccache, IsCcache}
use platform_orchestrator_ia.Engine.Authorize.{
  Check, Answer, Knowledge, is_known, Prepared, prepare, prepare_all, known_custom_permissions,
  decide, decide_all, authorize, authorize_prepared,
}
use platform_orchestrator_ia.Engine.Authorize.Known.{
  IsPlain, ListsKnown, Agrees, known_custom_permissions_right,
}
use platform_orchestrator_ia.Engine.Authorize.Laws.{
  UniqueRoles, Granted, IsRight, AllRight, Access-Granted, Granted-Access,
}

prepare_lem :
    (check : Check) (p : Prepared)
    → prepare check ≡ ok p
    → (p.original ≡ check)
      × (p.normalized.permission ≡ check.permission)
      × (normalize_resource check.resource ≡ ok p.normalized.resource)
unfolding prepare
prepare_lem check p e = ground arith

-- All that the answers rest on: Casbin and the cache behave as documented, the policy was loaded from
-- the tables, the store answers from them, and role identifiers are unique.
pub record Setting (K : Ccache) (C : Casbin) (U : UuidText) (db : Db) (m : C.Model)
    (list_known : List Check → Option (List Check)) : Type 0 where
  pub casbin : IsCasbin C
  pub ccache : IsCcache K
  pub loaded :
      load_policy C U (list_authorization_policies db) (list_authorization_resource_relations db)
      ≡ some m
  pub clean : Clean (list_authorization_policies db)
  pub lists : ListsKnown (is_known_permission db) list_known
  pub unique : UniqueRoles db

module _ (K : Ccache) (C : Casbin) (U : UuidText) (db : Db) (m : C.Model)
    (list_known : List Check → Option (List Check)) (S : Setting K C U db m list_known) where
  enforce-Granted :
      (subject : Uuid) (resource permission : String)
      → (C.enforce m (U.to_string subject) resource permission ≡ some true)
        ↔ Granted db subject resource permission
  enforce-Granted subject resource permission =
      let (to, from) =
        enforce-Access U C S.casbin _ _ m S.clean S.loaded subject resource permission in
      (
        λ e. Access-Granted db subject resource permission S.unique (to e),
        λ g. from (Granted-Access db subject resource permission g),
      )

  module _ (subject : Uuid) (known : Knowledge) where
    decide_allowed :
        (p : Prepared) (a : Answer)
        → (is_custom_permission p.normalized.permission ≡ true
            → is_known known p.normalized ≡ is_known_permission db p.normalized)
        → decide K C U m subject known p ≡ ok a
        → (a.check ≡ p.original)
          × ((a.allowed ≡ true) ↔ (
              (is_custom_permission p.normalized.permission ≡ true
                → is_known_permission db p.normalized ≡ true)
              × Granted db subject p.normalized.resource p.normalized.permission))
    unfolding decide
    decide_allowed p a right e =
        elim (Bool-cases
          (is_custom_permission p.normalized.permission && not (is_known known p.normalized))) [
            | inl unknown ↦ (
              ground arith,
              (
                λ h. absurd (ground arith),
                λ h. absurd (ground (arith, right (ground arith), h.0 (ground arith))),
              ),
            )
            | inr fine ↦
                elim (Option-cases (
                  C.enforce m (U.to_string subject) p.normalized.resource
                    p.normalized.permission)) [
                      | inl failed ↦ absurd (ground arith)
                      | inr (allowed, e') ↦
                          let result : a.allowed ≡ allowed = ground arith in
                          let (to, from) =
                            enforce-Granted subject p.normalized.resource p.normalized.permission in
                          (
                            ground arith,
                            (
                              λ h. (λ custom. ground (arith, right custom), to (ground arith)),
                              λ h. let e'' = from h.1 in ground arith,
                            ),
                          )
                    ]
          ]

    decide-IsRight :
        (check : Check) (p : Prepared) (a : Answer)
        → prepare check ≡ ok p
        → (is_custom_permission p.normalized.permission ≡ true
            → is_known known p.normalized ≡ is_known_permission db p.normalized)
        → decide K C U m subject known p ≡ ok a
        → IsRight db subject check a
    decide-IsRight check p a prepared right e =
        let (original, permission, resource) = prepare_lem check p prepared in
        let (same, allowed) = decide_allowed p a right e in
        (same ∙ original, (p.normalized.resource, resource, rw permission at allowed))

    decide_all_right :
        (checks : List Check) (ps : List Prepared) (answers : List Answer)
        → prepare_all checks ≡ ok ps
        → ((check : Check)
            → Memᴰ check (map (λ p. p.normalized) ps)
            → is_custom_permission check.permission ≡ true
            → is_known known check ≡ is_known_permission db check)
        → decide_all K C U m subject known ps ≡ ok answers
        → AllRight db subject checks answers
    unfolding prepare_all decide_all
    decide_all_right [] [] [] prepared right e = tt
    decide_all_right [] [] (a ∷ answers) prepared right e = cc
    decide_all_right [] (p ∷ ps) answers prepared right e = cc
    decide_all_right (check ∷ checks) [] answers prepared right e = absurd (ground arith)
    decide_all_right (check ∷ checks) (p ∷ ps) [] prepared right e = absurd (ground arith)
    decide_all_right (check ∷ checks) (p ∷ ps) (a ∷ answers) prepared right e = (
      decide-IsRight check p a (ground arith) (right p.normalized (Memᴰ.head refl)) (ground arith),
      decide_all_right checks ps answers (ground arith) (λ c n. right c (Memᴰ.tail n))
          (ground arith),
    )

prepare_all-IsPlain :
    (checks : List Check) (ps : List Prepared)
    → All IsPlain checks
    → prepare_all checks ≡ ok ps
    → All IsPlain (map (λ p. p.normalized) ps)
unfolding prepare_all
prepare_all-IsPlain [] [] plain e = tt
prepare_all-IsPlain [] (p ∷ ps) plain e = cc
prepare_all-IsPlain (check ∷ checks) [] plain e = tt
prepare_all-IsPlain (check ∷ checks) (p ∷ ps) (plain, plains) e =
    let prepared : prepare check ≡ ok p = ground arith in
    let (_, permission, _) = prepare_lem check p prepared in
    (rw permission plain, prepare_all-IsPlain checks ps plains (ground arith))

-- Where the policy in force was loaded from the tables as they are now, so that it is no older
-- snapshot, every answer that `Authorize` returns is right: a check is allowed exactly when the subject
-- holds a role on the normalised resource or on an ancestor whose permissions satisfy it and, for a
-- custom permission, that permission is known there. The answers keep the checks' order and spelling,
-- and the cache goes on agreeing with the store. Assumed besides: Casbin and the cache behave as
-- documented, the store lists the custom permissions that the tables know, the cache agrees with the
-- store before, no two roles share an identifier, not even in two organizations, and neither the
-- stored permissions nor the requested ones hold a "$".
pub authorize_right :
    (K : Ccache) (C : Casbin) (U : UuidText) (db : Db) (m : C.Model)
    (list_known : List Check → Option (List Check))
    → Setting K C U db m list_known
    → (c c' : K.Cache) (subject : Uuid) (checks : List Check) (answers : List Answer)
    → Agrees (is_known_permission db) K c
    → All IsPlain checks
    → authorize K C U list_known m c subject checks ≡ (ok answers, c')
    → AllRight db subject checks answers × Agrees (is_known_permission db) K c'
unfolding authorize authorize_prepared
authorize_right K C U db m list_known S c c' subject [] answers agrees plain e =
    let same : [] ≡ answers = cc in let same' : c ≡ c' = cc in (rw (← same) tt, rw same' at agrees)
authorize_right K C U db m list_known S c c' subject (check ∷ checks) answers agrees plain e =
    elim (Result-cases (prepare_all (check ∷ checks))) [
      | inr (e', failed) ↦ absurd (ground arith)
      | inl (ps, prepared) ↦
          elim (Option-cases
            (known_custom_permissions K list_known c (map (λ p. p.normalized) ps))) [
              | inl failed ↦ absurd (ground arith)
              | inr ((known, after), asked) ↦
                  let done : (decide_all K C U m subject known ps, after) ≡ (ok answers, c') =
                    rw (authorize, prepared, authorize_prepared, asked) at e in
                  let (agrees', right) =
                    known_custom_permissions_right (is_known_permission db) K S.ccache list_known c
                      after _ known S.lists agrees
                      (prepare_all-IsPlain (check ∷ checks) ps plain prepared) asked in
                  (
                    decide_all_right K C U db m list_known S subject known (check ∷ checks) ps
                        answers prepared right (ap (λ r. r.0) done),
                    subst (Agrees (is_known_permission db) K) (ap (λ r. r.1) done) agrees',
                  )
            ]
    ]
