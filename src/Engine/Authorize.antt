-- ===== src/Engine/Authorize.antt =====
-- `CasbinAuthorizer.Authorize` and `knownCustomPermissions` of
-- internal/authorization/authorization.go.
pub mod Known
pub mod Laws
pub mod Answers
pub mod Outcome
use platform_orchestrator_ia.Prelude.{
  String, ◌=~◌, UuidText, Uuid, Bool, true, false, not, ◌&&◌, Option, none, some, List, [], ◌∷◌,
  any, map, if◌then◌else◌,
}
use platform_orchestrator_ia.Prelude.Result.{Result, ok, err, ◌>>=◌}
use platform_orchestrator_ia.Model.Authorization.{AuthorizationPermissionCheck}
use platform_orchestrator_ia.Engine.Match.{is_custom_permission}
use platform_orchestrator_ia.Engine.Resource.{ResourceError, normalize_resource}
use platform_orchestrator_ia.Engine.Casbin.{Casbin}
use platform_orchestrator_ia.Engine.Cache.{
  Ccache, bounded_get, bounded_set, permission_key, authorization_cache_ttl,
}

-- `Check` has the same two fields as `model.AuthorizationPermissionCheck`.
abbrev pub Check : Type 0
Check = AuthorizationPermissionCheck

-- `Result`.
pub record Answer : Type 0 where
  pub check : Check
  pub allowed : Bool
  pub invalid : Bool

pub data AuthorizeError : Type 0 where
  bad_resource : ResourceError → AuthorizeError
  store_failed : AuthorizeError
  casbin_failed : AuthorizeError

abbrev pub same_check : Check → Check → Bool
same_check a b = a.resource =~ b.resource && a.permission =~ b.permission

-- The map `known`, the last write first. A missing key reads as false.
abbrev pub Knowledge : Type 0
Knowledge = List (Check × Bool)

pub is_known : Knowledge → Check → Bool
is_known [] check = false
is_known ((c, value) ∷ known) check = if same_check c check then value else is_known known check

-- `preparedCheck`.
pub record Prepared : Type 0 where
  pub original : Check
  pub normalized : Check

pub prepare : Check → Result AuthorizeError Prepared
prepare check = elim (normalize_resource check.resource) [
  | err e ↦ err (bad_resource e)
  | ok resource ↦ ok (record {
    original = check;
    normalized = record { resource = resource; permission = check.permission };
  })
]

-- The first loop of `Authorize`.
pub prepare_all : List Check → Result AuthorizeError (List Prepared)
prepare_all [] = ok []
prepare_all (check ∷ checks) = do p ← prepare check; ps ← prepare_all checks; ok (p ∷ ps)

module _ (K : Ccache) where
  -- The first loop of `knownCustomPermissions`: what the cache knows, and the misses in order.
  pub read_cache : K.Cache → List Check → Knowledge × List Check
  read_cache c [] = ([], [])
  read_cache c (check ∷ checks) =
      let (known, misses) = read_cache c checks in
      if is_custom_permission check.permission
      then (elim (bounded_get K c (permission_key check)) [
        | some cached ↦ ((check, cached) ∷ known, misses)
        | none ↦ (known, check ∷ misses)
      ])
      else (known, misses)

  -- The last loop: the misses are stored, and join what is known.
  pub store_misses : List Check → List Check → K.Cache → Knowledge → Knowledge × K.Cache
  store_misses loaded [] c known = (known, c)
  store_misses loaded (check ∷ misses) c known =
      let found = any (λ l. same_check l check) loaded in
      store_misses loaded misses
        (bounded_set K c (permission_key check) found (some authorization_cache_ttl))
        ((check, found) ∷ known)

  -- The store is asked only where something is missing.
  pub load_misses :
      (List Check → Option (List Check))
      → K.Cache
      → Knowledge
      → List Check
      → Option (Knowledge × K.Cache)
  load_misses list_known c known [] = some (known, c)
  load_misses list_known c known (miss ∷ misses) = elim (list_known (miss ∷ misses)) [
    | none ↦ none
    | some loaded ↦ some (store_misses loaded (miss ∷ misses) c known)
  ]

  -- `knownCustomPermissions`, where `list_known` is the store's `ListKnownAuthorizationPermissions`
  -- and its `none` an error. The cache is left as it was on an error.
  unfoldable pub known_custom_permissions :
      (List Check → Option (List Check)) → K.Cache → List Check → Option (Knowledge × K.Cache)
  unfolding load_misses store_misses read_cache
  known_custom_permissions list_known c checks =
      let (known, misses) = read_cache c checks in load_misses list_known c known misses

  module _ (C : Casbin) (U : UuidText) where
    -- One round of the last loop of `Authorize`.
    pub decide : C.Model → Uuid → Knowledge → Prepared → Result AuthorizeError Answer
    decide m subject known p =
        if is_custom_permission p.normalized.permission && not (is_known known p.normalized)
        then ok (record { check = p.original; allowed = false; invalid = true })
        else elim (C.enforce m (U.to_string subject) p.normalized.resource
            p.normalized.permission) [
              | none ↦ err casbin_failed
              | some allowed ↦
                  ok (record { check = p.original; allowed = allowed; invalid = false })
            ]

    pub decide_all :
        C.Model → Uuid → Knowledge → List Prepared → Result AuthorizeError (List Answer)
    decide_all m subject known [] = ok []
    decide_all m subject known (p ∷ ps) = do
      a ← decide m subject known p
      as' ← decide_all m subject known ps
      ok (a ∷ as')

    pub authorize_prepared :
        (List Check → Option (List Check))
        → C.Model
        → K.Cache
        → Uuid
        → List Prepared
        → Result AuthorizeError (List Answer) × K.Cache
    authorize_prepared list_known m c subject ps =
        elim (known_custom_permissions list_known c (map (λ p. p.normalized) ps)) [
          | none ↦ (err store_failed, c)
          | some (known, c') ↦ (decide_all m subject known ps, c')
        ]

    -- `Authorize`: the answers, and the cache after the call.
    unfoldable pub authorize :
        (List Check → Option (List Check))
        → C.Model
        → K.Cache
        → Uuid
        → List Check
        → Result AuthorizeError (List Answer) × K.Cache
    unfolding authorize_prepared decide_all decide known_custom_permissions load_misses store_misses
        read_cache prepare_all prepare is_known
    authorize list_known m c subject [] = (ok [], c)
    authorize list_known m c subject (check ∷ checks) = elim (prepare_all (check ∷ checks)) [
      | err e ↦ (err e, c)
      | ok ps ↦ authorize_prepared list_known m c subject ps
    ]
