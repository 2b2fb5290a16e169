-- ===== src/Engine/Cache.antt =====
-- `boundedCache` of internal/authorization/authorization.go, over github.com/karlseguin/ccache.
use text.Mathlib.TextLemmas.{append_cancel_left}
use platform_orchestrator_ia.Prelude.{
  String, ◌<>◌, ◌≡◌, ◌⊎◌, Bool, Option, none, some, ltb, if◌then◌else◌, Lacks,
}
use platform_orchestrator_ia.Model.{Time}
use platform_orchestrator_ia.Model.Authorization.{AuthorizationPermissionCheck}
use platform_orchestrator_ia.Engine.Policy.Keys.{suffix_unique, dollars_lem}

-- An entry as the package returns it. Only Booleans are ever stored.
pub record Item : Type 0 where
  pub value : Bool
  pub expired : Bool

pub record Ccache : Type 1 where
  pub Cache : Type 0
  pub get : Cache → String → Option Item
  pub set : Cache → String → Bool → Time → Cache

-- 10 seconds.
abbrev pub authorization_cache_ttl : Time
authorization_cache_ttl = 10_000_000_000

module _ (K : Ccache) where
  -- `Get`: `none` stands for `ErrNoSuchKey`.
  unfoldable pub bounded_get : K.Cache → String → Option Bool
  bounded_get c key = elim (K.get c key) [
    | none ↦ none
    | some item ↦ if item.expired then none else some item.value
  ]

  -- `Set`, with the lifetime of the optional argument if that is positive.
  unfoldable pub bounded_set : K.Cache → String → Bool → Option Time → K.Cache
  bounded_set c key value extra = K.set c key value ttl
    where
      ttl : Time
      ttl = elim extra [
        | none ↦ authorization_cache_ttl
        | some configured ↦ if ltb 0 configured then configured else authorization_cache_ttl
      ]

  -- The documented behaviour: a live entry was stored under its key, the last time with its value.
  -- The package may drop entries at any time.
  abbrev pub IsCcache : Type 0
  IsCcache =
      (c : K.Cache) (key : String) (value : Bool) (extra : Option Time) (other : String)
      (found : Bool)
      → bounded_get (bounded_set c key value extra) other ≡ some found
      → ((other ≡ key) × (found ≡ value)) ⊎ (bounded_get c other ≡ some found)

-- `permissionKey`.
abbrev pub permission_key : AuthorizationPermissionCheck → String
permission_key check = "permission$$" <> (check.resource <> ("$$" <> check.permission))

-- Checks whose permissions hold no "$" have keys of their own.
pub permission_key_injective :
    (a b : AuthorizationPermissionCheck)
    → Lacks b'$' a.permission
    → Lacks b'$' b.permission
    → permission_key a ≡ permission_key b
    → a ≡ b
permission_key_injective a b la lb e =
    let e' = append_cancel_left "permission$$" _ _ e in
    let (resource, permission) =
      suffix_unique a.resource b.resource a.permission b.permission la lb
        (rw (dollars_lem a.permission, dollars_lem b.permission) at e') in
    λ i. record { resource = resource i; permission = permission i }
