-- ===== src/Engine/Authorize/Known.antt =====
-- `knownCustomPermissions` answers as the store would, and keeps the cache in agreement with it.
use mathlib.Core.Path.{subst}
use mathlib.Core.List.Memᴰ
use platform_orchestrator_ia.Prelude.{
  ◌≡◌, ◌⊎◌, inl, inr, refl, sym, ◌∙◌, ap, Bool, true, Option, some, List, [], ◌∷◌, Memᴰ, All, Lacks,
  any, any_sound, any_complete, arith, eq_iff, eq_refl, Bool-cases, Option-cases, select,
  mem-select, mem-select_intro,
}
use platform_orchestrator_ia.Model.{Db}
use platform_orchestrator_ia.Model.Authorization.{
  is_known_permission, list_known_authorization_permissions,
}
use platform_orchestrator_ia.Engine.Match.{is_custom_permission}
use platform_orchestrator_ia.Engine.Cache.{
  Ccache, IsCcache, bounded_get, bounded_set, permission_key, permission_key_injective,
  authorization_cache_ttl,
}
use platform_orchestrator_ia.Engine.Authorize.{
  Check, Knowledge, same_check, is_known, read_cache, store_misses, load_misses,
  known_custom_permissions,
}

-- The permission holds no "$", so that its cache key is its own.
abbrev pub IsPlain : Check → Type 0
IsPlain check = Lacks b'$' check.permission

same_check_eq : (a b : Check) → same_check a b ≡ true → a ≡ b
same_check_eq a b h =
    let resource : a.resource ≡ b.resource = ground (arith, eq_iff a.resource b.resource) in
    let permission : a.permission ≡ b.permission =
      ground (arith, eq_iff a.permission b.permission) in
    λ i. record { resource = resource i; permission = permission i }

same_check_refl : (a : Check) → same_check a a ≡ true
same_check_refl a = rw (eq_refl a.resource) (eq_refl a.permission)

abbrev Has : Knowledge → Check → Type 0
Has known check = any (λ (p : Check × Bool). same_check p.0 check) known ≡ true

Has-later :
    (first : Check) (value : Bool) (known : Knowledge) (check : Check)
    → Has known check
    → Has ((first, value) ∷ known) check
Has-later first value known check h = ground arith

-- `X` says which permissions the store knows.
module _ (X : Check → Bool) where
  abbrev Right : Knowledge → Type 0
  Right = All (λ (p : Check × Bool). p.1 ≡ X p.0)

  lookup-Right :
      (known : Knowledge) (check : Check)
      → Right known
      → Has known check
      → is_known known check ≡ X check
  unfolding is_known
  lookup-Right [] check r h = cc
  lookup-Right ((c, value) ∷ known) check (right, r) h = elim (Bool-cases (same_check c check)) [
    | inl e ↦ rw e (right ∙ ap X (same_check_eq c check e))
    | inr e ↦ rw e (lookup-Right known check r (rw e at h))
  ]

  -- The store lists, of the checks that it is asked for, those that it knows.
  abbrev pub ListsKnown : (List Check → Option (List Check)) → Type 0
  ListsKnown list_known =
      (misses loaded : List Check)
      → list_known misses ≡ some loaded
      → (check : Check) → Memᴰ check misses
      → any (λ l. same_check l check) loaded ≡ X check

  module _ (K : Ccache) where
    -- What the cache holds for a plain permission is what the store knows.
    abbrev pub Agrees : K.Cache → Type 0
    Agrees c =
        (check : Check) (value : Bool)
        → IsPlain check
        → bounded_get K c (permission_key check) ≡ some value
        → value ≡ X check

    read_cache-Right :
        (c : K.Cache) (checks : List Check)
        → Agrees c
        → All IsPlain checks
        → Right (read_cache K c checks).0 × All IsPlain (read_cache K c checks).1
    unfolding read_cache
    read_cache-Right c [] agrees plain = (tt, tt)
    read_cache-Right c (check ∷ checks) agrees (plain, plains) =
        let (right, rest) = read_cache-Right c checks agrees plains in
        elim (Bool-cases (is_custom_permission check.permission)) [
          | inr e ↦ rw e (right, rest)
          | inl e ↦ elim (Option-cases (bounded_get K c (permission_key check))) [
            | inl e' ↦ rw (e, e') (right, (plain, rest))
            | inr (value, e') ↦ rw (e, e') ((agrees check value plain e', right), rest)
          ]
        ]

    read_cache_covers :
        (c : K.Cache) (checks : List Check) (check : Check)
        → Memᴰ check checks
        → is_custom_permission check.permission ≡ true
        → Has (read_cache K c checks).0 check ⊎ Memᴰ check (read_cache K c checks).1
    unfolding read_cache
    read_cache_covers c [] check m custom = elim m [ ]
    read_cache_covers c (first ∷ checks) check m custom = elim (Memᴰ.cases_cons m) [
      | inl same ↦
          let custom' : is_custom_permission first.permission ≡ true = rw same at custom in
          let itself : same_check first check ≡ true = rw same (same_check_refl first) in
          elim (Option-cases (bounded_get K c (permission_key first))) [
            | inl e ↦ rw (custom', e) (inr (Memᴰ.head same))
            | inr (value, e) ↦ rw (custom', e) (inl (rw itself refl))
          ]
      | inr m' ↦
          let rest = read_cache_covers c checks check m' custom in
          elim (Bool-cases (is_custom_permission first.permission)) [
            | inr e ↦ rw e rest
            | inl e ↦ elim (Option-cases (bounded_get K c (permission_key first))) [
              | inl e' ↦ rw (e, e') (elim rest [ inl h ↦ inl h | inr h ↦ inr (Memᴰ.tail h) ])
              | inr (value, e') ↦
                  rw (e, e')
                    (elim rest [ inl h ↦ inl (Has-later first value _ check h) | inr h ↦ inr h ])
            ]
          ]
    ]

    Agrees-after :
        IsCcache K
        → (c : K.Cache) (miss : Check) (value : Bool) → IsPlain miss
        → value ≡ X miss
        → Agrees c
        → Agrees (bounded_set K c (permission_key miss) value (some authorization_cache_ttl))
    Agrees-after L c miss value plain here agrees check found plain' e =
        elim (L c (permission_key miss) value (some authorization_cache_ttl) (permission_key check)
          found e) [
            | inl (same, now) ↦
                now ∙ (here ∙ ap X (permission_key_injective miss check plain plain' (sym same)))
            | inr before ↦ agrees check found plain' before
          ]

    store_misses-Right :
        IsCcache K
        → (loaded misses : List Check) (c : K.Cache) (known : Knowledge)
        → ((check : Check) → Memᴰ check misses → any (λ l. same_check l check) loaded ≡ X check)
        → All IsPlain misses
        → Agrees c
        → Right known
        → Right (store_misses K loaded misses c known).0
          × Agrees (store_misses K loaded misses c known).1
    unfolding store_misses
    store_misses-Right L loaded [] c known found plain agrees right = (right, agrees)
    store_misses-Right L loaded (miss ∷ misses) c known found (plain, plains) agrees right =
        let here = found miss (Memᴰ.head refl) in
        store_misses-Right L loaded misses _ _ (λ check m. found check (Memᴰ.tail m)) plains
          (Agrees-after L c miss _ plain here agrees) (here, right)

    store_misses_covers :
        (loaded misses : List Check) (c : K.Cache) (known : Knowledge) (check : Check)
        → Has known check ⊎ Memᴰ check misses
        → Has (store_misses K loaded misses c known).0 check
    unfolding store_misses
    store_misses_covers loaded [] c known check (inl h) = h
    store_misses_covers loaded [] c known check (inr m) = elim m [ ]
    store_misses_covers loaded (miss ∷ misses) c known check (inl h) =
        store_misses_covers loaded misses _ _ check
          (inl (Has-later miss (any (λ l. same_check l miss) loaded) known check h))
    store_misses_covers loaded (miss ∷ misses) c known check (inr m) = elim (Memᴰ.cases_cons m) [
      | inl same ↦
          let itself : same_check miss check ≡ true = rw same (same_check_refl miss) in
          store_misses_covers loaded misses _ _ check (inl (rw itself refl))
      | inr m' ↦ store_misses_covers loaded misses _ _ check (inr m')
    ]

    load_misses-Right :
        IsCcache K
        → (list_known : List Check → Option (List Check)) (c c' : K.Cache) (known : Knowledge)
          (misses : List Check) (known' : Knowledge)
        → ListsKnown list_known
        → All IsPlain misses
        → Agrees c
        → Right known
        → load_misses K list_known c known misses ≡ some (known', c')
        → Right known'
          × Agrees c'
          × ((check : Check) → Has known check ⊎ Memᴰ check misses → Has known' check)
    unfolding load_misses
    load_misses-Right L list_known c c' known [] known' lists plain agrees right e =
        let same : known ≡ known' = cc in
        let same' : c ≡ c' = cc in
        (
          rw same at right,
          rw same' at agrees,
          λ check. elim [ inl h ↦ rw same at h | inr m ↦ elim m [ ] ],
        )
    load_misses-Right L list_known c c' known (miss ∷ misses) known' lists plain agrees right e =
        elim (Option-cases (list_known (miss ∷ misses))) [
          | inl failed ↦ absurd (ground arith)
          | inr (loaded, e') ↦
              let same : store_misses K loaded (miss ∷ misses) c known ≡ (known', c') =
                ground arith in
              let (right', agrees') =
                store_misses-Right L loaded (miss ∷ misses) c known
                  (lists (miss ∷ misses) loaded e') plain agrees right in
              (
                subst Right (ap (λ (r : Knowledge × K.Cache). r.0) same) right',
                subst Agrees (ap (λ (r : Knowledge × K.Cache). r.1) same) agrees',
                λ check h.
                    subst (λ r. Has r check) (ap (λ (r : Knowledge × K.Cache). r.0) same)
                      (store_misses_covers loaded (miss ∷ misses) c known check h),
              )
        ]

    -- For every plain custom permission of the request, what `knownCustomPermissions` returns is what
    -- the store knows, whether it came from the cache or not, and the cache agrees with the store again.
    pub known_custom_permissions_right :
        IsCcache K
        → (list_known : List Check → Option (List Check)) (c c' : K.Cache) (checks : List Check)
          (known : Knowledge)
        → ListsKnown list_known
        → Agrees c
        → All IsPlain checks
        → known_custom_permissions K list_known c checks ≡ some (known, c')
        → Agrees c'
          × ((check : Check)
              → Memᴰ check checks
              → is_custom_permission check.permission ≡ true
              → is_known known check ≡ X check)
    unfolding known_custom_permissions
    known_custom_permissions_right L list_known c c' checks known lists agrees plain e =
        let (right, plains) = read_cache-Right c checks agrees plain in
        let (right', agrees', covers) =
          load_misses-Right L list_known c c' _ _ known lists plains agrees right e in
        (
          agrees',
          λ check m custom.
              lookup-Right known check right'
                (covers check (read_cache_covers c checks check m custom)),
        )

any-select :
    (X : Check → Bool) (misses : List Check) (check : Check)
    → Memᴰ check misses
    → any (λ l. same_check l check) (select X misses) ≡ X check
any-select X misses check m = elim (Bool-cases (X check)) [
  | inl e ↦
      any_complete (λ l. same_check l check) (mem-select_intro X m e) (same_check_refl check)
      ∙ sym e
  | inr e ↦ elim (Bool-cases (any (λ l. same_check l check) (select X misses))) [
    | inr e' ↦ e' ∙ sym e
    | inl e' ↦
        let (l, there, same) = any_sound (λ l. same_check l check) (select X misses) e' in
        let (_, known) = mem-select X misses there in
        absurd (ground (arith, ap X (same_check_eq l check same)))
  ]
]

-- The query of internal/model over one state of the tables lists what that state knows.
pub list_known-ListsKnown :
    (db : Db)
    → ListsKnown
        (is_known_permission db)
        (λ checks. some (list_known_authorization_permissions db checks))
unfolding list_known_authorization_permissions
list_known-ListsKnown db misses loaded e check m =
    let same : select (is_known_permission db) misses ≡ loaded = ground arith in
    rw (← same) (any-select (is_known_permission db) misses check m)
