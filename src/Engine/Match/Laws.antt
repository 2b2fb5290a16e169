-- ===== src/Engine/Match/Laws.antt =====
-- What follows from the rules for the permissions that must not be swept up by a wildcard, and for
-- the order of the wildcards.
use platform_orchestrator_ia.Prelude.{
  String, ◌≡◌, ◌≢◌, ◌↔◌, ◌⊎◌, inl, inr, refl, ap, true, false, none, some, arith, eq_iff, differ,
}
use platform_orchestrator_ia.Authz.{find_permission}
use platform_orchestrator_ia.Authz.Catalog.{PermissionLevel}
use platform_orchestrator_ia.Authz.Permissions.{
  module_read, module_write, module_core_read, module_version_read, module_version_publish,
  module_version_promote, module_archive, provisioning_read, provisioning_write,
}
use platform_orchestrator_ia.Engine.Match.{
  read, write, manage, manage_all, write_all, read_all, permission_level, unalias, match_texts,
  is_custom_permission,
}
use platform_orchestrator_ia.Engine.Match.Rules.{
  Satisfies, exact, everything, legacy, by_level, IsLegacyModule, match_texts-Satisfies,
}

-- A permission that only its own grant, and the grant of everything, satisfies.
abbrev pub OnlyExact : String → String → Type 0
OnlyExact r g = (r ≡ g) ⊎ (g ≡ manage_all)

-- The five requests that the older module permissions satisfy.
abbrev IsLegacyRequest : String → Type 0
IsLegacyRequest r =
    (r ≡ module_core_read)
    ⊎ (r ≡ module_version_read)
    ⊎ (r ≡ module_version_publish)
    ⊎ (r ≡ module_version_promote)
    ⊎ (r ≡ module_archive)

legacy_request : (r g : String) → IsLegacyModule r g → IsLegacyRequest r
legacy_request r g h = ground arith

-- An identifier that the tests of `permissionMatch` on the older modules all tell apart.
not_legacy :
    (r : String)
    → r ≢ module_core_read
    → r ≢ module_version_read
    → r ≢ module_version_publish
    → r ≢ module_version_promote
    → r ≢ module_archive
    → (g : String) → ¬ IsLegacyModule r g
not_legacy r a b c d e g h = ground (arith, legacy_request r g h)

pub provisioning_read_not_legacy : (g : String) → ¬ IsLegacyModule provisioning_read g
provisioning_read_not_legacy =
    not_legacy _ (differ _ _ refl) (differ _ _ refl) (differ _ _ refl) (differ _ _ refl)
      (differ _ _ refl)

pub provisioning_write_not_legacy : (g : String) → ¬ IsLegacyModule provisioning_write g
provisioning_write_not_legacy =
    not_legacy _ (differ _ _ refl) (differ _ _ refl) (differ _ _ refl) (differ _ _ refl)
      (differ _ _ refl)

-- A request with no level and no legacy rule is satisfied by its own grant or by everything.
only_exact :
    (r g : String)
    → ((h : String) → ¬ IsLegacyModule r h)
    → ((level : PermissionLevel)
        → permission_level r ≡ some level
        → (r ≡ provisioning_read) ⊎ (r ≡ provisioning_write))
    → Satisfies r g
    → OnlyExact r g
only_exact r g no_legacy no_level (exact e) = inl e
only_exact r g no_legacy no_level (everything e) = inr e
only_exact r g no_legacy no_level (legacy e) = absurd (no_legacy g e)
only_exact r g no_legacy no_level (by_level {level} p q e c) = elim (no_level level e) [
  | inl a ↦ absurd (p a)
  | inr a ↦ absurd (q a)
]

OnlyExact-back : (r g : String) → OnlyExact r g → Satisfies r g
OnlyExact-back r g (inl e) = exact e
OnlyExact-back r g (inr e) = everything e

unalias-provisioning :
    (p : String) → (p ≡ provisioning_read) ⊎ (p ≡ provisioning_write) → unalias p ≡ p
unalias-provisioning p (inl e) = rw e
unalias-provisioning p (inr e) = rw e

provisioning-not_legacy :
    (p : String)
    → (p ≡ provisioning_read) ⊎ (p ≡ provisioning_write)
    → (g : String) → ¬ IsLegacyModule p g
provisioning-not_legacy p (inl e) = rw e provisioning_read_not_legacy
provisioning-not_legacy p (inr e) = rw e provisioning_write_not_legacy

-- The two provisioning permissions are satisfied exactly by a grant of the same permission and by
-- `manage_all`: no other grant reaches them.
pub provisioning-OnlyExact :
    (p granted : String)
    → (p ≡ provisioning_read) ⊎ (p ≡ provisioning_write)
    → (match_texts p granted ≡ true) ↔ OnlyExact p granted
provisioning-OnlyExact p granted which =
    let (to, from) = match_texts-Satisfies p granted in
    let same = unalias-provisioning p which in
    (
      λ h.
          only_exact p granted (provisioning-not_legacy p which) (λ _ _. which) (rw same at (to h)),
      λ h. from (rw same (OnlyExact-back p granted h)),
    )

custom-absent : (r : String) → is_custom_permission r ≡ true → find_permission r ≡ none
unfolding is_custom_permission
custom-absent r h = ground arith

custom-no_level :
    (r : String) (level : PermissionLevel)
    → is_custom_permission r ≡ true
    → permission_level r ≡ some level
    → ⊥
unfolding is_custom_permission permission_level
custom-no_level r level h e = ground (arith, custom-absent r h)

-- A permission that the catalogue lists is not custom.
custom-differs :
    (r p : String) → is_custom_permission r ≡ true → is_custom_permission p ≡ false → r ≢ p
custom-differs r p h k e = ground (arith, ap is_custom_permission e)

custom-not_legacy :
    (r : String) → is_custom_permission r ≡ true → (g : String) → ¬ IsLegacyModule r g
unfolding is_custom_permission find_permission
custom-not_legacy r h =
    not_legacy r (custom-differs r _ h refl) (custom-differs r _ h refl) (custom-differs r _ h refl)
      (custom-differs r _ h refl) (custom-differs r _ h refl)

-- A permission outside the catalogue and the levels (a plugin's, for example), other than
-- "member", is satisfied exactly by a grant of the same permission and by `manage_all`.
pub custom-OnlyExact :
    (r granted : String)
    → is_custom_permission r ≡ true
    → r ≢ "member"
    → (match_texts r granted ≡ true) ↔ OnlyExact r granted
custom-OnlyExact r granted custom other =
    let (to, from) = match_texts-Satisfies r granted in
    let same : unalias r ≡ r = ground (arith, eq_iff r "member") in
    (
      λ h.
          only_exact r granted (custom-not_legacy r custom)
            (λ level e. absurd (custom-no_level r level custom e)) (rw same at (to h)),
      λ h. from (rw same (OnlyExact-back r granted h)),
    )

read_all-covers-write_all :
    (r : String) → r ≢ read_all → Satisfies r read_all → Satisfies r write_all
read_all-covers-write_all r p (exact e) = absurd (p e)
read_all-covers-write_all r p (everything e) = absurd (differ read_all manage_all refl e)
read_all-covers-write_all r p (legacy e) =
    ground (arith, differ read_all module_read refl, differ read_all module_write refl)
read_all-covers-write_all r p (by_level {level = PermissionLevel.read} a b e c) =
    by_level a b e (inl refl)
read_all-covers-write_all r p (by_level {level = PermissionLevel.write} a b e c) =
    ground (arith, differ read_all write_all refl, differ read_all write refl)
read_all-covers-write_all r p (by_level {level = PermissionLevel.manage} a b e c) =
    absurd (differ read_all manage refl c)

-- The wildcards are ordered: what a grant of `read_all` satisfies, `write_all` satisfies too, the
-- request spelled `read_all` itself aside, and `manage_all` satisfies every request.
pub wildcards_ordered :
    (requested : String)
    → (requested ≢ read_all
        → match_texts requested read_all ≡ true
        → match_texts requested write_all ≡ true)
      × (match_texts requested manage_all ≡ true)
wildcards_ordered requested = (
  λ p h. (match_texts-Satisfies requested write_all).1 (
      read_all-covers-write_all (unalias requested)
        (ground (arith, eq_iff requested "member", differ read read_all refl))
        ((match_texts-Satisfies requested read_all).0 h)),
  (match_texts-Satisfies requested manage_all).1 (everything refl),
)
