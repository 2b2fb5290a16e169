-- ===== src/Api/Roles/Validate/Permissions.antt =====
-- Which permissions `validateRoleWriteWithPluginCapabilities` of internal/api/roles.go lets through, said
-- without its tests.
use mathlib.Core.Path.{subst}
use platform_orchestrator_ia.Prelude.{
  String, Char, code, ◌≡◌, ◌≤◌, ◌⊎◌, ◌=~◌, eq_iff, inl, inr, true, List, Memᴰ, any, any_sound, ◌||◌,
  first_sound, arith, Bool-cases, Option-cases,
}
use platform_orchestrator_ia.Authz.Catalog.{PermissionDefinition, permission_catalog}
use platform_orchestrator_ia.Authz.{
  find_permission, legacy_role_permissions, is_assignable_role_permission,
}
use platform_orchestrator_ia.Api.Roles.Validate.{
  byte_length, is_lower, is_digit, is_inner, ends_well, role_permission_pattern,
  is_valid_permission,
}

-- "a" to "z", and "0" to "9".
abbrev pub IsAlphanumeric : Char → Type 0
IsAlphanumeric c = ((97 ≤ code c) × (code c ≤ 122)) ⊎ ((48 ≤ code c) × (code c ≤ 57))

-- Those, "_", "." and "-".
abbrev pub IsInner : Char → Type 0
IsInner c = IsAlphanumeric c ⊎ ((code c ≡ 95) ⊎ ((code c ≡ 46) ⊎ (code c ≡ 45)))

-- Any of these characters, the last one a letter or a digit.
pub data Tail : String → Type 0 where
  last : {c : Char} → IsAlphanumeric c → Tail (String.◌∷◌ c String.[])
  more :
      {c d : Char} {s : String}
      → IsInner c
      → Tail (String.◌∷◌ d s)
      → Tail (String.◌∷◌ c (String.◌∷◌ d s))

-- An identifier of 3 to 255 bytes, with a letter first.
pub data Identifier : String → Type 0 where
  identifier :
      {c : Char} {s : String}
      → 97 ≤ code c
      → code c ≤ 122
      → Tail s
      → 2 ≤ byte_length s
      → byte_length s ≤ 254
      → Identifier (String.◌∷◌ c s)

-- A permission of the catalogue, one that roles had before it, or one that a plugin registered.
abbrev pub Assignable : List String → String → Type 0
Assignable plugin_permissions permission =
    ((d : PermissionDefinition) × Memᴰ d permission_catalog × (d.id ≡ permission))
    ⊎ (Memᴰ permission legacy_role_permissions ⊎ Memᴰ permission plugin_permissions)

is_lower-IsAlphanumeric : (c : Char) → (is_lower c || is_digit c) ≡ true → IsAlphanumeric c
is_lower-IsAlphanumeric c h = elim (Bool-cases (is_lower c)) [
  | inl lower ↦ inl (ground arith, ground arith)
  | inr other ↦ inr (ground arith, ground arith)
]

is_inner-IsInner : (c : Char) → is_inner c ≡ true → IsInner c
is_inner-IsInner c h = elim (Bool-cases (is_lower c || is_digit c)) [
  | inl plain ↦ inl (is_lower-IsAlphanumeric c plain)
  | inr other ↦ inr (ground arith)
]

ends_well-Tail : (s : String) → ends_well s ≡ true → Tail s
ends_well-Tail String.[] h = cc
ends_well-Tail (String.◌∷◌ c String.[]) h = last (is_lower-IsAlphanumeric c h)
ends_well-Tail (String.◌∷◌ c (String.◌∷◌ d s)) h =
    more (is_inner-IsInner c (ground arith)) (ends_well-Tail (String.◌∷◌ d s) (ground arith))

role_permission_pattern-Identifier : (p : String) → role_permission_pattern p ≡ true → Identifier p
role_permission_pattern-Identifier String.[] h = cc
role_permission_pattern-Identifier (String.◌∷◌ c s) h =
    identifier (ground arith) (ground arith) (ends_well-Tail s (ground arith)) (ground arith)
      (ground arith)

any-mem :
    (permission : String) (ps : List String)
    → any (λ p. p =~ permission) ps ≡ true
    → Memᴰ permission ps
any-mem permission ps h =
    let (p, there, same) = any_sound (λ p. p =~ permission) ps h in
    subst (λ q. Memᴰ q ps) ((eq_iff _ _).0 same) there

is_assignable_role_permission-Assignable :
    (plugin_permissions : List String) (p : String)
    → is_assignable_role_permission p ≡ true
    → Assignable plugin_permissions p
unfolding is_assignable_role_permission find_permission
is_assignable_role_permission-Assignable plugin_permissions p h =
    elim (Option-cases (find_permission p)) [
      | inl legacy ↦ inr (
          inl (any-mem p legacy_role_permissions (rw (is_assignable_role_permission, legacy) at h)))
      | inr (d, found) ↦
          let (there, same) =
            first_sound (λ (d : PermissionDefinition). d.id =~ p) permission_catalog found in
          inl (d, there, (eq_iff _ _).0 same)
    ]

pub valid-Assignable :
    (plugin_permissions : List String) (p : String)
    → is_valid_permission plugin_permissions p ≡ true
    → Identifier p × Assignable plugin_permissions p
unfolding is_valid_permission
valid-Assignable plugin_permissions p h = (
  role_permission_pattern-Identifier p (ground arith),
  elim (Bool-cases (is_assignable_role_permission p)) [
    | inl known ↦ is_assignable_role_permission-Assignable plugin_permissions p known
    | inr other ↦ inr (inr (any-mem p plugin_permissions (ground arith)))
  ],
)
