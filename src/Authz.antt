-- ===== src/Authz.antt =====
-- The platform's permission catalogue: shared/authz/permissions.go.
pub mod Permissions
pub mod Catalog
use platform_orchestrator_ia.Prelude.{
  String, ◌=~◌, Bool, true, false, ◌||◌, Option, none, some, List, [], ◌∷◌, any, first,
}
use Catalog.{PermissionDefinition, permission_catalog}

-- `FindPermission`: the first definition with that identifier.
unfoldable pub find_permission : String → Option PermissionDefinition
unfolding permission_catalog
find_permission permission =
    first (λ (d : PermissionDefinition). d.id =~ permission) permission_catalog

-- The keys of `legacyRolePermissions`.
abbrev pub legacy_role_permissions : List String
legacy_role_permissions = "read" ∷ "write" ∷ "manage" ∷ "read_all" ∷ "write_all" ∷ "manage_all" ∷ []

-- `IsAssignableRolePermission`.
unfoldable pub is_assignable_role_permission : String → Bool
is_assignable_role_permission permission = elim (find_permission permission) [
  | some _ ↦ true
  | none ↦ any (λ p. p =~ permission) legacy_role_permissions
]
