-- ===== src/Engine/Match/Rules.antt =====
-- What a grant covers, as rules, and that `permissionMatch` decides them.
use platform_orchestrator_ia.Prelude.{
  String, ◌=~◌, ◌≡◌, ◌≢◌, ◌↔◌, ◌⊎◌, inl, inr, refl, true, some, arith, eq_iff, differ, Bool-cases,
  Option-cases,
}
use platform_orchestrator_ia.Authz.Catalog.{PermissionLevel}
use platform_orchestrator_ia.Authz.Permissions.{
  module_read, module_write, module_core_read, module_version_read, module_version_publish,
  module_version_promote, module_archive, provisioning_read, provisioning_write,
}
use platform_orchestrator_ia.Engine.Match.{
  read, write, manage, manage_all, write_all, read_all, legacy_module_permission_match,
  permission_level, level_match, unalias, match_unaliased, match_texts,
}

-- The level grants that cover a permission of that level.
abbrev pub Covers : PermissionLevel → String → Type 0
Covers PermissionLevel.read g = (g ≡ write_all) ⊎ (g ≡ read_all) ⊎ (g ≡ read)
Covers PermissionLevel.write g = (g ≡ write_all) ⊎ (g ≡ write)
Covers PermissionLevel.manage g = g ≡ manage

-- The grants of the older module permissions.
abbrev pub IsLegacyModule : String → String → Type 0
IsLegacyModule r g =
    ((g ≡ module_read) × ((r ≡ module_core_read) ⊎ (r ≡ module_version_read)))
    ⊎ ((g ≡ module_write)
        × ((r ≡ module_version_publish) ⊎ (r ≡ module_version_promote) ⊎ (r ≡ module_archive)))

-- When a grant satisfies a request, with no order among the rules.
pub data Satisfies (r g : String) : Type 0 where
  exact : r ≡ g → Satisfies r g
  everything : g ≡ manage_all → Satisfies r g
  legacy : IsLegacyModule r g → Satisfies r g
  by_level :
      {level : PermissionLevel}
      → r ≢ provisioning_read
      → r ≢ provisioning_write
      → permission_level r ≡ some level
      → Covers level g
      → Satisfies r g

-- The level grants are five different texts.
levels_differ :
    (read ≢ write)
    × (read ≢ manage)
    × (read ≢ read_all)
    × (read ≢ write_all)
    × (write ≢ manage)
    × (write ≢ read_all)
    × (write ≢ write_all)
    × (manage ≢ read_all)
    × (manage ≢ write_all)
    × (read_all ≢ write_all)
levels_differ = (
  differ read write refl,
  differ read manage refl,
  differ read read_all refl,
  differ read write_all refl,
  differ write manage refl,
  differ write read_all refl,
  differ write write_all refl,
  differ manage read_all refl,
  differ manage write_all refl,
  differ read_all write_all refl,
)

level_match_iff :
    (level : PermissionLevel) (g : String) → (level_match level g ≡ true) ↔ Covers level g
unfolding level_match
level_match_iff PermissionLevel.read g = ground (
  arith,
  levels_differ,
  eq_iff g write_all,
  eq_iff g read_all,
  eq_iff g read,
  eq_iff g write,
  eq_iff g manage,
)
level_match_iff PermissionLevel.write g = ground (
  arith,
  levels_differ,
  eq_iff g write_all,
  eq_iff g read_all,
  eq_iff g read,
  eq_iff g write,
  eq_iff g manage,
)
level_match_iff PermissionLevel.manage g = ground (
  arith,
  levels_differ,
  eq_iff g write_all,
  eq_iff g read_all,
  eq_iff g read,
  eq_iff g write,
  eq_iff g manage,
)

legacy_iff : (r g : String) → (legacy_module_permission_match r g ≡ true) ↔ IsLegacyModule r g
unfolding legacy_module_permission_match
legacy_iff r g = ground (
  arith,
  eq_iff g module_read,
  eq_iff g module_write,
  eq_iff r module_core_read,
  eq_iff r module_version_read,
  eq_iff r module_version_publish,
  eq_iff r module_version_promote,
  eq_iff r module_archive,
  differ module_read module_write refl,
)

match_unaliased_sound : (r g : String) → match_unaliased r g ≡ true → Satisfies r g
unfolding match_unaliased
match_unaliased_sound r g h = elim (Bool-cases (r =~ g)) [
  | inl e ↦ exact ((eq_iff r g).0 e)
  | inr e₁ ↦ elim (Bool-cases (g =~ manage_all)) [
    | inl e ↦ everything ((eq_iff g manage_all).0 e)
    | inr e₂ ↦ elim (Bool-cases (legacy_module_permission_match r g)) [
      | inl e ↦ legacy ((legacy_iff r g).0 e)
      | inr e₃ ↦ elim (Option-cases (permission_level r)) [
        | inl e ↦ absurd (ground arith)
        | inr (level, e) ↦
            by_level (ground (arith, eq_iff r provisioning_read))
              (ground (arith, eq_iff r provisioning_write)) e
              ((level_match_iff level g).0 (ground arith))
      ]
    ]
  ]
]

match_unaliased_complete : (r g : String) → Satisfies r g → match_unaliased r g ≡ true
unfolding match_unaliased
match_unaliased_complete r g (exact e) = ground (arith, eq_iff r g)
match_unaliased_complete r g (everything e) = ground (arith, eq_iff g manage_all)
match_unaliased_complete r g (legacy e) = ground (arith, (legacy_iff r g).1 e)
match_unaliased_complete r g (by_level {level} p q e c) =
    ground (
      arith,
      eq_iff r provisioning_read,
      eq_iff r provisioning_write,
      (level_match_iff level g).1 c,
    )

-- `permissionMatch` answers yes exactly when a rule of `Satisfies` lets the granted permission
-- satisfy the requested one, "member" read as "read".
pub match_texts-Satisfies :
    (requested granted : String)
    → (match_texts requested granted ≡ true) ↔ Satisfies (unalias requested) granted
unfolding match_texts
match_texts-Satisfies requested granted = (
  match_unaliased_sound (unalias requested) granted,
  match_unaliased_complete (unalias requested) granted,
)
