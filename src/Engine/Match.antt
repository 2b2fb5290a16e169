-- ===== src/Engine/Match.antt =====
-- Whether a granted permission satisfies a requested one: `permissionMatch` of
-- internal/authorization/authorization.go and the functions that it calls.
pub mod Rules
pub mod Laws
use platform_orchestrator_ia.Prelude.{
  String, ◌=~◌, Bool, true, false, ◌||◌, Option, none, some, List, [], ◌∷◌, if◌then◌else◌,
}
use platform_orchestrator_ia.Authz.{find_permission}
use platform_orchestrator_ia.Authz.Catalog.{PermissionLevel}
use platform_orchestrator_ia.Authz.Permissions.{
  module_read, module_write, module_core_read, module_version_read, module_version_publish,
  module_version_promote, module_archive, provisioning_read, provisioning_write,
}

abbrev pub read : String
read = "read"

abbrev pub write : String
write = "write"

abbrev pub manage : String
manage = "manage"

abbrev pub manage_all : String
manage_all = "manage_all"

abbrev pub write_all : String
write_all = "write_all"

abbrev pub read_all : String
read_all = "read_all"

-- `legacyModulePermissionMatch`.
pub legacy_module_permission_match : String → String → Bool
legacy_module_permission_match requested granted =
    if granted =~ module_read
    then requested =~ module_core_read || requested =~ module_version_read
    else if granted =~ module_write
    then (requested =~ module_version_publish
        || requested =~ module_version_promote
        || requested =~ module_archive)
    else false

-- `permissionLevel`; `none` where the second result is false.
pub permission_level : String → Option PermissionLevel
permission_level permission =
    if permission =~ read
    then some PermissionLevel.read
    else if permission =~ write
    then some PermissionLevel.write
    else if permission =~ manage
    then some PermissionLevel.manage
    else elim (find_permission permission) [ none ↦ none | some d ↦ some d.level ]

abbrev is_read : PermissionLevel → Bool
is_read PermissionLevel.read = true
is_read _ = false

abbrev is_write : PermissionLevel → Bool
is_write PermissionLevel.write = true
is_write _ = false

abbrev is_manage : PermissionLevel → Bool
is_manage PermissionLevel.manage = true
is_manage _ = false

-- The last `switch` of `permissionMatch`, on the granted permission.
pub level_match : PermissionLevel → String → Bool
level_match level granted =
    if granted =~ write_all
    then is_write level || is_read level
    else if granted =~ read_all
    then is_read level
    else if granted =~ read
    then is_read level
    else if granted =~ write
    then is_write level
    else if granted =~ manage
    then is_manage level
    else false

-- "member" is another spelling of "read".
abbrev pub unalias : String → String
unalias requested = if requested =~ "member" then read else requested

-- `permissionMatch` after its alias is resolved.
pub match_unaliased : String → String → Bool
match_unaliased requested granted =
    if requested =~ granted || granted =~ manage_all
    then true
    else if legacy_module_permission_match requested granted
    then true
    else if requested =~ provisioning_read || requested =~ provisioning_write
    then false
    else elim (permission_level requested) [ none ↦ false | some level ↦ level_match level granted ]

unfoldable pub match_texts : String → String → Bool
unfolding match_unaliased legacy_module_permission_match permission_level level_match
match_texts requested granted = match_unaliased (unalias requested) granted

-- An argument that Casbin hands to `permissionMatch`: a string, or a value of another type.
pub data Argument : Type 0 where
  text : String → Argument
  other : Argument

-- `permissionMatch`; `none` stands for its error results.
unfoldable pub permission_match : List Argument → Option Bool
unfolding match_texts
permission_match (text requested ∷ text granted ∷ []) = some (match_texts requested granted)
permission_match _ = none

-- `isCustomPermission`.
unfoldable pub is_custom_permission : String → Bool
is_custom_permission permission =
    if permission =~ read
      || permission =~ write
      || permission =~ manage
      || permission =~ read_all
      || permission =~ write_all
      || permission =~ manage_all
    then false
    else elim (find_permission permission) [ none ↦ true | some _ ↦ false ]
