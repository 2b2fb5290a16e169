-- ===== src/Api/Roles/Validate.antt =====
-- `validateRoleWriteWithPluginCapabilities` of internal/api/roles.go, with what it uses of Go's
-- `strings`, `regexp` and `slices`.
pub mod Permissions
pub mod Laws
use Prim.Native.Nat.{Ordering}
use Prim.Native.String
use platform_orchestrator_ia.Prelude.{
  ℕ, ◌+◌, String, ◌=~◌, Char, code, ◌==◌, leb, ltb, Bool, false, ◌&&◌, ◌||◌, Option, none, some,
  List, [], ◌∷◌, all, any, if◌then◌else◌,
}
use platform_orchestrator_ia.Authz.{is_assignable_role_permission}

-- `unicode.IsSpace`.
abbrev pub is_space : Char → Bool
is_space c =
    let n = code c in
    (leb 9 n && leb n 13)
    || n == 32
    || n == 133
    || n == 160
    || n == 5760
    || (leb 8192 n && leb n 8202)
    || n == 8232
    || n == 8233
    || n == 8239
    || n == 8287
    || n == 12288

abbrev pub trim_left : String → String
trim_left String.[] = String.[]
trim_left (String.◌∷◌ c s) = let rest = trim_left s in if is_space c then rest else String.◌∷◌ c s

abbrev pub trim_right : String → String
trim_right String.[] = String.[]
trim_right (String.◌∷◌ c s) =
    let rest = trim_right s in if rest =~ "" && is_space c then String.[] else String.◌∷◌ c rest

-- `strings.TrimSpace`.
abbrev pub trim_space : String → String
trim_space s = trim_right (trim_left s)

-- `len` of a text: the bytes of its UTF-8 form.
abbrev pub byte_length : String → ℕ
byte_length String.[] = 0
byte_length (String.◌∷◌ c s) =
    let rest = byte_length s in
    let n = code c in
    if ltb n 128
    then 1 + rest
    else if ltb n 2048
    then 2 + rest
    else if ltb n 65536
    then 3 + rest
    else 4 + rest

abbrev pub is_lower : Char → Bool
is_lower c = leb 97 (code c) && leb (code c) 122

abbrev pub is_digit : Char → Bool
is_digit c = leb 48 (code c) && leb (code c) 57

-- `[a-z0-9_.-]`.
abbrev pub is_inner : Char → Bool
is_inner c = is_lower c || is_digit c || code c == 95 || code c == 46 || code c == 45

-- `[a-z0-9_.-]*[a-z0-9]` to the end of the text.
abbrev pub ends_well : String → Bool
ends_well String.[] = false
ends_well (String.◌∷◌ c String.[]) = is_lower c || is_digit c
ends_well (String.◌∷◌ c (String.◌∷◌ d s)) = is_inner c && ends_well (String.◌∷◌ d s)

-- `rolePermissionPattern`: a letter, then 1 to 253 characters and a last one.
abbrev pub role_permission_pattern : String → Bool
role_permission_pattern String.[] = false
role_permission_pattern (String.◌∷◌ c s) =
    is_lower c && ends_well s && leb 2 (byte_length s) && leb (byte_length s) 254

-- A sorted list with one more text, once: the keys of the map, as `slices.Sort` leaves them.
pub insert : String → List String → List String
insert p [] = p ∷ []
insert p (q ∷ qs) =
    let rest = insert p qs in
    elim (String.compare p q) [
      | Ordering.lt ↦ p ∷ q ∷ qs
      | Ordering.eq ↦ q ∷ qs
      | Ordering.gt ↦ q ∷ rest
    ]

pub sorted_set : List String → List String
sorted_set [] = []
sorted_set (p ∷ ps) = insert p (sorted_set ps)

-- `RoleWriteBody`.
pub record RoleWriteBody : Type 0 where
  pub display_name : String
  pub permissions : List String

abbrev pub is_reserved : String → Bool
is_reserved name = name =~ "Admin" || name =~ "Deployer" || name =~ "Viewer"

-- The test of one permission, with the identifiers of the organization's plugin capabilities.
pub is_valid_permission : List String → String → Bool
is_valid_permission plugin_permissions permission =
    role_permission_pattern permission
    && (is_assignable_role_permission permission || any (λ p. p =~ permission) plugin_permissions)

-- The display name and the permissions of the role; `none` is the user's error.
unfoldable pub validate_role_write :
    Option RoleWriteBody → List String → Option (String × List String)
unfolding is_valid_permission sorted_set insert
validate_role_write none plugin_permissions = none
validate_role_write (some body) plugin_permissions =
    let name = trim_space body.display_name in
    if ltb (byte_length name) 2 || ltb 100 (byte_length name)
    then none
    else if is_reserved name
    then none
    else elim body.permissions [
      | [] ↦ none
      | p ∷ ps ↦
          if all (is_valid_permission plugin_permissions) (p ∷ ps)
          then some (name, sorted_set (p ∷ ps))
          else none
    ]
