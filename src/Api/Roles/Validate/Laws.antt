-- ===== src/Api/Roles/Validate/Laws.antt =====
-- What `validateRoleWriteWithPluginCapabilities` of internal/api/roles.go lets through.
use Prim.Native.Nat.{Ordering}
use Prim.Native.String
use mathlib.Core.List.Memᴰ
use platform_orchestrator_ia.Prelude.{
  String, ◌≡◌, ◌≢◌, ◌↔◌, ◌⊎◌, ◌≤◌, eq_iff, inl, inr, refl, sym, ◌∙◌, Bool, true, false, some, List,
  [], ◌∷◌, all, Memᴰ, arith,
}
use platform_orchestrator_ia.Api.Roles.Validate.Permissions.{
  Identifier, Assignable, valid-Assignable,
}
use platform_orchestrator_ia.Api.Roles.Validate.{
  RoleWriteBody, byte_length, trim_space, is_reserved, is_valid_permission, insert, sorted_set,
  validate_role_write,
}

mem-insert : (x p : String) (ps : List String) → Memᴰ x (insert p ps) ↔ ((x ≡ p) ⊎ Memᴰ x ps)
unfolding insert
mem-insert x p [] = (λ m. Memᴰ.cases_cons m, elim [ inl e ↦ Memᴰ.head e | inr m ↦ elim m [ ] ])
mem-insert x p (q ∷ qs) = go (mem-insert x p qs) (String.compare p q) refl
  where
    go :
        Memᴰ x (insert p qs) ↔ ((x ≡ p) ⊎ Memᴰ x qs)
        → (o : Ordering) → String.compare p q ≡ o
        → Memᴰ x (insert p (q ∷ qs)) ↔ ((x ≡ p) ⊎ Memᴰ x (q ∷ qs))
    go later Ordering.lt e =
        rw (insert, e) (λ m. Memᴰ.cases_cons m, elim [ inl h ↦ Memᴰ.head h | inr m ↦ Memᴰ.tail m ])
    go later Ordering.eq e =
        let same : p ≡ q = ground (arith, eq_iff p q) in
        rw (insert, e) (λ m. inr m, elim [ inl h ↦ Memᴰ.head (h ∙ same) | inr m ↦ m ])
    go (to, from) Ordering.gt e =
        rw (insert, e)
          (
            λ m. elim (Memᴰ.cases_cons m) [
              | inl h ↦ inr (Memᴰ.head h)
              | inr n ↦ elim (to n) [ inl h ↦ inl h | inr n' ↦ inr (Memᴰ.tail n') ]
            ],
            elim [
              | inl h ↦ Memᴰ.tail (from (inl h))
              | inr m ↦ elim (Memᴰ.cases_cons m) [
                | inl h ↦ Memᴰ.head h
                | inr n ↦ Memᴰ.tail (from (inr n))
              ]
            ],
          )

mem-sorted_set : (x : String) (ps : List String) → Memᴰ x (sorted_set ps) ↔ Memᴰ x ps
unfolding sorted_set
mem-sorted_set x [] = (λ m. m, λ m. m)
mem-sorted_set x (p ∷ ps) =
    let (to, from) = mem-insert x p (sorted_set ps) in
    let (to', from') = mem-sorted_set x ps in
    (
      λ m. elim (to m) [ inl e ↦ Memᴰ.head e | inr n ↦ Memᴰ.tail (to' n) ],
      λ m. elim (Memᴰ.cases_cons m) [ inl e ↦ from (inl e) | inr n ↦ from (inr (from' n)) ],
    )

all-mem :
    (p : String → Bool) {x : String} {xs : List String} → Memᴰ x xs → all p xs ≡ true → p x ≡ true
all-mem p (Memᴰ.head {x = y} e) h = rw e (ground arith)
all-mem p (Memᴰ.tail {x = y} m) h = all-mem p m (ground arith)

not_reserved :
    (name : String)
    → is_reserved name ≡ false
    → (name ≢ "Admin") × (name ≢ "Deployer") × (name ≢ "Viewer")
not_reserved name free = (
  λ e. absurd (ground (arith, eq_iff name "Admin")),
  λ e. absurd (ground (arith, eq_iff name "Deployer")),
  λ e. absurd (ground (arith, eq_iff name "Viewer")),
)

-- A role that passes has a trimmed name of 2 to 100 bytes that is not "Admin", "Deployer" or "Viewer", at
-- least one permission, and exactly the permissions of the request. Each of them is an identifier of 3
-- to 255 bytes that begins with a small letter, ends with a small letter or a digit and has only these,
-- "_", "." and "-" between, and is in the catalogue of permissions, one of the six older ones, or
-- registered by a plugin.
pub validate_role_write_sound :
    (body : RoleWriteBody) (plugin_permissions permissions : List String) (name : String)
    → validate_role_write (some body) plugin_permissions ≡ some (name, permissions)
    → (name ≡ trim_space body.display_name)
      × (2 ≤ byte_length name)
      × (byte_length name ≤ 100)
      × (name ≢ "Admin")
      × (name ≢ "Deployer")
      × (name ≢ "Viewer")
      × (¬ (body.permissions ≡ []))
      × ((p : String) → Memᴰ p permissions ↔ Memᴰ p body.permissions)
      × ((p : String) → Memᴰ p permissions → Identifier p × Assignable plugin_permissions p)
unfolding validate_role_write
validate_role_write_sound body plugin_permissions permissions name e = go body.permissions refl
  where
    go :
        (ps : List String)
        → body.permissions ≡ ps
        → (name ≡ trim_space body.display_name)
          × (2 ≤ byte_length name)
          × (byte_length name ≤ 100)
          × (name ≢ "Admin")
          × (name ≢ "Deployer")
          × (name ≢ "Viewer")
          × (¬ (body.permissions ≡ []))
          × ((p : String) → Memᴰ p permissions ↔ Memᴰ p body.permissions)
          × ((p : String) → Memᴰ p permissions → Identifier p × Assignable plugin_permissions p)
    go [] listed = absurd (ground arith)
    go (p ∷ ps) listed =
        let same : trim_space body.display_name ≡ name = ground arith in
        let reserved : is_reserved (trim_space body.display_name) ≡ false = ground arith in
        let rows : sorted_set (p ∷ ps) ≡ permissions = ground arith in
        let valid : all (is_valid_permission plugin_permissions) (p ∷ ps) ≡ true = ground arith in
        let free = not_reserved name (rw same at reserved) in
        let members : (x : String) → Memᴰ x permissions ↔ Memᴰ x (p ∷ ps) =
          λ x. rw (← rows) (mem-sorted_set x (p ∷ ps)) in
        (
          sym same,
          rw (← same) (ground arith),
          rw (← same) (ground arith),
          free.0,
          free.1,
          free.2,
          λ h. cc,
          λ x. rw listed (members x),
          λ x m.
              valid-Assignable plugin_permissions x
                (all-mem (is_valid_permission plugin_permissions) ((members x).0 m) valid),
        )
